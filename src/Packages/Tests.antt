-- ===== src/Packages/Tests.antt =====
-- The visibility rules and the artifact kinds on concrete inputs.
use publaryn.Prelude.{◌⊎◌, none, ◌≡◌, ◌↔◌, refl, false, some}
use publaryn.Error.{ok, err, validation}
use publaryn.Domain.Repository.{Visibility}
use publaryn.Packages.Visibility.{
  Fits, derive_package_visibility, visibility_scope_rank, derive_package_visibility_iff,
}
use publaryn.Packages.Artifact.{
  ArtifactKind, parse_artifact_kind, kind_of_word, validate_artifact_filename,
}

derive_package_visibility_iff_example :
    (derive_package_visibility (some Visibility.unlisted) Visibility.public false
      ≡ ok Visibility.unlisted)
    ↔ (((some Visibility.unlisted ≡ some Visibility.unlisted)
          ⊎ ((some Visibility.unlisted ≡ none) × (Visibility.unlisted ≡ Visibility.public)))
        × Fits Visibility.unlisted Visibility.public false)
derive_package_visibility_iff_example =
    derive_package_visibility_iff (some Visibility.unlisted) Visibility.public false
      Visibility.unlisted

broader_is_refused :
    derive_package_visibility (some Visibility.public) Visibility.private false
    ≡ err
        (validation "Package visibility cannot be broader than the enclosing repository visibility")
unfolding derive_package_visibility visibility_scope_rank
broader_is_refused = refl

padded_kind : parse_artifact_kind " OCI_Layer " ≡ ok ArtifactKind.oci_layer
unfolding parse_artifact_kind kind_of_word
padded_kind = refl

path_is_refused :
    validate_artifact_filename "a/b.whl"
    ≡ err (validation "Artifact filename must not contain path separators")
unfolding validate_artifact_filename
path_is_refused = refl
