-- ===== src/Packages/Artifact.antt =====
-- The kinds, names and checksums of artifacts.
use publaryn.Prelude.{
  ℕ, ◌≡◌, refl, String, Bool, not, ◌&&◌, ◌||◌, List, map, any, has, leb, if◌then◌else◌, codes,
  trim_text, is_empty, to_ascii_lower, trim,
}
use publaryn.Error.{Result, ok, err, ◌>>◌, ensure, validation}
use publaryn.Domain.OrgRole.{is_word}

pub data ArtifactKind : Type 0 where
  tarball wheel sdist jar pom gem nupkg snupkg oci_manifest oci_layer crate composer_zip checksum
        signature sbom source_zip :
      ArtifactKind

unfoldable pub artifact_kind_as_str : ArtifactKind → String
artifact_kind_as_str tarball = "tarball"
artifact_kind_as_str wheel = "wheel"
artifact_kind_as_str sdist = "sdist"
artifact_kind_as_str jar = "jar"
artifact_kind_as_str pom = "pom"
artifact_kind_as_str gem = "gem"
artifact_kind_as_str nupkg = "nupkg"
artifact_kind_as_str snupkg = "snupkg"
artifact_kind_as_str oci_manifest = "oci_manifest"
artifact_kind_as_str oci_layer = "oci_layer"
artifact_kind_as_str crate = "crate"
artifact_kind_as_str composer_zip = "composer_zip"
artifact_kind_as_str checksum = "checksum"
artifact_kind_as_str signature = "signature"
artifact_kind_as_str sbom = "sbom"
artifact_kind_as_str source_zip = "source_zip"

-- The arms of the match, on the trimmed lower-case text.
unfoldable pub kind_of_word : List ℕ → Result ArtifactKind
kind_of_word w =
    if is_word w "tarball"
    then ok tarball
    else if is_word w "wheel"
    then ok wheel
    else if is_word w "sdist"
    then ok sdist
    else if is_word w "jar"
    then ok jar
    else if is_word w "pom"
    then ok pom
    else if is_word w "gem"
    then ok gem
    else if is_word w "nupkg"
    then ok nupkg
    else if is_word w "snupkg"
    then ok snupkg
    else if is_word w "oci_manifest"
    then ok oci_manifest
    else if is_word w "oci_layer"
    then ok oci_layer
    else if is_word w "crate"
    then ok crate
    else if is_word w "composer_zip"
    then ok composer_zip
    else if is_word w "checksum"
    then ok checksum
    else if is_word w "signature"
    then ok signature
    else if is_word w "sbom"
    then ok sbom
    else if is_word w "source_zip"
    then ok source_zip
    else err (validation "Unknown artifact kind")

unfoldable pub parse_artifact_kind : String → Result ArtifactKind
unfolding kind_of_word
parse_artifact_kind input = kind_of_word (map to_ascii_lower (trim (codes input)))

-- `char::is_control`: the code points of the Unicode category Cc.
abbrev pub is_control : ℕ → Bool
is_control c = leb c 31 || (leb 127 c && leb c 159)

unfoldable pub validate_artifact_filename : String → Result (Unit {0})
validate_artifact_filename filename = do
  ensure (not (is_empty (trim_text filename))) (validation "Artifact filename must not be empty")
  ensure (not (has b'/' (codes filename) || has 92 (codes filename)))
      (validation "Artifact filename must not contain path separators")
  ensure (not (any is_control (codes filename)))
      (validation "Artifact filename must not contain control characters")

-- Every kind is read back from its wire name.
pub parse_artifact_kind-artifact_kind_as_str :
    (kind : ArtifactKind) → parse_artifact_kind (artifact_kind_as_str kind) ≡ ok kind
unfolding parse_artifact_kind artifact_kind_as_str
parse_artifact_kind-artifact_kind_as_str tarball = refl
parse_artifact_kind-artifact_kind_as_str wheel = refl
parse_artifact_kind-artifact_kind_as_str sdist = refl
parse_artifact_kind-artifact_kind_as_str jar = refl
parse_artifact_kind-artifact_kind_as_str pom = refl
parse_artifact_kind-artifact_kind_as_str gem = refl
parse_artifact_kind-artifact_kind_as_str nupkg = refl
parse_artifact_kind-artifact_kind_as_str snupkg = refl
parse_artifact_kind-artifact_kind_as_str oci_manifest = refl
parse_artifact_kind-artifact_kind_as_str oci_layer = refl
parse_artifact_kind-artifact_kind_as_str crate = refl
parse_artifact_kind-artifact_kind_as_str composer_zip = refl
parse_artifact_kind-artifact_kind_as_str checksum = refl
parse_artifact_kind-artifact_kind_as_str signature = refl
parse_artifact_kind-artifact_kind_as_str sbom = refl
parse_artifact_kind-artifact_kind_as_str source_zip = refl
