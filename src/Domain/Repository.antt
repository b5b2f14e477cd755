-- ===== src/Domain/Repository.antt =====
-- `Visibility` and `RepositoryKind` of crates/core/src/domain/repository.rs.
use publaryn.Prelude.{String}

pub data Visibility : Type 0 where
  public private internal_org unlisted quarantined : Visibility

pub data RepositoryKind : Type 0 where
  public private staging release proxy virtual : RepositoryKind

-- `visibility::text`, and `visibility_as_str` of crates/api/src/routes/packages.rs.
unfoldable pub visibility_as_str : Visibility → String
visibility_as_str Visibility.public = "public"
visibility_as_str Visibility.private = "private"
visibility_as_str Visibility.internal_org = "internal_org"
visibility_as_str Visibility.unlisted = "unlisted"
visibility_as_str Visibility.quarantined = "quarantined"
