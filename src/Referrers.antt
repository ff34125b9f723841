-- ===== src/Referrers.antt =====
-- The referrer service: internal/referrer/service.go, validate.go and models.go.
pub mod Members
use omnistash.Base.{ℕ, String, ◌==◌, string_eq, Bool, true, false, List, [], ◌∷◌, if◌then◌else◌}
use omnistash.Metastore.Tables.{Digest, Annotations, ReferrerRow}
use omnistash.Metastore.Tx
use omnistash.Metastore.Store.{atomic}
use omnistash.Name.{validate_name}
use omnistash.Manifests.{check_namespace_exists}
use omnistash.World.{Proc, pure, lift, ◌>>=◌, ◌>>◌}

-- The fields of `ocispec.Descriptor` that the service sets.
pub record Descriptor : Type 0 where
  pub media_type : String
  pub digest : Digest
  pub size : ℕ
  pub artifact_type : String
  pub annotations : Annotations

-- models.go
pub record ListResult : Type 0 where
  pub manifests : List Descriptor
  pub filter_applied : Bool

abbrev pub descriptor : ReferrerRow → Descriptor
descriptor row = record {
  media_type = row.media_type;
  digest = row.digest;
  size = row.size;
  artifact_type = row.artifact_type;
  annotations = row.annotations;
}

-- The first loop of `ListReferrers`.
unfoldable pub descriptors : List ReferrerRow → List Descriptor
descriptors [] = []
descriptors (row ∷ rows) = descriptor row ∷ descriptors rows

-- The second: it filters in place, which a list returns as a new one.
unfoldable pub of_type : String → List Descriptor → List Descriptor
of_type t [] = []
of_type t (d ∷ ds) = let rest = of_type t ds in if d.artifact_type == t then d ∷ rest else rest

abbrev pub list_result : String → List Descriptor → ListResult
list_result t ds =
    if t == ""
    then record { manifests = ds; filter_applied = false }
    else record { manifests = of_type t ds; filter_applied = true }

-- `ListReferrers`
unfoldable pub list_referrers : String → Digest → String → Proc ListResult
list_referrers ns subject artifact_type = do
  lift (validate_name ns)
  check_namespace_exists ns
  rows ← atomic (Tx.list_referrers ns subject)
  pure (list_result artifact_type (descriptors rows))
