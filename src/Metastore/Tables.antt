-- ===== src/Metastore/Tables.antt =====
-- The tables of migration/sqlite.go, each under its primary key, and the row types of
-- internal/metastore/contract.go. No code of the repository touches `manifest_tags`, so it is
-- always empty and has no table here. A time is a Unix second.
use omnistash.Base.{ℕ, String, Option, List, []}
use omnistash.Base.Table.{Table}

abbrev pub Digest : Type 0
Digest = String

-- The key `(namespace, digest)`.
abbrev pub Key : Type 0
Key = String × Digest

pub data Lifecycle : Type 0 where
  active pending_deletion : Lifecycle

-- A Go `map[string]string`, `none` if it is nil.
abbrev pub Annotations : Type 0
Annotations = Option (List (String × String))

-- namespace: what stands beside the key
pub record Stamps : Type 0 where
  pub created_at : ℕ
  pub updated_at : ℕ

-- namespace_blobs: what stands beside the key
pub record BlobColumns : Type 0 where
  pub size : ℕ
  pub lifecycle : Lifecycle
  pub created_at : ℕ
  pub deleted_at : Option ℕ

-- manifests: what stands beside the key
pub record ManifestColumns : Type 0 where
  pub media_type : String
  pub size : ℕ
  pub lifecycle : Lifecycle
  pub created_at : ℕ
  pub deleted_at : Option ℕ

-- manifest_referrers: what stands beside the key `(namespace, referrer_digest)`
pub record ReferrerColumns : Type 0 where
  pub subject_digest : Digest
  pub media_type : String
  pub artifact_type : String
  pub size : ℕ
  pub annotations : Annotations
  pub created_at : ℕ

pub record Db : Type 0 where
  pub namespace : Table String Stamps
  pub namespace_blobs : Table Key BlobColumns
  pub manifests : Table Key ManifestColumns
  pub manifest_referrers : Table Key ReferrerColumns

-- The database after the migration.
abbrev pub empty_db : Db
empty_db = record { namespace = []; namespace_blobs = []; manifests = []; manifest_referrers = [] }

pub record NamespaceRow : Type 0 where
  pub name : String
  pub created_at : ℕ
  pub updated_at : ℕ

pub record ManifestRow : Type 0 where
  pub namespace : String
  pub digest : Digest
  pub media_type : String
  pub size : ℕ

pub record ReferrerRow : Type 0 where
  pub subject_digest : Digest
  pub digest : Digest
  pub media_type : String
  pub artifact_type : String
  pub size : ℕ
  pub annotations : Annotations
