-- ===== src/Contracts/Stores.antt =====
-- The interfaces of internal/metastore/contract.go and internal/blobstore/contract.go, and the two
-- stores as their values.
use omnistash.Base.{ℕ, String, Bool, List}
use omnistash.Base.Int.{ℤ}
use omnistash.Metastore.Tables.{Digest, NamespaceRow, ManifestRow, ReferrerRow}
use omnistash.Metastore.Tx
use omnistash.Metastore.Store
use omnistash.Env.{Env}
use omnistash.Blobstore.Files.{Bytes}
use omnistash.Blobstore.Os.{Body}
use omnistash.Blobstore.Writer
use omnistash.Blobstore.Upload
use omnistash.Blobstore.Reader
use omnistash.Blobstore.Deleter
use omnistash.World.{Proc}

-- `TxOps`, with the operations of `NamespaceOps`, `BlobOps`, `ManifestOps` and `ReferrerOps`
pub record TxOps : Type 0 where
  pub create_namespace : String → Proc NamespaceRow
  pub delete_namespace : String → Proc NamespaceRow
  pub insert_namespace_blob : String → Digest → ℕ → Proc (Unit {0})
  pub get_namespace_blob : String → Digest → Proc ℕ
  pub stat_namespace_blob : String → Digest → Proc ℕ
  pub insert_manifest : String → Digest → String → ℕ → Proc (Unit {0})
  pub get_manifest_by_digest : String → Digest → Proc ManifestRow
  pub delete_manifest_by_digest : String → Digest → Proc (Unit {0})
  pub upsert_referrer : String → ReferrerRow → Proc (Unit {0})
  pub list_referrers : String → Digest → Proc (List ReferrerRow)
  pub delete_referrer : String → Digest → Proc (Unit {0})

-- `MetadataStore`. A value that the function of a transaction assigns is its result.
pub record MetadataStore : Type 1 where
  pub atomic : (A : Type 0) → (TxOps → Proc A) → Proc A
  pub namespace_exists : String → Proc Bool

-- `sqliteTx`
abbrev pub sqlite_tx : TxOps
sqlite_tx = record {
  create_namespace = Tx.create_namespace;
  delete_namespace = Tx.delete_namespace;
  insert_namespace_blob = Tx.insert_namespace_blob;
  get_namespace_blob = Tx.get_namespace_blob;
  stat_namespace_blob = Tx.stat_namespace_blob;
  insert_manifest = Tx.insert_manifest;
  get_manifest_by_digest = Tx.get_manifest_by_digest;
  delete_manifest_by_digest = Tx.delete_manifest_by_digest;
  upsert_referrer = Tx.upsert_referrer;
  list_referrers = Tx.list_referrers;
  delete_referrer = Tx.delete_referrer;
}

-- `SQLiteMetadataStore`
abbrev pub sqlite_store : MetadataStore
sqlite_store = record {
  atomic = λ A fn. Store.atomic (fn sqlite_tx);
  namespace_exists = Store.namespace_exists;
}

-- `BlobStore`, with the methods of `BlobReader`, `BlobWriter`, `BlobDeleter` and `BlobUploader`. A
-- reader that is returned stands for its bytes, and so does what a call writes.
pub record BlobStore : Type 0 where
  pub get_blob : String → Digest → Proc (Bytes × ℕ)
  pub get_blob_range : String → Digest → ℤ → ℤ → Proc Bytes
  pub put_blob : String → Digest → ℤ → Body → Proc ℕ
  pub stat_blob : String → Digest → Proc ℕ
  pub delete_blob : String → Digest → Proc (Unit {0})
  pub batch_delete_blobs : String → List Digest → Proc (Unit {0})
  pub initiate_blob_upload : String → Proc String
  pub append_blob_chunk : String → String → ℤ → Body → Proc ℕ
  pub get_blob_upload_offset : String → String → Proc ℕ
  pub finalize_blob_upload : String → String → Digest → ℤ → Proc (Unit {0})
  pub cancel_blob_upload : String → String → Proc (Unit {0})

-- `FilesystemBlobStore`
abbrev pub fs_store : Env → BlobStore
fs_store env = record {
  get_blob = Reader.get_blob env;
  get_blob_range = Reader.get_blob_range env;
  put_blob = Writer.put_blob env;
  stat_blob = Writer.stat_blob env;
  delete_blob = Deleter.delete_blob env;
  batch_delete_blobs = Deleter.batch_delete_blobs env;
  initiate_blob_upload = Upload.initiate_blob_upload env;
  append_blob_chunk = Upload.append_blob_chunk;
  get_blob_upload_offset = Upload.get_blob_upload_offset;
  finalize_blob_upload = Upload.finalize_blob_upload env;
  cancel_blob_upload = Upload.cancel_blob_upload;
}
