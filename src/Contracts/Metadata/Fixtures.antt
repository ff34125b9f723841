-- ===== src/Contracts/Metadata/Fixtures.antt =====
-- internal/metastore/metastoretest/fixtures.go
use omnistash.Base.{ℕ, String, if◌then◌else◌}
use omnistash.Errors.{Result, ok, err, is, meta, MetaError}
use omnistash.Metastore.Tables.{Digest, NamespaceRow}
use omnistash.Contracts.Stores.{TxOps, MetadataStore}
use omnistash.Contracts.Testing.{Test, must}
use omnistash.World.{World, Proc, pure, raise, attempt, ◌>>=◌, ◌>>◌}

abbrev pub default_name : String
default_name = "library/test"

abbrev pub other_name : String
other_name = "library/other"

abbrev pub test_size : ℕ
test_size = 2

-- The digests of the fixtures, each `digest.FromString` of a text of its own.
pub record Digests : Type 0 where
  pub test : Digest
  pub unknown : Digest
  pub manifest : Digest
  pub subject : Digest
  pub referrer : Digest
  pub referrer_2 : Digest

-- What the suite is given: a store, how a test sets up a new one, and the digests.
pub record Setup : Type 1 where
  pub store : MetadataStore
  pub new_store : World → World
  pub digests : Digests

module _ (store : MetadataStore) where
  -- `mustAtomic`
  abbrev pub must_atomic : (A : Type 0) → (TxOps → Proc A) → Proc A
  must_atomic A fn = must (store.atomic A fn)

  -- `seedNamespace`
  unfoldable pub seed_namespace : Proc NamespaceRow
  seed_namespace = must_atomic NamespaceRow (λ tx. tx.create_namespace default_name)

  abbrev pub unless_exists : Result NamespaceRow → Test
  unless_exists (ok row) = pure tt
  unless_exists (err e) = if is e (meta MetaError.name_exists) then pure tt else raise e

  -- `seedNamespaceBlob`
  unfoldable pub seed_namespace_blob : Digest → Test
  seed_namespace_blob d = must_atomic (Unit {0}) (λ tx. do
    r ← attempt (tx.create_namespace default_name)
    unless_exists r
    tx.insert_namespace_blob default_name d test_size)
