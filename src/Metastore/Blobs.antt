-- ===== src/Metastore/Blobs.antt =====
-- What registering a blob does to later lookups.
use omnistash.Base.{ℕ, String, ◌≡◌, ◌≢◌, refl, Option, none, some, arith}
use omnistash.Base.{◌==◌, ==_refl, string_eq, pair_eq, if◌then◌else◌}
use omnistash.Base.Table.{lookup, put, lookup-put}
use omnistash.Errors.{ok, fail, sys, SysError}
use omnistash.Metastore.Tables.{Digest, Key, Db, BlobColumns}
use omnistash.Metastore.Sql
use omnistash.Metastore.Valid.{IsValid}
use omnistash.World.{World, calm, ◌>>=◌}
use omnistash.Metastore.Tx
use omnistash.Metastore.Tx.{exec, query_row}

-- The size that a registration leaves: that of the row that is there already, live or soft-deleted.
abbrev pub registered_size : Option BlobColumns → ℕ → ℕ
registered_size none size = size
registered_size (some b) size = b.size

-- The table after a registration, by the row that was there.
abbrev pub registered : ℕ → Key → ℕ → Db → Option BlobColumns → Db
registered now key size db none = record db {
  namespace_blobs = put key (Sql.new_blob now size) db.namespace_blobs;
}
registered now key size db (some b) = record db {
  namespace_blobs = put key (Sql.resurrected b) db.namespace_blobs;
}

insert-resurrect :
    (now : ℕ) (key : Key) (size : ℕ) (db : Db) (row : Option BlobColumns)
    → lookup key db.namespace_blobs ≡ row
    → lookup key.0 db.namespace ≢ none
    → Sql.insert_namespace_blob now key size (Sql.resurrect_row key db row)
      ≡ ok (registered now key size db row)
unfolding Sql.insert_namespace_blob
insert-resurrect now key size db none p e = rw p (ground arith)
insert-resurrect now key size db (some b) p e = rw lookup-put (rw ==_refl)

size-resurrected : (b : BlobColumns) → Sql.active_size (some (Sql.resurrected b)) ≡ some b.size
size-resurrected b = ground arith

pub size-registered :
    (now : ℕ) (key : Key) (size : ℕ) (db : Db) (row : Option BlobColumns) (j : Key)
    → Sql.get_namespace_blob_size j (registered now key size db row)
      ≡ (if j == key then some (registered_size row size) else Sql.get_namespace_blob_size j db)
unfolding Sql.get_namespace_blob_size
size-registered now key size db none j = rw lookup-put (ground arith)
size-registered now key size db (some b) j = rw lookup-put (ground (arith, size-resurrected b))

module _ (w : World) (name : String) (d : Digest) (size : ℕ) where
  abbrev pub row : Option BlobColumns
  row = lookup (name, d) w.db.namespace_blobs

  pub insert_lem :
      lookup name w.db.namespace ≢ none
      → Tx.insert_namespace_blob name d size (calm w)
        ≡ (ok tt, record (calm w) { db = registered w.now (name, d) size w.db row })
  unfolding Tx.insert_namespace_blob Sql.resurrect_namespace_blob ◌>>=◌ exec
  insert_lem e = rw (insert-resurrect w.now (name, d) size w.db _ refl e)

  -- While the engine answers, a blob can be registered in every namespace that exists. From then
  -- on it has its size: the one given, or, if the blob was registered before, live or marked for
  -- deletion, the one that it was first registered with. No other blob changes.
  pub stat-insert :
      lookup name w.db.namespace ≢ none
      → ((Tx.insert_namespace_blob name d size (calm w)).0 ≡ ok tt)
        × ((j : Key)
            → (Tx.stat_namespace_blob j.0 j.1 (Tx.insert_namespace_blob name d size (calm w)).1).0
              ≡ (if j == (name, d)
                  then ok (registered_size (lookup (name, d) w.db.namespace_blobs) size)
                  else (Tx.stat_namespace_blob j.0 j.1 (calm w)).0))
  unfolding Tx.stat_namespace_blob ◌>>=◌ query_row
  stat-insert e =
      rw (insert_lem e)
        (refl, λ j. rw (size-registered w.now (name, d) size w.db row j) (ground arith))

  -- A registration in a namespace that does not exist fails and changes no table.
  pub insert_orphan :
      lookup name w.db.namespace ≡ none
      → IsValid w.db
      → Tx.insert_namespace_blob name d size (calm w) ≡ (fail (sys SysError.external), calm w)
  unfolding Tx.insert_namespace_blob Sql.resurrect_namespace_blob Sql.insert_namespace_blob ◌>>=◌
      exec
  insert_orphan e v = ground (arith, v.blob_names name d e)
