-- ===== src/Metastore/Manifests.antt =====
-- What inserting and deleting a manifest do to later lookups.
use omnistash.Base.{ℕ, zero, suc, String, ◌≡◌, ◌≢◌, refl, Option, none, some, arith, [], ◌∷◌}
use omnistash.Base.{◌==◌, ==_refl, string_eq, pair_eq, if◌then◌else◌}
use omnistash.Base.Table.{lookup, lookup-put, lookup-remove}
use omnistash.Errors.{Result, ok, err, fail, oci, OciError}
use omnistash.Metastore.Tables.{Digest, Key, Db, ManifestColumns, ManifestRow}
use omnistash.Metastore.Tables.{Lifecycle, active, pending_deletion}
use omnistash.Metastore.Sql
use omnistash.World.{World, calm, throw, pure, ◌>>=◌, ◌>>◌}
use omnistash.Metastore.Tx
use omnistash.Metastore.Store.{atomic}
use omnistash.Metastore.Atomic.{atomic-calm_ok, atomic-calm_err}
use omnistash.Metastore.Tx.{exec, exec_counted, query_row}

module _ (ns : String) (d : Digest) (media_type : String) (size : ℕ) where
  -- What a lookup finds after an insertion, by the row that was there: a row marked for deletion
  -- stays so.
  abbrev pub found_after_insert : Option ManifestColumns → Result ManifestRow
  found_after_insert none =
      ok (record { namespace = ns; digest = d; media_type = media_type; size = size })
  found_after_insert (some m) = elim m.lifecycle [
    | active ↦ ok (record { namespace = ns; digest = d; media_type = m.media_type; size = m.size })
    | pending_deletion ↦ fail (oci OciError.manifest_unknown)
  ]

  -- While the engine answers, a manifest can be inserted in every namespace that exists. From then
  -- on a lookup of it finds what `found_after_insert` says, and no other lookup changes.
  pub get-insert :
      (w : World)
      → lookup ns w.db.namespace ≢ none
      → ((Tx.insert_manifest ns d media_type size (calm w)).0 ≡ ok tt)
        × ((j : Key)
            → (Tx.get_manifest_by_digest j.0 j.1
                (Tx.insert_manifest ns d media_type size (calm w)).1).0
              ≡ (if j == (ns, d)
                  then found_after_insert (lookup (ns, d) w.db.manifests)
                  else (Tx.get_manifest_by_digest j.0 j.1 (calm w)).0))
  unfolding Tx.get_manifest_by_digest Tx.insert_manifest Sql.insert_manifest
      Sql.get_manifest_by_digest ◌>>=◌ query_row exec
  get-insert w e = (
    ground arith,
    λ j.
        ground
          (arith, lookup-put j (ns, d) (Sql.new_manifest w.now media_type size) w.db.manifests),
  )

get-mark_row :
    (now : ℕ) (key : Key) (db : Db) (m : ManifestColumns) (l : Lifecycle)
    → lookup key db.manifests ≡ some m
    → m.lifecycle ≡ l
    → (j : Key)
    → Sql.get_manifest_by_digest j (Sql.mark_row now key db m l).0
      ≡ (if j == key then none else Sql.get_manifest_by_digest j db)
unfolding Sql.get_manifest_by_digest
get-mark_row now key db m active p q j = rw lookup-put (ground arith)
get-mark_row now key db m pending_deletion p q j = ground arith

get-mark_deleted :
    (now : ℕ) (key : Key) (db : Db) (row : Option ManifestColumns)
    → lookup key db.manifests ≡ row
    → (j : Key)
    → Sql.get_manifest_by_digest j (Sql.mark_deleted now key db row).0
      ≡ (if j == key then none else Sql.get_manifest_by_digest j db)
unfolding Sql.get_manifest_by_digest
get-mark_deleted now key db none p j = ground arith
get-mark_deleted now key db (some m) p j = get-mark_row now key db m m.lifecycle p refl j

module _ (w : World) (ns : String) (d : Digest) where
  delete_db :
      (Tx.delete_manifest_by_digest ns d (calm w)).1
      ≡ record (calm w) { db = (Sql.delete_manifest_by_digest w.now (ns, d) w.db).0 }
  unfolding Tx.delete_manifest_by_digest ◌>>=◌ exec_counted
  delete_db = go _
    where
      go :
          (n : ℕ) {v : World}
          → (Tx.if_affected n (throw (oci OciError.manifest_unknown)) (pure tt) v).1 ≡ v
      go zero = refl
      go (suc n) = refl

  -- While the engine answers, deleting a manifest succeeds exactly if a lookup finds it, and fails
  -- with `ErrManifestUnknown` if not. Afterwards a lookup of it fails so, and no other lookup
  -- changes.
  pub get-delete :
      ((Tx.delete_manifest_by_digest ns d (calm w)).0
        ≡ elim (Tx.get_manifest_by_digest ns d (calm w)).0 [ ok row ↦ ok tt | err e ↦ err e ])
      × ((j : Key)
          → (Tx.get_manifest_by_digest j.0 j.1 (Tx.delete_manifest_by_digest ns d (calm w)).1).0 ≡ (
              if j == (ns, d)
              then fail (oci OciError.manifest_unknown)
              else (Tx.get_manifest_by_digest j.0 j.1 (calm w)).0))
  unfolding Tx.get_manifest_by_digest Tx.delete_manifest_by_digest Sql.delete_manifest_by_digest
      Sql.get_manifest_by_digest ◌>>=◌ query_row exec_counted
  get-delete = (
    ground arith,
    λ j. rw (delete_db, get-mark_deleted w.now (ns, d) w.db _ refl j) (ground arith),
  )

-- The tables after a transaction that deletes a manifest and its referrer.
abbrev pub without_manifest : ℕ → String → Digest → Db → Db
without_manifest now ns d db =
    Sql.delete_referrer ns d (Sql.delete_manifest_by_digest now (ns, d) db).0

module _ (w : World) (ns : String) (d : Digest) where
  delete_found :
      (row : ManifestRow)
      → Sql.get_manifest_by_digest (ns, d) w.db ≡ some row
      → Tx.delete_manifest_by_digest ns d (calm w)
        ≡ (ok tt, record (calm w) { db = (Sql.delete_manifest_by_digest w.now (ns, d) w.db).0 })
  unfolding Tx.delete_manifest_by_digest Sql.delete_manifest_by_digest Sql.get_manifest_by_digest
      ◌>>=◌ exec_counted
  delete_found row h = ground arith

  -- The transaction of `DeleteManifest`, if a lookup finds the manifest.
  pub delete_both_found :
      (row : ManifestRow)
      → Sql.get_manifest_by_digest (ns, d) w.db ≡ some row
      → atomic (do Tx.delete_manifest_by_digest ns d; Tx.delete_referrer ns d) (calm w)
        ≡ (ok tt, calm (record w { db = without_manifest w.now ns d w.db }))
  unfolding Tx.delete_referrer exec ◌>>=◌
  delete_both_found row h =
      atomic-calm_ok _ w (record w { db = without_manifest w.now ns d w.db }) tt
        (rw (delete_found row h) refl)

  delete_missing :
      Sql.get_manifest_by_digest (ns, d) w.db ≡ none
      → Tx.delete_manifest_by_digest ns d (calm w) ≡ (fail (oci OciError.manifest_unknown), calm w)
  unfolding Tx.delete_manifest_by_digest Sql.delete_manifest_by_digest Sql.get_manifest_by_digest
      ◌>>=◌ exec_counted
  delete_missing h = ground arith

  -- The same, if none is found.
  pub delete_both_missing :
      Sql.get_manifest_by_digest (ns, d) w.db ≡ none
      → atomic (do Tx.delete_manifest_by_digest ns d; Tx.delete_referrer ns d) (calm w)
        ≡ (fail (oci OciError.manifest_unknown), calm w)
  unfolding ◌>>=◌
  delete_both_missing h =
      atomic-calm_err _ w w (oci OciError.manifest_unknown ∷ []) (rw (delete_missing h) refl)

-- What later lookups find.
pub get-without_manifest :
    (now : ℕ) (ns : String) (d : Digest) (db : Db) (j : Key)
    → Sql.get_manifest_by_digest j (without_manifest now ns d db)
      ≡ (if j == (ns, d) then none else Sql.get_manifest_by_digest j db)
unfolding Sql.delete_referrer Sql.delete_manifest_by_digest Sql.get_manifest_by_digest
get-without_manifest now ns d db j = get-mark_deleted now (ns, d) db _ refl j

pub namespace-without_manifest :
    (now : ℕ) (ns : String) (d : Digest) (db : Db)
    → (without_manifest now ns d db).namespace ≡ db.namespace
unfolding Sql.delete_referrer Sql.delete_manifest_by_digest
namespace-without_manifest now ns d db = ground arith

pub referrer-without_manifest :
    (now : ℕ) (ns : String) (d : Digest) (db : Db)
    → lookup (ns, d) (without_manifest now ns d db).manifest_referrers ≡ none
unfolding Sql.delete_referrer
referrer-without_manifest now ns d db = rw (lookup-remove, ==_refl {A = Key} (ns, d)) refl
