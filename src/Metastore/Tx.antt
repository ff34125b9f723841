-- ===== src/Metastore/Tx.antt =====
-- The operations of a transaction: internal/metastore/sqlite/{namespace,blob,manifest,referrer}.go.
-- Each call of the database engine may fail. Annotations are stored as the map that their JSON
-- stands for.
use omnistash.Base.{ℕ, zero, suc, String, Option, none, some, List, [], ◌∷◌}
use omnistash.Errors.{Result, ok, err, sys, meta, oci, SysError, MetaError, OciError}
use omnistash.Metastore.Tables.{Digest, Db, NamespaceRow, ManifestRow, ReferrerRow, Annotations}
use omnistash.Metastore.Sql
use omnistash.Metastore.Sql.{Dated}
use omnistash.World.{World, Proc, pure, throw, gets, trip, ◌>>=◌, ◌>>◌}

abbrev pub store_result : Result Db → Proc (Unit {0})
store_result (ok db) w = (ok tt, record w { db = db })
store_result (err e) w = (err e, w)

-- A statement that a constraint may refuse.
unfoldable pub exec : (World → Result Db) → Proc (Unit {0})
exec f = do trip; (λ w. store_result (f w) w)

-- A statement that reports the number of rows affected; asking for it may fail too.
abbrev pub store_counted : Db × ℕ → Proc ℕ
store_counted (db, n) w = (ok n, record w { db = db })

unfoldable pub exec_counted : (World → Db × ℕ) → Proc ℕ
exec_counted f = do trip; n ← (λ w. store_counted (f w) w); trip; pure n

-- A query for one row; `ErrNoRows` if there is none.
unfoldable pub query_row : {A : Type 0} → (World → Option A) → Proc (Option A)
query_row f = do trip; gets f

abbrev pub or_throw : {A : Type 0} → Proc A → Option A → Proc A
or_throw m none = m
or_throw m (some a) = pure a

-- What `rows == 0` decides.
abbrev pub if_affected : {A : Type 0} → ℕ → Proc A → Proc A → Proc A
if_affected zero without with_rows = without
if_affected (suc n) without with_rows = with_rows

unfoldable pub create_namespace : String → Proc NamespaceRow
create_namespace name = do
  rows ← exec_counted (λ w. Sql.insert_namespace w.now name w.db)
  if_affected rows (throw (meta MetaError.name_exists)) (do
    row ← query_row (λ w. Sql.select_namespace name w.db)
    or_throw (throw (sys SysError.no_rows)) row)

unfoldable pub delete_namespace : String → Proc NamespaceRow
delete_namespace name = do
  found ← query_row (λ w. Sql.select_namespace name w.db)
  row ← or_throw (throw (meta MetaError.name_unknown)) found
  exec (λ w. Sql.delete_namespace name w.db)
  pure row

unfoldable pub get_namespace_blob : String → Digest → Proc ℕ
get_namespace_blob name d = do
  size ← query_row (λ w. Sql.get_namespace_blob_size (name, d) w.db)
  or_throw (throw (meta MetaError.blob_unknown)) size

unfoldable pub stat_namespace_blob : String → Digest → Proc ℕ
stat_namespace_blob name d = do
  size ← query_row (λ w. Sql.get_namespace_blob_size (name, d) w.db)
  or_throw (throw (meta MetaError.blob_unknown)) size

unfoldable pub insert_namespace_blob : String → Digest → ℕ → Proc (Unit {0})
insert_namespace_blob name d size = do
  exec (λ w. ok (Sql.resurrect_namespace_blob (name, d) w.db))
  exec (λ w. Sql.insert_namespace_blob w.now (name, d) size w.db)

unfoldable pub insert_manifest : String → Digest → String → ℕ → Proc (Unit {0})
insert_manifest ns d media_type size =
    exec (λ w. Sql.insert_manifest w.now (ns, d) media_type size w.db)

unfoldable pub get_manifest_by_digest : String → Digest → Proc ManifestRow
get_manifest_by_digest ns d = do
  row ← query_row (λ w. Sql.get_manifest_by_digest (ns, d) w.db)
  or_throw (throw (oci OciError.manifest_unknown)) row

unfoldable pub delete_manifest_by_digest : String → Digest → Proc (Unit {0})
delete_manifest_by_digest ns d = do
  rows ← exec_counted (λ w. Sql.delete_manifest_by_digest w.now (ns, d) w.db)
  if_affected rows (throw (oci OciError.manifest_unknown)) (pure tt)

-- A nil map of annotations is stored as an empty one.
abbrev pub stored : Annotations → Annotations
stored none = some []
stored (some m) = some m

unfoldable pub upsert_referrer : String → ReferrerRow → Proc (Unit {0})
upsert_referrer ns row =
    exec
      (λ w. Sql.upsert_referrer w.now ns (record row { annotations = stored row.annotations }) w.db)

abbrev pub undated : List Dated → List ReferrerRow
undated [] = []
undated ((c, row) ∷ rows) = row ∷ undated rows

-- The query may fail, and so may reading the rows.
unfoldable pub list_referrers : String → Digest → Proc (List ReferrerRow)
list_referrers ns subject = do
  trip
  rows ← gets (λ w. Sql.list_referrers ns subject w.db)
  trip
  pure (undated rows)

unfoldable pub delete_referrer : String → Digest → Proc (Unit {0})
delete_referrer ns d = exec (λ w. ok (Sql.delete_referrer ns d w.db))
