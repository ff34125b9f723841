-- ===== src/Metastore/Sql.antt =====
-- The statements of internal/metastore/sqlite/sql.go over the constraints of migration/sqlite.go.
-- A statement that a constraint refuses gives an error and leaves the tables alone. `OR IGNORE`
-- skips a row whose primary key is taken; it does not silence a foreign key.
use omnistash.Base.{ℕ, String, Bool, true, false, ◌||◌, Option, none, some}
use omnistash.Base.{List, [], ◌∷◌, ◌==◌, string_eq, pair_eq, leb, if◌then◌else◌}
use omnistash.Base.Table.{Table, lookup, put, remove}
use omnistash.Errors.{Result, ok, fail, sys, SysError}
use omnistash.Metastore.Tables.{Digest, Key, Lifecycle, active, pending_deletion, Stamps}
use omnistash.Metastore.Tables.{BlobColumns, ManifestColumns, ReferrerColumns, Db}
use omnistash.Metastore.Tables.{NamespaceRow, ManifestRow, ReferrerRow}

-- A row of the table has the namespace `name`.
unfoldable pub has_child : {V : Type 0} → String → Table Key V → Bool
has_child name [] = false
has_child name (((ns, d), v) ∷ t) = ns == name || has_child name t

abbrev pub exists : Option Stamps → Bool
exists none = false
exists (some s) = true

-- sqlNamespaceExists
unfoldable pub namespace_exists : String → Db → Bool
namespace_exists name db = exists (lookup name db.namespace)

-- The foreign key `REFERENCES namespace(name)` of a row to be inserted.
abbrev pub referenced : String → Db → Db → Result Db
referenced name db db' =
    if exists (lookup name db.namespace) then ok db' else fail (sys SysError.external)

abbrev pub add_namespace : ℕ → String → Db → Option Stamps → Db × ℕ
add_namespace now name db none =
    let row : Stamps = record { created_at = now; updated_at = now } in
    (record db { namespace = put name row db.namespace }, 1)
add_namespace now name db (some old) = (db, 0)

-- sqlInsertNamespace, with the number of rows affected
unfoldable pub insert_namespace : ℕ → String → Db → Db × ℕ
insert_namespace now name db = add_namespace now name db (lookup name db.namespace)

abbrev pub namespace_row : String → Option Stamps → Option NamespaceRow
namespace_row name none = none
namespace_row name (some s) =
    some (record { name = name; created_at = s.created_at; updated_at = s.updated_at })

-- sqlSelectNamespace
unfoldable pub select_namespace : String → Db → Option NamespaceRow
select_namespace name db = namespace_row name (lookup name db.namespace)

abbrev pub deleted : String → Db → Bool → Result Db
deleted name db true = fail (sys SysError.external)
deleted name db false = ok (record db { namespace = remove name db.namespace })

-- sqlDeleteNamespace: a foreign key that points at the row refuses it.
unfoldable pub delete_namespace : String → Db → Result Db
delete_namespace name db = deleted name db (
    has_child name db.namespace_blobs
    || (has_child name db.manifests || has_child name db.manifest_referrers))

abbrev pub active_size : Option BlobColumns → Option ℕ
active_size none = none
active_size (some b) = elim b.lifecycle [ active ↦ some b.size | pending_deletion ↦ none ]

-- sqlGetNamespaceBlobSize
unfoldable pub get_namespace_blob_size : Key → Db → Option ℕ
get_namespace_blob_size key db = active_size (lookup key db.namespace_blobs)

abbrev pub resurrected : BlobColumns → BlobColumns
resurrected b = elim b.lifecycle [
  | active ↦ b
  | pending_deletion ↦ record b { lifecycle = active; deleted_at = none }
]

abbrev pub resurrect_row : Key → Db → Option BlobColumns → Db
resurrect_row key db none = db
resurrect_row key db (some b) = record db {
  namespace_blobs = put key (resurrected b) db.namespace_blobs;
}

-- sqlResurrectNamespaceBlob
unfoldable pub resurrect_namespace_blob : Key → Db → Db
resurrect_namespace_blob key db = resurrect_row key db (lookup key db.namespace_blobs)

abbrev pub new_blob : ℕ → ℕ → BlobColumns
new_blob now size = record { size = size; lifecycle = active; created_at = now; deleted_at = none }

abbrev pub add_blob : ℕ → Key → ℕ → Db → Option BlobColumns → Result Db
add_blob now key size db (some old) = ok db
add_blob now key size db none =
    referenced key.0 db
      (record db { namespace_blobs = put key (new_blob now size) db.namespace_blobs })

-- sqlInsertNamespaceBlob
unfoldable pub insert_namespace_blob : ℕ → Key → ℕ → Db → Result Db
insert_namespace_blob now key size db = add_blob now key size db (lookup key db.namespace_blobs)

abbrev pub new_manifest : ℕ → String → ℕ → ManifestColumns
new_manifest now media_type size = record {
  media_type = media_type;
  size = size;
  lifecycle = active;
  created_at = now;
  deleted_at = none;
}

abbrev pub add_manifest : ℕ → Key → String → ℕ → Db → Option ManifestColumns → Result Db
add_manifest now key media_type size db (some old) = ok db
add_manifest now key media_type size db none =
    referenced key.0 db
      (record db { manifests = put key (new_manifest now media_type size) db.manifests })

-- sqlInsertManifest
unfoldable pub insert_manifest : ℕ → Key → String → ℕ → Db → Result Db
insert_manifest now key media_type size db =
    add_manifest now key media_type size db (lookup key db.manifests)

abbrev pub active_manifest : Key → Option ManifestColumns → Option ManifestRow
active_manifest key none = none
active_manifest key (some m) = elim m.lifecycle [
  | active ↦
      some (record { namespace = key.0; digest = key.1; media_type = m.media_type; size = m.size })
  | pending_deletion ↦ none
]

-- sqlGetManifestByDigest
unfoldable pub get_manifest_by_digest : Key → Db → Option ManifestRow
get_manifest_by_digest key db = active_manifest key (lookup key db.manifests)

abbrev pub mark_row : ℕ → Key → Db → ManifestColumns → Lifecycle → Db × ℕ
mark_row now key db m pending_deletion = (db, 0)
mark_row now key db m active =
    let row : ManifestColumns = record m { lifecycle = pending_deletion; deleted_at = some now } in
    (record db { manifests = put key row db.manifests }, 1)

abbrev pub mark_deleted : ℕ → Key → Db → Option ManifestColumns → Db × ℕ
mark_deleted now key db none = (db, 0)
mark_deleted now key db (some m) = mark_row now key db m m.lifecycle

-- sqlDeleteManifestByDigest, with the number of rows affected
unfoldable pub delete_manifest_by_digest : ℕ → Key → Db → Db × ℕ
delete_manifest_by_digest now key db = mark_deleted now key db (lookup key db.manifests)

abbrev pub first_created : ℕ → Option ReferrerColumns → ℕ
first_created now none = now
first_created now (some old) = old.created_at

abbrev pub referrer_columns : ℕ → ReferrerRow → ReferrerColumns
referrer_columns created row = record {
  subject_digest = row.subject_digest;
  media_type = row.media_type;
  artifact_type = row.artifact_type;
  size = row.size;
  annotations = row.annotations;
  created_at = created;
}

-- sqlUpsertReferrer: on a conflict every column but the key and `created_at` is overwritten.
unfoldable pub upsert_referrer : ℕ → String → ReferrerRow → Db → Result Db
upsert_referrer now ns row db =
    let key : Key = (ns, row.digest) in
    let created = first_created now (lookup key db.manifest_referrers) in
    let new = put key (referrer_columns created row) db.manifest_referrers in
    referenced ns db (record db { manifest_referrers = new })

abbrev pub referrer_row : Digest → ReferrerColumns → ReferrerRow
referrer_row d c = record {
  subject_digest = c.subject_digest;
  digest = d;
  media_type = c.media_type;
  artifact_type = c.artifact_type;
  size = c.size;
  annotations = c.annotations;
}

-- A row with its `created_at`.
abbrev pub Dated : Type 0
Dated = ℕ × ReferrerRow

-- The WHERE clause of sqlListReferrers.
unfoldable pub referrers_of : String → Digest → Table Key ReferrerColumns → List Dated
referrers_of ns subject [] = []
referrers_of ns subject (((n, d), c) ∷ t) =
    let rest = referrers_of ns subject t in
    if n == ns
    then (if c.subject_digest == subject then (c.created_at, referrer_row d c) ∷ rest else rest)
    else rest

unfoldable pub insert_by_date : Dated → List Dated → List Dated
insert_by_date x [] = x ∷ []
insert_by_date x (y ∷ ys) = if leb x.0 y.0 then x ∷ y ∷ ys else y ∷ insert_by_date x ys

-- `ORDER BY created_at ASC`, rows of one second in the order of the table
unfoldable pub order_by_date : List Dated → List Dated
unfolding insert_by_date
order_by_date [] = []
order_by_date (x ∷ xs) = insert_by_date x (order_by_date xs)

-- sqlListReferrers
unfoldable pub list_referrers : String → Digest → Db → List Dated
unfolding order_by_date referrers_of
list_referrers ns subject db = order_by_date (referrers_of ns subject db.manifest_referrers)

-- sqlDeleteReferrer
unfoldable pub delete_referrer : String → Digest → Db → Db
delete_referrer ns d db = record db { manifest_referrers = remove (ns, d) db.manifest_referrers }
