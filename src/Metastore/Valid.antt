-- ===== src/Metastore/Valid.antt =====
-- The integrity of the tables, and the statements that keep it.
use omnistash.Base.{ℕ, String, ◌≡◌, ◌≢◌, refl, Bool, true, false, ◌||◌}
use omnistash.Base.{Option, none, some, string_eq, pair_eq}
use omnistash.Base.{if◌then◌else◌}
use omnistash.Base.Table.{Table, lookup, put, IsKeyed}
use omnistash.Base.Table.{put-IsKeyed, remove-IsKeyed}
use omnistash.Errors.{Result, ok, err, fail, sys, SysError}
use omnistash.Metastore.Tables.{
  Digest, Key, Stamps, Db, ReferrerRow, Lifecycle, active, pending_deletion,
}
use omnistash.Metastore.Tables.{BlobColumns, ManifestColumns, ReferrerColumns}
use omnistash.Metastore.Sql
use omnistash.Metastore.References.{
  IsReferencing, put-IsReferencing, remove-IsReferencing, IsReferencing-put, IsReferencing-remove,
}

pub record IsValid (db : Db) : Type 0 where
  pub namespace_keys : IsKeyed db.namespace
  pub blob_keys : IsKeyed db.namespace_blobs
  pub manifest_keys : IsKeyed db.manifests
  pub referrer_keys : IsKeyed db.manifest_referrers
  pub blob_names : IsReferencing db.namespace db.namespace_blobs
  pub manifest_names : IsReferencing db.namespace db.manifests
  pub referrer_names : IsReferencing db.namespace db.manifest_referrers

add_namespace-IsValid :
    (now : ℕ) (name : String) (db : Db) (old : Option Stamps)
    → IsValid db
    → IsValid (Sql.add_namespace now name db old).0
add_namespace-IsValid now name db (some old) v = v
add_namespace-IsValid now name db none v = record {
  namespace_keys = put-IsKeyed name _ db.namespace v.namespace_keys;
  blob_keys = v.blob_keys;
  manifest_keys = v.manifest_keys;
  referrer_keys = v.referrer_keys;
  blob_names = IsReferencing-put db.namespace name _ db.namespace_blobs v.blob_names;
  manifest_names = IsReferencing-put db.namespace name _ db.manifests v.manifest_names;
  referrer_names = IsReferencing-put db.namespace name _ db.manifest_referrers v.referrer_names;
}

-- A result that, if it is a database, is a valid one.
abbrev pub IsValidIfOk : Result Db → Type 0
IsValidIfOk (ok db) = IsValid db
IsValidIfOk (err e) = Unit

pub insert_namespace-IsValid :
    (now : ℕ) (name : String) (db : Db) → IsValid db → IsValid (Sql.insert_namespace now name db).0
unfolding Sql.insert_namespace
insert_namespace-IsValid now name db = add_namespace-IsValid now name db _

pub delete_namespace-IsValid :
    (name : String) (db : Db) → IsValid db → IsValidIfOk (Sql.delete_namespace name db)
unfolding Sql.delete_namespace
delete_namespace-IsValid name db v = go _ _ _ refl refl refl
  where
    go :
        (a b c : Bool)
        → Sql.has_child name db.namespace_blobs ≡ a
        → Sql.has_child name db.manifests ≡ b
        → Sql.has_child name db.manifest_referrers ≡ c
        → IsValidIfOk (Sql.deleted name db (a || (b || c)))
    go true b c p q r = tt
    go false true c p q r = tt
    go false false true p q r = tt
    go false false false p q r = record {
      namespace_keys = remove-IsKeyed name db.namespace v.namespace_keys;
      blob_keys = v.blob_keys;
      manifest_keys = v.manifest_keys;
      referrer_keys = v.referrer_keys;
      blob_names = IsReferencing-remove db.namespace name db.namespace_blobs p v.blob_names;
      manifest_names = IsReferencing-remove db.namespace name db.manifests q v.manifest_names;
      referrer_names =
          IsReferencing-remove db.namespace name db.manifest_referrers r v.referrer_names;
    }

exists-ne-none : (o : Option Stamps) → Sql.exists o ≡ true → o ≢ none
exists-ne-none none h = λ e. cc
exists-ne-none (some s) h = λ e. cc

-- The tables that stand for one key each, with one more row or with one row changed.
module _ (db : Db) (v : IsValid db) (key : Key) (parent : lookup key.0 db.namespace ≢ none) where
  put_blob-IsValid :
      (b : BlobColumns) → IsValid (record db { namespace_blobs = put key b db.namespace_blobs })
  put_blob-IsValid b = record {
    namespace_keys = v.namespace_keys;
    blob_keys = put-IsKeyed key b db.namespace_blobs v.blob_keys;
    manifest_keys = v.manifest_keys;
    referrer_keys = v.referrer_keys;
    blob_names = put-IsReferencing db.namespace key b db.namespace_blobs parent v.blob_names;
    manifest_names = v.manifest_names;
    referrer_names = v.referrer_names;
  }

  put_manifest-IsValid :
      (m : ManifestColumns) → IsValid (record db { manifests = put key m db.manifests })
  put_manifest-IsValid m = record {
    namespace_keys = v.namespace_keys;
    blob_keys = v.blob_keys;
    manifest_keys = put-IsKeyed key m db.manifests v.manifest_keys;
    referrer_keys = v.referrer_keys;
    blob_names = v.blob_names;
    manifest_names = put-IsReferencing db.namespace key m db.manifests parent v.manifest_names;
    referrer_names = v.referrer_names;
  }

  put_referrer-IsValid :
      (r : ReferrerColumns)
      → IsValid (record db { manifest_referrers = put key r db.manifest_referrers })
  put_referrer-IsValid r = record {
    namespace_keys = v.namespace_keys;
    blob_keys = v.blob_keys;
    manifest_keys = v.manifest_keys;
    referrer_keys = put-IsKeyed key r db.manifest_referrers v.referrer_keys;
    blob_names = v.blob_names;
    manifest_names = v.manifest_names;
    referrer_names =
        put-IsReferencing db.namespace key r db.manifest_referrers parent v.referrer_names;
  }

-- A row that is there has a namespace.
parent_of_row :
    {V : Type 0} (ns : Table String Stamps) (t : Table Key V) (key : Key) {row : V}
    → IsReferencing ns t
    → lookup key t ≡ some row
    → lookup key.0 ns ≢ none
parent_of_row ns t key h found absent = cc (h key.0 key.1 absent)

-- The foreign key of a new row is tested.
referenced-IsValid :
    (name : String) (db db' : Db)
    → (lookup name db.namespace ≢ none → IsValid db')
    → IsValidIfOk (Sql.referenced name db db')
referenced-IsValid name db db' k = go _ refl
  where
    go :
        (b : Bool)
        → Sql.exists (lookup name db.namespace) ≡ b
        → IsValidIfOk (if b then ok db' else fail (sys SysError.external))
    go true p = k (exists-ne-none _ p)
    go false p = tt

resurrect_row-IsValid :
    (key : Key) (db : Db) (row : Option BlobColumns)
    → lookup key db.namespace_blobs ≡ row
    → IsValid db
    → IsValid (Sql.resurrect_row key db row)
resurrect_row-IsValid key db none p v = v
resurrect_row-IsValid key db (some b) p v =
    put_blob-IsValid db v key (parent_of_row db.namespace db.namespace_blobs key v.blob_names p)
      (Sql.resurrected b)

pub resurrect_namespace_blob-IsValid :
    (key : Key) (db : Db) → IsValid db → IsValid (Sql.resurrect_namespace_blob key db)
unfolding Sql.resurrect_namespace_blob
resurrect_namespace_blob-IsValid key db = resurrect_row-IsValid key db _ refl

add_blob-IsValid :
    (now : ℕ) (key : Key) (size : ℕ) (db : Db) (row : Option BlobColumns)
    → IsValid db
    → IsValidIfOk (Sql.add_blob now key size db row)
add_blob-IsValid now key size db (some b) v = v
add_blob-IsValid now key size db none v =
    referenced-IsValid key.0 db _ λ parent. put_blob-IsValid db v key parent (Sql.new_blob now size)

pub insert_namespace_blob-IsValid :
    (now : ℕ) (key : Key) (size : ℕ) (db : Db)
    → IsValid db
    → IsValidIfOk (Sql.insert_namespace_blob now key size db)
unfolding Sql.insert_namespace_blob
insert_namespace_blob-IsValid now key size db = add_blob-IsValid now key size db _

add_manifest-IsValid :
    (now : ℕ) (key : Key) (media_type : String) (size : ℕ) (db : Db) (row : Option ManifestColumns)
    → IsValid db
    → IsValidIfOk (Sql.add_manifest now key media_type size db row)
add_manifest-IsValid now key media_type size db (some m) v = v
add_manifest-IsValid now key media_type size db none v =
    referenced-IsValid key.0 db _
      λ parent. put_manifest-IsValid db v key parent (Sql.new_manifest now media_type size)

pub insert_manifest-IsValid :
    (now : ℕ) (key : Key) (media_type : String) (size : ℕ) (db : Db)
    → IsValid db
    → IsValidIfOk (Sql.insert_manifest now key media_type size db)
unfolding Sql.insert_manifest
insert_manifest-IsValid now key media_type size db =
    add_manifest-IsValid now key media_type size db _

mark_deleted-IsValid :
    (now : ℕ) (key : Key) (db : Db) (row : Option ManifestColumns)
    → lookup key db.manifests ≡ row
    → IsValid db
    → IsValid (Sql.mark_deleted now key db row).0
mark_deleted-IsValid now key db none p v = v
mark_deleted-IsValid now key db (some m) p v =
    let parent = parent_of_row db.namespace db.manifests key v.manifest_names p in
    go m.lifecycle parent
  where
    go :
        (l : Lifecycle) → lookup key.0 db.namespace ≢ none → IsValid (Sql.mark_row now key db m l).0
    go active parent = put_manifest-IsValid db v key parent _
    go pending_deletion parent = v

pub delete_manifest_by_digest-IsValid :
    (now : ℕ) (key : Key) (db : Db)
    → IsValid db
    → IsValid (Sql.delete_manifest_by_digest now key db).0
unfolding Sql.delete_manifest_by_digest
delete_manifest_by_digest-IsValid now key db = mark_deleted-IsValid now key db _ refl

pub upsert_referrer-IsValid :
    (now : ℕ) (ns : String) (row : ReferrerRow) (db : Db)
    → IsValid db
    → IsValidIfOk (Sql.upsert_referrer now ns row db)
unfolding Sql.upsert_referrer
upsert_referrer-IsValid now ns row db v =
    referenced-IsValid ns db _ λ parent. put_referrer-IsValid db v (ns, row.digest) parent _

pub delete_referrer-IsValid :
    (ns : String) (d : Digest) (db : Db) → IsValid db → IsValid (Sql.delete_referrer ns d db)
unfolding Sql.delete_referrer
delete_referrer-IsValid ns d db v = record {
  namespace_keys = v.namespace_keys;
  blob_keys = v.blob_keys;
  manifest_keys = v.manifest_keys;
  referrer_keys = remove-IsKeyed (ns, d) db.manifest_referrers v.referrer_keys;
  blob_names = v.blob_names;
  manifest_names = v.manifest_names;
  referrer_names = remove-IsReferencing db.namespace (ns, d) db.manifest_referrers v.referrer_names;
}
