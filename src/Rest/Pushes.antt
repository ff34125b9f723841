-- ===== src/Rest/Pushes.antt =====
-- A manifest that is put and got, through the service of internal/manifest and the two stores.
use omnistash.Base.{
  ℕ, ◌+◌, ◌≡◌, ◌≢◌, refl, String, ==_refl, string_eq, pair_eq, true, false, Option, none, some,
  ◌<>◌, length, arith,
}
use omnistash.Base.Int.{pos}
use omnistash.Base.Table.{lookup, put, lookup-put}
use omnistash.Errors.{ok}
use omnistash.Metastore.Tables.{Digest, Key, Db, ReferrerRow, ManifestRow}
use omnistash.Metastore.Sql
use omnistash.Metastore.Tx
use omnistash.Metastore.Tx.{exec, query_row, stored}
use omnistash.Metastore.Store
use omnistash.Metastore.Store.{atomic}
use omnistash.Metastore.Atomic.{atomic-calm_ok}
use omnistash.Env.{Env, IsLawful, Manifest, valid}
use omnistash.Name.{codes, validate_name}
use omnistash.Blobstore.Files.{Bytes, inode, content}
use omnistash.Blobstore.Os.{build_blob_path, build_staging_path}
use omnistash.Blobstore.Contents.{IsSound}
use omnistash.Blobstore.Put.{IsFree, blob_ne_staging}
use omnistash.Blobstore.Storing.{put_ready}
use omnistash.Blobstore.Left.{left_files, content-left_files}
use omnistash.Blobstore.Roundtrips.{get_of_content}
use omnistash.Blobstore.Writer.{put_blob}
use omnistash.Blob.Registered.{outcome_of_match}
use omnistash.Manifests.{
  store_manifest, upsert_if, put_manifest, get_manifest, resolve_manifest, validate_context,
  validate_digest_reference, check_namespace_exists, parse_manifest_body, derive_referrer, has,
  named_subject,
}
use omnistash.World.{World, calm, ◌>>=◌}

abbrev pub with_manifest : ℕ → Key → String → ℕ → Db → Db
with_manifest now key media_type size db = record db {
  manifests = put key (Sql.new_manifest now media_type size) db.manifests;
}

abbrev pub with_referrer : ℕ → String → Option ReferrerRow → Db → Db
with_referrer now ns none db = db
with_referrer now ns (some row) db = record db {
  manifest_referrers =
      put (ns, row.digest)
        (Sql.referrer_columns
          (Sql.first_created now (lookup (ns, row.digest) db.manifest_referrers))
          (record row { annotations = stored row.annotations }))
        db.manifest_referrers;
}

pub reference_calm :
    (env : Env) (d : Digest)
    → has b':' (codes d) ≡ true
    → env.validate d ≡ valid
    → validate_digest_reference env d ≡ ok d
unfolding validate_digest_reference
reference_calm env d colon v = rw (colon, v) refl

pub namespace_calm :
    (ns : String) (w : World)
    → lookup ns w.db.namespace ≢ none
    → check_namespace_exists ns (calm w) ≡ (ok tt, calm w)
unfolding check_namespace_exists Store.namespace_exists Sql.namespace_exists ◌>>=◌
namespace_calm ns w h = ground arith

upsert_calm :
    (ns : String) (w : World) (ref : Option ReferrerRow)
    → lookup ns w.db.namespace ≢ none
    → upsert_if ns ref (calm w) ≡ (ok tt, calm (record w { db = with_referrer w.now ns ref w.db }))
unfolding Tx.upsert_referrer exec Sql.upsert_referrer ◌>>=◌
upsert_calm ns w none e = refl
upsert_calm ns w (some row) e = ground arith

module _ (ns : String) (d : Digest) (w : World) (exists : lookup ns w.db.namespace ≢ none) where
  module _ (media_type : String) (size : ℕ) where
    abbrev pub inserted : World
    inserted = record w { db = with_manifest w.now (ns, d) media_type size w.db }

    abbrev pub pushed : Option ReferrerRow → World
    pushed ref = record w { db = with_referrer w.now ns ref inserted.db }

    insert_calm :
        lookup (ns, d) w.db.manifests ≡ none
        → Tx.insert_manifest ns d media_type size (calm w) ≡ (ok tt, calm inserted)
    unfolding Tx.insert_manifest exec Sql.insert_manifest ◌>>=◌
    insert_calm new = rw new (ground arith)

    store_calm :
        (ref : Option ReferrerRow)
        → lookup (ns, d) w.db.manifests ≡ none
        → store_manifest ns media_type d size ref (calm w) ≡ (ok tt, calm (pushed ref))
    unfolding store_manifest ◌>>=◌
    store_calm ref new =
        atomic-calm_ok _ w (pushed ref) tt
          (rw (insert_calm new) (upsert_calm ns inserted ref exists))

    -- The row that a lookup finds.
    row_there :
        (ref : Option ReferrerRow)
        → Sql.get_manifest_by_digest (ns, d) (pushed ref).db
          ≡ some (record { namespace = ns; digest = d; media_type = media_type; size = size })
    unfolding Sql.get_manifest_by_digest
    row_there none = rw (lookup-put, ==_refl {A = Key} (ns, d)) refl
    row_there (some r) = rw (lookup-put, ==_refl {A = Key} (ns, d)) refl

    pub name_there : (ref : Option ReferrerRow) → lookup ns (pushed ref).db.namespace ≢ none
    name_there none = exists
    name_there (some r) = exists

module _ (env : Env) (L : IsLawful env) (ns : String) (d : Digest) (content_type : String)
    (b : Bytes) (m : Manifest) (w : World) (free : IsFree env ns w) (n : validate_name ns ≡ ok tt)
    (colon : has b':' (codes d) ≡ true) (v : env.validate d ≡ valid) (named : env.from_bytes b ≡ d)
    (same : d ≡ env.new_digest (env.algorithm d) b) (e : lookup ns w.db.namespace ≢ none)
    (parses : parse_manifest_body env content_type b ≡ ok m)
    (new : inode (build_blob_path env ns d) w.files ≡ none)
    (unlisted : lookup (ns, d) w.db.manifests ≡ none) where
  abbrev pub put_world : World
  put_world = record w {
    drawn = w.drawn + 1;
    files =
        left_files (build_staging_path ns (env.uuid w.drawn)) (build_blob_path env ns d) b w.files
          (ok (length b));
  }

  abbrev pub stored_world : World
  stored_world = pushed ns d put_world e m.media_type (length b) (derive_referrer m d (length b))

  blob_calm :
      put_blob env ns d (pos (length b)) (record { bytes = b; broken = false }) (calm w)
      ≡ (ok (length b), calm put_world)
  blob_calm =
      put_ready env L ns d (pos (length b)) b false w free v refl (ok (length b))
        (outcome_of_match env d b same) none new

  pub put_calm : put_manifest env ns d content_type b (calm w) ≡ (
    ok (record {
      digest = d;
      location = "/v2/" <> (ns <> ("/manifests/" <> d));
      subject = named_subject m.subject;
    }),
    calm stored_world,
  )
  unfolding put_manifest ◌>>=◌
  put_calm =
      rw
        (
          n,
          reference_calm env d colon v,
          named,
          ==_refl d,
          namespace_calm ns w e,
          parses,
          blob_calm,
          store_calm ns d put_world e m.media_type (length b) (derive_referrer m d (length b))
              unlisted,
        )
        refl

  abbrev row : ManifestRow
  row = record { namespace = ns; digest = d; media_type = m.media_type; size = length b }

  found_calm :
      atomic (Tx.get_manifest_by_digest ns d) (calm stored_world) ≡ (ok row, calm stored_world)
  unfolding Tx.get_manifest_by_digest query_row ◌>>=◌
  found_calm = atomic-calm_ok _ stored_world stored_world row (
      rw (row_there ns d put_world e m.media_type (length b) (derive_referrer m d (length b))) refl)

  resolve_calm : resolve_manifest env ns d (calm stored_world) ≡ (ok row, calm stored_world)
  unfolding resolve_manifest validate_context ◌>>=◌
  resolve_calm =
      let stays =
        name_there ns d put_world e m.media_type (length b) (derive_referrer m d (length b)) in
      rw (n, reference_calm env d colon v, namespace_calm ns stored_world stays, found_calm) refl

  bytes_there : IsSound w.files → content (build_blob_path env ns d) stored_world.files ≡ some b
  bytes_there sound =
      rw
        (
          content-left_files (build_staging_path ns (env.uuid w.drawn)) (build_blob_path env ns d) b
              w.files (build_blob_path env ns d) (ok (length b)) sound free
              (blob_ne_staging env L ns d _ v),
          ==_refl (build_blob_path env ns d),
        )
        refl

  pub get_calm :
      IsSound w.files
      → (get_manifest env ns d (calm stored_world)).0
        ≡ ok (record { digest = d; media_type = m.media_type; size = length b }, b)
  unfolding get_manifest ◌>>=◌
  get_calm sound =
      rw (resolve_calm, get_of_content env ns d stored_world b v (bytes_there sound)) refl
