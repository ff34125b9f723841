-- ===== src/Rest/Referred.antt =====
-- The referrers of a subject through the handlers of rest/manifest.go and rest/referrers.go.
use omnistash.Base.{
  ℕ, ◌≤◌, ◌≡◌, ◌≢◌, refl, String, List, ==_refl, string_eq, pair_eq, true, false, Option, none,
  some, ◌∷◌, length, ◌⊎◌,
}
use mathlib.Core.List.Memᴰ.{Memᴰ}
use omnistash.Base.Table.{lookup, lookup-put}
use omnistash.Errors.{ok}
use omnistash.Metastore.Tables.{Digest, Db, Key, ReferrerRow}
use omnistash.Metastore.Sql
use omnistash.Metastore.Sql.{referrer_columns, first_created}
use omnistash.Metastore.Tx
use omnistash.Metastore.Tx.{stored, undated}
use omnistash.Metastore.Store.{atomic}
use omnistash.Metastore.Atomic.{atomic-calm_ok}
use omnistash.Env.{Env, IsLawful, Manifest, valid}
use omnistash.Name.{codes, validate_name}
use omnistash.Blobstore.Files.{Bytes, inode}
use omnistash.Blobstore.Os.{build_blob_path}
use omnistash.Blobstore.Contents.{IsSound}
use omnistash.Blobstore.Put.{IsFree}
use omnistash.Manifests.{
  parse_manifest_body, has, named_subject, derive_referrer, derive_referrer_artifact_type,
}
use omnistash.Referrers
use omnistash.Referrers.{Descriptor, ListResult, descriptors, list_result}
use omnistash.Referrers.Members.{listed}
use omnistash.Rest.Http.{Request, Response, Payload, header_value, query_value}
use omnistash.Rest.ManifestRoutes.{
  handle_put_manifest, handle_get_referrers, max_manifest_size, filter_header,
}
use omnistash.Rest.Pushes.{namespace_calm, name_there, stored_world, put_world, with_referrer}
use omnistash.Rest.PushedManifests.{handled}
use omnistash.World.{World, calm, ◌>>=◌}

-- The answer with an index.
abbrev pub indexed : ListResult → Response
indexed result = record {
  status = 200;
  headers =
      ("Content-Type", codes "application/vnd.oci.image.index.v1+json")
      ∷ filter_header result.filter_applied;
  payload = Payload.index_json result.manifests;
}

module _ (ns : String) (s : Digest) (w : World) where
  abbrev pub rows_of : List ReferrerRow
  rows_of = undated (Sql.list_referrers ns s w.db)

  rows_calm : atomic (Tx.list_referrers ns s) (calm w) ≡ (ok rows_of, calm w)
  unfolding Tx.list_referrers ◌>>=◌
  rows_calm = atomic-calm_ok _ w w rows_of refl

  -- The listing while the engine answers.
  pub referrers_calm :
      (env : Env) (g : Request)
      → validate_name ns ≡ ok tt
      → env.validate s ≡ valid
      → lookup ns w.db.namespace ≢ none
      → handle_get_referrers env ns s g (calm w)
        ≡ (ok (indexed (list_result (query_value g "artifactType") (descriptors rows_of))), calm w)
  unfolding handle_get_referrers Referrers.list_referrers ◌>>=◌
  referrers_calm env g n v e = rw (v, n, namespace_calm ns w e, rows_calm) refl

-- The row of a referrer that was pushed.
row_there :
    (now : ℕ) (ns : String) (ref : Option ReferrerRow) (row : ReferrerRow) (db : Db)
    → ref ≡ some row
    → lookup (ns, row.digest) (with_referrer now ns ref db).manifest_referrers
      ≡ some (
          referrer_columns
            (first_created now (lookup (ns, row.digest) db.manifest_referrers))
            (record row { annotations = stored row.annotations }))
row_there now ns ref row db e = rw e (rw (lookup-put, ==_refl {A = Key} (ns, row.digest)) refl)

-- The descriptor of a manifest among the referrers of its subject.
abbrev pub refers_as : Manifest → Digest → ℕ → Descriptor
refers_as m d size = record {
  media_type = m.media_type;
  digest = d;
  size = size;
  artifact_type = derive_referrer_artifact_type m;
  annotations = stored m.annotations;
}

module _ (env : Env) (L : IsLawful env) (ns : String) (d : Digest) (content_type : String)
    (b : Bytes) (m : Manifest) (w : World) (free : IsFree env ns w) (n : validate_name ns ≡ ok tt)
    (colon : has b':' (codes d) ≡ true) (v : env.validate d ≡ valid) (named : env.from_bytes b ≡ d)
    (same : d ≡ env.new_digest (env.algorithm d) b) (e : lookup ns w.db.namespace ≢ none)
    (parses : parse_manifest_body env content_type b ≡ ok m)
    (new : inode (build_blob_path env ns d) w.files ≡ none)
    (unlisted : lookup (ns, d) w.db.manifests ≡ none) (sound : IsSound w.files) (p g : Request)
    (typed : header_value p "Content-Type" ≡ content_type)
    (body : p.body ≡ record { bytes = b; broken = false }) (small : length b ≤ max_manifest_size)
    (s : Digest) (subject : named_subject m.subject ≡ some s) (v' : env.validate s ≡ valid)
    (passes : (query_value g "artifactType" ≡ "")
      ⊎ (query_value g "artifactType" ≡ derive_referrer_artifact_type m)) where
  abbrev after : World
  after = stored_world env L ns d content_type b m w free n colon v named same e parses new unlisted

  abbrev answer : ListResult
  answer = list_result (query_value g "artifactType") (descriptors (rows_of ns s after))

  exists_after : lookup ns after.db.namespace ≢ none
  exists_after =
      name_there ns d
        (put_world env L ns d content_type b m w free n colon v named same e parses new unlisted) e
        m.media_type (length b) (derive_referrer m d (length b))

  abbrev row : ReferrerRow
  row = record {
    subject_digest = s;
    digest = d;
    media_type = m.media_type;
    artifact_type = derive_referrer_artifact_type m;
    size = length b;
    annotations = m.annotations;
  }

  derived : derive_referrer m d (length b) ≡ some row
  unfolding derive_referrer
  derived = rw subject refl

  there :
      lookup (ns, d) after.db.manifest_referrers
      ≡ some (
          referrer_columns
            (first_created w.now (lookup (ns, d) w.db.manifest_referrers))
            (record row { annotations = stored row.annotations }))
  there = row_there w.now ns (derive_referrer m d (length b)) row _ derived

  is_listed : Memᴰ (refers_as m d (length b)) answer.manifests
  is_listed = listed ns d _ (query_value g "artifactType") after.db there passes

  -- While engine and operating system answer, from sound files with a free staging path, after a PUT
  -- of a manifest of at most 4 MiB that parses, under its digest, which has a colon and which neither
  -- the store nor the table has yet, into a namespace that exists, a GET of the referrers of its
  -- subject, which has a valid digest, without a filter or with the artifact type of the manifest, is
  -- answered by 200 with an index that has the descriptor of the manifest: its media type, digest,
  -- size, artifact type and annotations.
  pub handle_get_referrers-put_manifest :
      (r : ListResult) × ((handle_get_referrers env ns s g
          (handle_put_manifest env ns d p (calm w)).1).0
        ≡ ok (indexed r))
      × Memᴰ (refers_as m d (length b)) r.manifests
  handle_get_referrers-put_manifest = (
    answer,
    rw
        (
          handled env L ns d content_type b m w free n colon v named same e parses new unlisted
              sound p g typed body small,
          referrers_calm ns s after env g n v' exists_after,
        )
        refl,
    is_listed,
  )
