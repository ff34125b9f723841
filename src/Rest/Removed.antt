-- ===== src/Rest/Removed.antt =====
-- A manifest that is deleted through the handlers of rest/manifest.go, and what they and that of
-- rest/referrers.go answer afterwards.
use omnistash.Base.{
  ◌≡◌, ◌≢◌, refl, String, ◌==◌, ==_refl, string_eq, pair_eq, true, false, none, some, ◌∷◌, [],
  if◌then◌else◌,
}
use omnistash.Base.Table.{lookup}
use omnistash.Errors.{ok, fail, oci, OciError}
use omnistash.Metastore.Tables.{Digest, Key, ManifestRow}
use omnistash.Metastore.Sql
use omnistash.Metastore.Tx
use omnistash.Metastore.Tx.{query_row}
use omnistash.Metastore.Store.{atomic}
use omnistash.Metastore.Atomic.{atomic-calm_err}
use omnistash.Metastore.Manifests.{
  without_manifest, delete_both_found, delete_both_missing, get-without_manifest,
  namespace-without_manifest, referrer-without_manifest,
}
use omnistash.Env.{Env, valid}
use omnistash.Name.{codes, validate_name}
use omnistash.Blobstore.Os.{build_blob_path}
use omnistash.Blobstore.Deletes.{delete_lem, deleted_files}
use omnistash.Manifests
use omnistash.Manifests.{has, validate_context}
use omnistash.Referrers.{ListResult, list_result, descriptors}
use omnistash.Referrers.Members.{describes, unlisted}
use omnistash.Rest.Status.{err_to_status_code, switch}
use omnistash.Rest.Http.{
  Request, Response, Payload, Message, bare, query_value, json_headers, registry_err_to_http,
  write_oci_error,
}
use omnistash.Rest.ManifestRoutes.{
  handle_delete_manifest, handle_get_manifest, handle_get_referrers,
}
use omnistash.Rest.Pushes.{namespace_calm, reference_calm}
use omnistash.Rest.Referred.{indexed, rows_of, referrers_calm}
use omnistash.World.{World, calm, ◌>>=◌}

-- The answer that there is no such manifest.
abbrev pub missing : Response
missing = record {
  status = 404;
  headers = json_headers;
  payload =
      Payload.error_json "MANIFEST_UNKNOWN" (Message.of_error (oci OciError.manifest_unknown ∷ []));
}

missing-calm :
    (w : World)
    → registry_err_to_http (oci OciError.manifest_unknown ∷ []) (calm w) ≡ (ok missing, calm w)
unfolding registry_err_to_http write_oci_error err_to_status_code switch ◌>>=◌
missing-calm w = refl

lookup_missing :
    (ns : String) (d : Digest) (w : World)
    → Sql.get_manifest_by_digest (ns, d) w.db ≡ none
    → atomic (Tx.get_manifest_by_digest ns d) (calm w)
      ≡ (fail (oci OciError.manifest_unknown), calm w)
unfolding Tx.get_manifest_by_digest query_row ◌>>=◌
lookup_missing ns d w h = atomic-calm_err _ w w (oci OciError.manifest_unknown ∷ []) (rw h refl)

module _ (env : Env) (ns : String) (d : Digest) (n : validate_name ns ≡ ok tt)
    (colon : has b':' (codes d) ≡ true) (v : env.validate d ≡ valid) where
  context_calm :
      (w : World)
      → lookup ns w.db.namespace ≢ none
      → validate_context env ns d (calm w) ≡ (ok d, calm w)
  unfolding validate_context ◌>>=◌
  context_calm w e = rw (n, reference_calm env d colon v, namespace_calm ns w e) refl

  get_missing :
      (w : World) (g : Request)
      → lookup ns w.db.namespace ≢ none
      → Sql.get_manifest_by_digest (ns, d) w.db ≡ none
      → handle_get_manifest env ns d g (calm w) ≡ (ok missing, calm w)
  unfolding handle_get_manifest Manifests.get_manifest Manifests.resolve_manifest ◌>>=◌
  get_missing w g e h = rw (context_calm w e, lookup_missing ns d w h, missing-calm w) refl

  abbrev removed_world : World → World
  removed_world w = record w {
    db = without_manifest w.now ns d w.db;
    files = deleted_files (build_blob_path env ns d) w.files w.jobs;
  }

  delete_there :
      (w : World) (p : Request) (row : ManifestRow)
      → lookup ns w.db.namespace ≢ none
      → Sql.get_manifest_by_digest (ns, d) w.db ≡ some row
      → handle_delete_manifest env ns d p (calm w) ≡ (ok (bare 202), calm (removed_world w))
  unfolding handle_delete_manifest Manifests.delete_manifest ◌>>=◌
  delete_there w p row e h =
      rw
        (
          context_calm w e,
          delete_both_found w ns d row h,
          delete_lem env ns d (record w { db = without_manifest w.now ns d w.db }) v w.jobs refl _
              refl,
        )
        refl

  delete_absent :
      (w : World) (p : Request)
      → lookup ns w.db.namespace ≢ none
      → Sql.get_manifest_by_digest (ns, d) w.db ≡ none
      → handle_delete_manifest env ns d p (calm w) ≡ (ok missing, calm w)
  unfolding handle_delete_manifest Manifests.delete_manifest ◌>>=◌
  delete_absent w p e h = rw (context_calm w e, delete_both_missing w ns d h, missing-calm w) refl

  module _ (w : World) (p g : Request) (s : Digest) (v' : env.validate s ≡ valid)
      (row : ManifestRow) (e : lookup ns w.db.namespace ≢ none)
      (there : Sql.get_manifest_by_digest (ns, d) w.db ≡ some row) where
    exists_after : lookup ns (removed_world w).db.namespace ≢ none
    exists_after = rw (namespace-without_manifest w.now ns d w.db) e

    gone : Sql.get_manifest_by_digest (ns, d) (removed_world w).db ≡ none
    gone = rw (get-without_manifest, ==_refl {A = Key} (ns, d)) refl

    not_listed : lookup (ns, d) (removed_world w).db.manifest_referrers ≡ none
    not_listed = referrer-without_manifest w.now ns d w.db

    -- While engine and operating system answer, a DELETE of a manifest that a lookup finds, by a valid
    -- digest with a colon, is answered by 202, whether the vacuum runs or not. Afterwards a GET of the
    -- manifest is answered by 404, and so is another DELETE, which changes nothing more; the referrers
    -- of any subject with a valid digest are listed without the manifest; and no lookup of another
    -- manifest changes.
    pub handle_get_manifest-handle_delete_manifest :
        ((handle_delete_manifest env ns d p (calm w)).0 ≡ ok (bare 202))
        × ((handle_get_manifest env ns d g (handle_delete_manifest env ns d p (calm w)).1).0
            ≡ ok missing)
        × ((handle_delete_manifest env ns d p (handle_delete_manifest env ns d p (calm w)).1)
            ≡ (ok missing, (handle_delete_manifest env ns d p (calm w)).1))
        × ((r : ListResult) × ((handle_get_referrers env ns s g
                (handle_delete_manifest env ns d p (calm w)).1).0
              ≡ ok (indexed r))
            × (describes d r.manifests ≡ false))
        × ((j : Key)
            → Sql.get_manifest_by_digest j (handle_delete_manifest env ns d p (calm w)).1.db
              ≡ (if j == (ns, d) then none else Sql.get_manifest_by_digest j w.db))
    handle_get_manifest-handle_delete_manifest = rw (delete_there w p row e there) (
      refl,
      rw (get_missing (removed_world w) g exists_after gone) refl,
      delete_absent (removed_world w) p exists_after gone,
      (
        list_result (query_value g "artifactType") (descriptors (rows_of ns s (removed_world w))),
        rw (referrers_calm ns s (removed_world w) env g n v' exists_after) refl,
        unlisted ns s d (query_value g "artifactType") (removed_world w).db not_listed,
      ),
      λ j. get-without_manifest w.now ns d w.db j,
    )
