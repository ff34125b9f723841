-- ===== src/Rest/Transfers.antt =====
-- Uploads and downloads through the handlers of rest/blob.go and rest/blob_uploader.go.
use omnistash.Base.{[], ◌∷◌, ◌++◌}
use omnistash.Base.{
  ℕ, ◌≡◌, ◌≢◌, refl, String, ◌==◌, string_eq, pair_eq, false, Option, none, some, length, arith,
}
use omnistash.Base.Table.{lookup}
use omnistash.Errors.{ok}
use omnistash.Metastore.Tables.{Digest}
use omnistash.Metastore.Blobs.{registered_size}
use omnistash.Env.{Env, IsLawful, valid}
use omnistash.Name.{codes, validate_name}
use omnistash.Blobstore.Files.{Bytes, inode, read}
use omnistash.Blobstore.Os.{build_blob_path, build_staging_path}
use omnistash.Blob.Service
use omnistash.Blob.Service.{validate_digest}
use omnistash.Blob.Session.{commit_upload}
use omnistash.Blob.Finals.{final_body, with_final, get_blob-commit_upload_final}
use omnistash.Rest.Http.{Request, Response, Payload, header_value, query_value, or_http}
use omnistash.Rest.Blobs.{serve_full_blob, handle_get_blob}
use omnistash.Rest.Uploads.{handle_put_blob_upload, blob_created, final_chunk}
use omnistash.Rest.Decimal.{format_nat}
use omnistash.World.{World, Proc, pure, calm, ◌>>=◌}

-- The answer to a blob that was committed.
abbrev pub created_at : String → Digest → Response
created_at name d = record {
  status = 201;
  headers =
      ("Location", codes "/v2/" ++ (codes name ++ (codes "/blobs/" ++ codes d)))
      ∷ ("Docker-Content-Digest", codes d)
      ∷ [];
  payload = Payload.no_body;
}

-- The answer with the bytes of a blob.
abbrev pub delivered : Digest → Bytes → ℕ → Response
delivered d bytes size = record {
  status = 200;
  headers =
      ("Content-Type", codes "application/octet-stream")
      ∷ ("Content-Length", format_nat size)
      ∷ ("Docker-Content-Digest", codes d)
      ∷ ("Accept-Ranges", codes "bytes")
      ∷ [];
  payload = Payload.stream (ok bytes);
}

pub or_http-ok :
    {A : Type 0} (m : Proc A) (next : A → Proc Response) (a : A) (w : World)
    → (m w).0 ≡ ok a
    → or_http m next w ≡ next a (m w).1
unfolding ◌>>=◌
or_http-ok m next a w h = rw h refl

module _ (env : Env) (name : String) (d : Digest) (g : Request)
    (whole : header_value g "Range" ≡ "") where
  -- A blob that the service gives is served.
  served :
      (w : World) (b : Bytes) (size : ℕ)
      → (Service.get_blob env name d w).0 ≡ ok (b, size)
      → (handle_get_blob env name d g w).0 ≡ ok (delivered d b size)
  unfolding handle_get_blob serve_full_blob string_eq format_nat ◌>>=◌
  served w b size h = rw (whole, h) refl

module _ (env : Env) (L : IsLawful env) (name id : String) (d : Digest) (i : ℕ) (w : World)
    (n : validate_name name ≡ ok tt) (v : env.validate d ≡ valid)
    (e : lookup name w.db.namespace ≢ none)
    (staged : inode (build_staging_path name id) w.files ≡ some i) (final : Option Bytes)
    (same : d ≡ env.new_digest (env.algorithm d) (with_final final (read i w.files)))
    (new : inode (build_blob_path env name d) w.files ≡ none) (p g : Request)
    (asked : query_value p "digest" ≡ d) (named : d ≢ "") (sent : final_chunk p ≡ final_body final)
    (whole : header_value g "Range" ≡ "") where
  is_named : (d == "") ≡ false
  is_named = ground (arith, named)

  put_calm :
      handle_put_blob_upload env name id p (calm w)
      ≡ (ok (created_at name d), (commit_upload env name id d (final_body final) (calm w)).1)
  unfolding handle_put_blob_upload validate_digest ◌>>=◌
  put_calm =
      let committed =
        get_blob-commit_upload_final env L name id d i w n v e staged new final same in
      rw (n, asked, is_named, v, sent)
        (or_http-ok (commit_upload env name id d (final_body final))
          (λ done. pure (blob_created name d)) tt (calm w) committed.0)

  -- While engine and operating system answer, a PUT that commits an upload, with or without a final
  -- chunk in its body, under a digest that the bytes of the upload and the chunk together have and
  -- that the store does not hold yet, in a namespace that exists, is answered by 201 with the location
  -- of the blob, and a GET of the digest without a range then by 200 with these bytes. The
  -- `Content-Length` of that answer is the registered size, which is their number unless the digest
  -- was registered before.
  pub get-put :
      ((handle_put_blob_upload env name id p (calm w)).0 ≡ ok (created_at name d))
      × ((handle_get_blob env name d g (handle_put_blob_upload env name id p (calm w)).1).0
          ≡ ok (
              delivered d (with_final final (read i w.files)) (
                registered_size
                  (lookup (name, d) w.db.namespace_blobs)
                  (length (with_final final (read i w.files))))))
  get-put =
      let committed =
        get_blob-commit_upload_final env L name id d i w n v e staged new final same in
      rw put_calm (refl, served env name d g whole _ _ _ committed.1)
