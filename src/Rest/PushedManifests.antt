-- ===== src/Rest/PushedManifests.antt =====
-- A manifest through the handlers of rest/manifest.go.
use omnistash.Base.{
  ◌≤◌, ◌≡◌, ◌≢◌, refl, String, ◌<>◌, string_eq, pair_eq, true, false, Option, none, ◌∷◌, [], length,
  ltb, arith,
}
use omnistash.Base.Table.{lookup}
use omnistash.Errors.{ok}
use omnistash.Metastore.Tables.{Digest}
use omnistash.Env.{Env, IsLawful, Manifest, valid}
use omnistash.Name.{codes, validate_name}
use omnistash.Blobstore.Files.{Bytes, inode}
use omnistash.Blobstore.Os.{build_blob_path}
use omnistash.Blobstore.Contents.{IsSound}
use omnistash.Blobstore.Put.{IsFree}
use omnistash.Manifests.{parse_manifest_body, has, named_subject}
use omnistash.Rest.Decimal.{format_nat}
use omnistash.Rest.Http.{Request, Response, Payload, header_value}
use omnistash.Rest.ManifestRoutes.{
  handle_put_manifest, handle_get_manifest, max_manifest_size, subject_header,
}
use omnistash.Rest.Pushes.{put_calm, get_calm, stored_world}
use omnistash.World.{World, calm, ◌>>=◌}

-- The answer to a manifest that was stored.
abbrev pub accepted : String → Digest → Option Digest → Response
accepted ns d subject = record {
  status = 201;
  headers =
      ("Location", codes ("/v2/" <> (ns <> ("/manifests/" <> d))))
      ∷ ("Docker-Content-Digest", codes d)
      ∷ subject_header subject;
  payload = Payload.no_body;
}

-- The answer with the bytes of a manifest.
abbrev pub manifest_delivered : Digest → String → Bytes → Response
manifest_delivered d media_type b = record {
  status = 200;
  headers =
      ("Content-Type", codes media_type)
      ∷ ("Content-Length", format_nat (length b))
      ∷ ("Docker-Content-Digest", codes d)
      ∷ [];
  payload = Payload.stream (ok b);
}

module _ (env : Env) (L : IsLawful env) (ns : String) (d : Digest) (content_type : String)
    (b : Bytes) (m : Manifest) (w : World) (free : IsFree env ns w) (n : validate_name ns ≡ ok tt)
    (colon : has b':' (codes d) ≡ true) (v : env.validate d ≡ valid) (named : env.from_bytes b ≡ d)
    (same : d ≡ env.new_digest (env.algorithm d) b) (e : lookup ns w.db.namespace ≢ none)
    (parses : parse_manifest_body env content_type b ≡ ok m)
    (new : inode (build_blob_path env ns d) w.files ≡ none)
    (unlisted : lookup (ns, d) w.db.manifests ≡ none) (sound : IsSound w.files) (p g : Request)
    (typed : header_value p "Content-Type" ≡ content_type)
    (body : p.body ≡ record { bytes = b; broken = false })
    (small : length b ≤ max_manifest_size) where
  pub handled : handle_put_manifest env ns d p (calm w) ≡ (
    ok (accepted ns d (named_subject m.subject)),
    calm (
        stored_world env L ns d content_type b m w free n colon v named same e parses new unlisted),
  )
  unfolding handle_put_manifest ◌>>=◌
  handled =
      let fits : ltb max_manifest_size (length b) ≡ false = ground (arith, small) in
      rw
        (
          typed,
          body,
          fits,
          fits,
          put_calm env L ns d content_type b m w free n colon v named same e parses new unlisted,
        )
        refl

  -- While engine and operating system answer, from sound files with a free staging path, a PUT of a
  -- manifest of at most 4 MiB that parses, under its digest, which has a colon and which neither the
  -- store nor the table has yet, into a namespace that exists, is answered by 201 with its location
  -- and its subject, and a GET of the digest then by 200 with its bytes, their number and the media
  -- type that was parsed.
  pub get_manifest-put_manifest :
      ((handle_put_manifest env ns d p (calm w)).0 ≡ ok (accepted ns d (named_subject m.subject)))
      × ((handle_get_manifest env ns d g (handle_put_manifest env ns d p (calm w)).1).0
          ≡ ok (manifest_delivered d m.media_type b))
  unfolding handle_get_manifest ◌>>=◌
  get_manifest-put_manifest = rw handled (
    refl,
    rw
        (get_calm env L ns d content_type b m w free n colon v named same e parses new unlisted
          sound)
        refl,
  )
