-- ===== src/Rest/RangedGets.antt =====
-- A GET with a range, through `handleGetBlob`, the blob service and the blob store.
use omnistash.Base.{
  ℕ, ◌+◌, ◌-◌, ◌≡◌, ◌≢◌, refl, String, ◌==◌, string_eq, false, none, some, length, take, drop, ltb,
  [], ◌∷◌, ◌++◌, if◌then◌else◌, arith,
}
use omnistash.Base.{Bool-cases, inl, inr, ◌≤◌}
use omnistash.Base.Int.{pos}
use omnistash.Base.Table.{lookup}
use omnistash.Errors.{Result, ok, fail, oci, OciError}
use omnistash.Metastore.Tables.{Digest}
use omnistash.Metastore.Sql
use omnistash.Env.{Env, valid}
use omnistash.Name.{codes, validate_name}
use omnistash.Blobstore.Files.{Bytes, content}
use omnistash.Blobstore.Os.{build_blob_path}
use omnistash.Blobstore.Ranges.{get_blob_range_lem}
use omnistash.Blob.Service
use omnistash.Blob.Registered.{validate_calm, size_calm}
use omnistash.Rest.Ranges.{parse_range_header}
use omnistash.Rest.Decimal.{format_nat}
use omnistash.Rest.Parsed.{parse_headers_bounds}
use omnistash.Rest.Http.{Request, Response, Payload, header_value}
use omnistash.Rest.Blobs.{handle_get_blob, serve_range_blob}
use omnistash.World.{World, calm, ◌>>=◌}

-- The slice and its place in the whole, or the size alone for a range that does not end within it.
abbrev pub range_answer : Digest → ℕ → ℕ → Bytes → Response
range_answer d first last b =
    let total = format_nat (length b) in
    if ltb last (length b)
    then (record {
      status = 206;
      headers =
          ("Content-Type", codes "application/octet-stream")
          ∷ (
            "Content-Range",
            codes "bytes "
                ++ (format_nat first ++ (codes "-" ++ (format_nat last ++ (codes "/" ++ total)))),
          )
          ∷ ("Content-Length", format_nat (last - first + 1))
          ∷ ("Docker-Content-Digest", codes d)
          ∷ [];
      payload = Payload.stream (ok (take (last - first + 1) (drop first b)));
    })
    else (record {
      status = 416;
      headers = ("Content-Range", codes "bytes */" ++ total) ∷ [];
      payload = Payload.no_body;
    })

abbrev ranged : ℕ → ℕ → Bytes → Result (Result Bytes)
ranged first last b =
    if ltb last (length b)
    then ok (ok (take (last - first + 1) (drop first b)))
    else fail (oci OciError.range_not_satisfiable)

module _ (env : Env) (name : String) (d : Digest) (first last : ℕ) (b : Bytes) (w : World)
    (n : validate_name name ≡ ok tt) (v : env.validate d ≡ valid)
    (e : lookup name w.db.namespace ≢ none)
    (size : Sql.get_namespace_blob_size (name, d) w.db ≡ some (length b))
    (there : content (build_blob_path env name d) w.files ≡ some b) where
  range_calm :
      first ≤ last
      → Service.get_blob_range env name d (pos first) (pos last) (calm w)
        ≡ (ok (ranged first last b, length b), calm w)
  unfolding Service.get_blob_range ◌>>=◌
  range_calm order =
      rw (validate_calm env name d w n v e, size_calm env name d w (length b) size)
        (elim (Bool-cases (ltb last (length b))) [
          | inl within ↦
              rw (within, get_blob_range_lem env name d w first last, v, there) (ground arith)
          | inr beyond ↦ rw beyond refl
        ])

  -- While engine and operating system answer, a GET with a `Range` header that is read as first to
  -- last, of a blob that is registered with its size and stored in a namespace that exists, is
  -- answered by 206 with the bytes first to last and the size of the whole if last lies within the
  -- blob, and by 416 with the size if not.
  pub handle_get_blob-range :
      (r : Request)
      → header_value r "Range" ≢ ""
      → parse_range_header (codes (header_value r "Range")) ≡ ok (first, last)
      → (handle_get_blob env name d r (calm w)).0 ≡ ok (range_answer d first last b)
  unfolding handle_get_blob serve_range_blob ◌>>=◌
  handle_get_blob-range r asked read =
      let order = (parse_headers_bounds (codes (header_value r "Range")) first last (inl read)).0 in
      let given : (header_value r "Range" == "") ≡ false = ground (arith, asked) in
      rw (given, read, range_calm order)
        (elim (Bool-cases (ltb last (length b))) [
          | inl within ↦ rw within refl
          | inr beyond ↦ rw beyond refl
        ])
