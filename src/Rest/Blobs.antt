-- ===== src/Rest/Blobs.antt =====
-- rest/blob.go: reading blobs.
use omnistash.Base.{ℕ, ◌+◌, ◌-◌, String, ◌==◌, string_eq, if◌then◌else◌, ◌++◌, [], ◌∷◌}
use omnistash.Base.Int.{pos}
use omnistash.Errors.{Error, Result, ok, err, is, oci, OciError}
use omnistash.Metastore.Tables.{Digest}
use omnistash.Env.{Env}
use omnistash.Blobstore.Files.{Bytes}
use omnistash.Name.{codes}
use omnistash.Blob.Service
use omnistash.Rest.Paths.{Text}
use omnistash.Rest.Decimal.{format_nat}
use omnistash.Rest.Ranges.{parse_range_header}
use omnistash.Rest.Http.{
  Request, Response, Payload, header_value, registry_err_to_http, or_http, or_no_body,
}
use omnistash.World.{Proc, pure, attempt, quietly, trip, ◌>>=◌, ◌>>◌}

-- `handleHeadBlob`
unfoldable pub handle_head_blob : Env → String → String → Proc Response
handle_head_blob env name d = or_no_body (Service.stat_blob env name d) λ size. pure (record {
  status = 200;
  headers =
      ("Docker-Content-Digest", codes d)
      ∷ ("Content-Length", format_nat size)
      ∷ ("Accept-Ranges", codes "bytes")
      ∷ [];
  payload = Payload.no_body;
})

abbrev pub full_blob : Digest → Bytes → ℕ → Response
full_blob d bytes size = record {
  status = 200;
  headers =
      ("Content-Type", codes "application/octet-stream")
      ∷ ("Content-Length", format_nat size)
      ∷ ("Docker-Content-Digest", codes d)
      ∷ ("Accept-Ranges", codes "bytes")
      ∷ [];
  payload = Payload.stream (ok bytes);
}

-- `serveFullBlob`; the close of the reader is only logged.
unfoldable pub serve_full_blob : Env → String → Digest → Proc Response
serve_full_blob env name d =
    or_http (Service.get_blob env name d) λ got. do quietly trip; pure (full_blob d got.0 got.1)

-- `bytes first-last/total`
abbrev pub content_range : ℕ → ℕ → ℕ → Text
content_range first last total =
    codes "bytes " ++ (format_nat first ++ (b'-' ∷ (format_nat last ++ (b'/' ∷ format_nat total))))

abbrev pub not_satisfiable : ℕ → Response
not_satisfiable total = record {
  status = 416;
  headers = ("Content-Range", codes "bytes */" ++ format_nat total) ∷ [];
  payload = Payload.no_body;
}

abbrev pub partial_content : Digest → ℕ → ℕ → ℕ → Result Bytes → Response
partial_content d first last total piped = record {
  status = 206;
  headers =
      ("Content-Type", codes "application/octet-stream")
      ∷ ("Content-Range", content_range first last total)
      ∷ ("Content-Length", format_nat (last - first + 1))
      ∷ ("Docker-Content-Digest", codes d)
      ∷ [];
  payload = Payload.stream piped;
}

-- What is made of an error of `GetBlobRange`. The total size is 0 where the error has none.
abbrev pub range_error : Error → ℕ → Proc Response
range_error e total =
    if is e (oci OciError.range_not_satisfiable)
    then pure (not_satisfiable total)
    else registry_err_to_http e

abbrev pub serve_piped : Digest → ℕ → ℕ → ℕ → Result (Result Bytes) → Proc Response
serve_piped d first last total (err e) = range_error e total
serve_piped d first last total (ok piped) = do
  quietly trip
  pure (partial_content d first last total piped)

abbrev pub serve_ranged : Digest → ℕ → ℕ → Result (Result (Result Bytes) × ℕ) → Proc Response
serve_ranged d first last (err e) = range_error e 0
serve_ranged d first last (ok (piped, total)) = serve_piped d first last total piped

-- `serveRangeBlob`. The range comes from `parseRangeHeader`, so it does not end before it begins.
unfoldable pub serve_range_blob : Env → String → Digest → ℕ → ℕ → Proc Response
serve_range_blob env name d first last = do
  r ← attempt (Service.get_blob_range env name d (pos first) (pos last))
  serve_ranged d first last r

abbrev pub serve_blob : Env → String → Digest → Result (ℕ × ℕ) → Proc Response
serve_blob env name d (ok (first, last)) = serve_range_blob env name d first last
serve_blob env name d (err e) = serve_full_blob env name d

-- `handleGetBlob`: a `Range` header that cannot be read is ignored.
unfoldable pub handle_get_blob : Env → String → String → Request → Proc Response
handle_get_blob env name d r =
    let range = header_value r "Range" in
    if range == ""
    then serve_full_blob env name d
    else serve_blob env name d (parse_range_header (codes range))

-- `blobURL`
abbrev pub blob_url : String → String → Text
blob_url name d = codes "/v2/" ++ (codes name ++ (codes "/blobs/" ++ codes d))
