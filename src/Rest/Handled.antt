-- ===== src/Rest/Handled.antt =====
-- The answers of each handler of rest/.
use omnistash.Base.{ℕ, ◌≤◌, Option, none, some, String, refl, false, arith}
use omnistash.Base.{inr, ◌==◌, string_eq, ltb, length, List, []}
use omnistash.Base.Int.{ℤ, pos, negsuc}
use omnistash.Errors.{Error, Result, ok, err}
use omnistash.Env.{Env, Verdict, valid, unsupported, malformed}
use omnistash.Name.{codes, validate_name}
use omnistash.Blob.Service.{validate_digest}
use omnistash.Rest.Decimal.{parse_int}
use omnistash.Rest.Ranges.{parse_content_range_header}
use omnistash.Manifests
use omnistash.World.{Proc}
use omnistash.Blobstore.Os.{Body}
use omnistash.Metastore.Tables.{NamespaceRow}
use omnistash.Referrers.{ListResult}
use omnistash.Rest.Http.{
  Request, Response, Health, Message, write_oci_error, header_value, query_value, bare,
}
use omnistash.Rest.Blobs
use omnistash.Rest.Uploads
use omnistash.Rest.ManifestRoutes
use omnistash.Rest.NamespaceRoutes
use omnistash.Rest.Answers.{
  Answers, bare_error, Answers-pure, Answers-attempt, Answers-quietly, Answers-if_marshalled,
  Answers-write_oci_error, Answers-registry_err_to_http, Answers-answer_with, Answers-or_http,
  Answers-or_no_body, Answers-refused, Answers-if, Answers-written,
}

module _ (env : Env) (name : String) where
  pub Answers-handle_head_blob : (d : String) → Answers (Blobs.handle_head_blob env name d)
  unfolding Blobs.handle_head_blob
  Answers-handle_head_blob d =
      Answers-or_no_body _ _ λ size. Answers-written _ (omega arith) (omega arith)

  Answers-serve_full_blob : (d : String) → Answers (Blobs.serve_full_blob env name d)
  unfolding Blobs.serve_full_blob
  Answers-serve_full_blob d =
      Answers-or_http _ _ λ got. Answers-quietly _ _ (Answers-written _ (omega arith) (omega arith))

  Answers-range_error : (e : Error) (total : ℕ) → Answers (Blobs.range_error e total)
  Answers-range_error e total =
      Answers-if _ _ _ (Answers-written _ (omega arith) (omega arith))
        (Answers-registry_err_to_http e)

  Answers-serve_ranged :
      (d : String) (first last : ℕ) (r : Result (Result (Result (List ℕ)) × ℕ))
      → Answers (Blobs.serve_ranged d first last r)
  Answers-serve_ranged d first last (err e) = Answers-range_error e 0
  Answers-serve_ranged d first last (ok (err e, total)) = Answers-range_error e total
  Answers-serve_ranged d first last (ok (ok piped, total)) =
      Answers-quietly _ _ (Answers-written _ (omega arith) (omega arith))

  Answers-serve_blob : (d : String) (r : Result (ℕ × ℕ)) → Answers (Blobs.serve_blob env name d r)
  unfolding Blobs.serve_range_blob
  Answers-serve_blob d (err e) = Answers-serve_full_blob d
  Answers-serve_blob d (ok (first, last)) = Answers-attempt _ _ (Answers-serve_ranged d first last)

  pub Answers-handle_get_blob :
      (d : String) (r : Request) → Answers (Blobs.handle_get_blob env name d r)
  unfolding Blobs.handle_get_blob
  Answers-handle_get_blob d r =
      Answers-if _ _ _ (Answers-serve_full_blob d) (Answers-serve_blob d _)

  Answers-handle_start_upload : Answers (Uploads.handle_start_upload env name)
  unfolding Uploads.handle_start_upload
  Answers-handle_start_upload =
      Answers-or_http _ _ λ id. Answers-written _ (omega arith) (omega arith)

  Answers-upload_sized :
      (d : String) (size : Option ℤ) (body : Body)
      → Answers (Uploads.upload_sized env name d size body)
  Answers-upload_sized d none body = Answers-refused _ _ _ (omega arith) (omega arith)
  Answers-upload_sized d (some (negsuc n)) body = Answers-refused _ _ _ (omega arith) (omega arith)
  Answers-upload_sized d (some (pos n)) body =
      Answers-or_http _ _ λ done. Answers-written _ (omega arith) (omega arith)

  Answers-handle_monolithic_upload :
      (d : String) (r : Request) → Answers (Uploads.handle_monolithic_upload env name d r)
  unfolding Uploads.handle_monolithic_upload
  Answers-handle_monolithic_upload d r =
      Answers-answer_with (validate_name name) _ _ Answers-registry_err_to_http λ named.
        Answers-answer_with (validate_digest env d) _ _ Answers-registry_err_to_http λ valid.
          Answers-upload_sized d (parse_int (codes (header_value r "Content-Length"))) r.body

  Answers-mounted : (d : String) (r : Result (Unit {0})) → Answers (Uploads.mounted env name d r)
  Answers-mounted d (ok done) = Answers-written _ (omega arith) (omega arith)
  Answers-mounted d (err e) =
      Answers-if _ _ _ Answers-handle_start_upload (Answers-registry_err_to_http e)

  Answers-handle_mount_blob :
      (source d : String) → Answers (Uploads.handle_mount_blob env name source d)
  unfolding Uploads.handle_mount_blob
  Answers-handle_mount_blob source d = Answers-attempt _ _ (Answers-mounted d)

  pub Answers-handle_post_blob_uploads :
      (r : Request) → Answers (Uploads.handle_post_blob_uploads env name r)
  unfolding Uploads.handle_post_blob_uploads
  Answers-handle_post_blob_uploads r =
      Answers-if _ _ _ (Answers-refused _ _ _ (omega arith) (omega arith)) (
        Answers-if _ _ _ (Answers-handle_mount_blob _ _)
          (Answers-if _ _ _ (Answers-handle_monolithic_upload _ r) Answers-handle_start_upload))

  pub Answers-handle_get_blob_upload :
      (id : String) (r : Request) → Answers (Uploads.handle_get_blob_upload env name id r)
  unfolding Uploads.handle_get_blob_upload
  Answers-handle_get_blob_upload id r =
      Answers-or_http _ _ λ offset. Answers-written _ (omega arith) (omega arith)

  Answers-append_at :
      (id : String) (body : Body) (offset : ℕ) → Answers (Uploads.append_at name id body offset)
  Answers-append_at id body offset =
      Answers-or_http _ _ λ new. Answers-written _ (omega arith) (omega arith)

  pub Answers-handle_patch_blob_upload :
      (id : String) (r : Request) → Answers (Uploads.handle_patch_blob_upload env name id r)
  unfolding Uploads.handle_patch_blob_upload
  Answers-handle_patch_blob_upload id r =
      let range = header_value r "Content-Range" in
      Answers-answer_with (validate_name name) _ _ Answers-registry_err_to_http λ named.
        Answers-if (range == "") _ _ (Answers-append_at id r.body 0) (
          Answers-answer_with (parse_content_range_header (codes range)) _ _
            Answers-registry_err_to_http λ given. Answers-append_at id r.body given.0)

  Answers-commit_as : (id d : String) (r : Request) → Answers (Uploads.commit_as env name id d r)
  Answers-commit_as id d r =
      Answers-answer_with _ _ _ Answers-registry_err_to_http
        λ valid. Answers-or_http _ _ λ done. Answers-written _ (omega arith) (omega arith)

  pub Answers-handle_put_blob_upload :
      (id : String) (r : Request) → Answers (Uploads.handle_put_blob_upload env name id r)
  unfolding Uploads.handle_put_blob_upload
  Answers-handle_put_blob_upload id r =
      let d = query_value r "digest" in
      Answers-answer_with (validate_name name) _ _ Answers-registry_err_to_http λ named.
        Answers-if (d == "") _ _
          (Answers-refused 400 "DIGEST_INVALID" "digest query parameter required" (omega arith)
            (omega arith))
          (Answers-commit_as id d r)

  pub Answers-handle_delete_blob_upload :
      (id : String) (r : Request) → Answers (Uploads.handle_delete_blob_upload env name id r)
  unfolding Uploads.handle_delete_blob_upload
  Answers-handle_delete_blob_upload id r =
      Answers-or_http _ _ λ done. Answers-written _ (omega arith) (omega arith)

  pub Answers-handle_get_manifest :
      (reference : String) (r : Request)
      → Answers (ManifestRoutes.handle_get_manifest env name reference r)
  unfolding ManifestRoutes.handle_get_manifest
  Answers-handle_get_manifest reference r =
      Answers-or_http _ _ λ got. Answers-quietly _ _ (Answers-written _ (omega arith) (omega arith))

  pub Answers-handle_head_manifest :
      (reference : String) (r : Request)
      → Answers (ManifestRoutes.handle_head_manifest env name reference r)
  unfolding ManifestRoutes.handle_head_manifest
  Answers-handle_head_manifest reference r =
      Answers-or_no_body _ _ λ info. Answers-written _ (omega arith) (omega arith)

  pub Answers-handle_put_manifest :
      (reference : String) (r : Request)
      → Answers (ManifestRoutes.handle_put_manifest env name reference r)
  unfolding ManifestRoutes.handle_put_manifest
  Answers-handle_put_manifest reference r =
      let type_of = header_value r "Content-Type" in
      let limited = ManifestRoutes.read_limited ManifestRoutes.max_manifest_size r.body in
      Answers-answer_with limited _ _ Answers-registry_err_to_http λ bytes.
        Answers-if (ltb ManifestRoutes.max_manifest_size (length bytes)) _ _
          (Answers-written (bare 413) (omega arith) (omega arith))
          (Answers-or_http (Manifests.put_manifest env name reference type_of bytes) _ λ result.
            Answers-written (ManifestRoutes.manifest_created result) (omega arith) (omega arith))

  pub Answers-handle_delete_manifest :
      (reference : String) (r : Request)
      → Answers (ManifestRoutes.handle_delete_manifest env name reference r)
  unfolding ManifestRoutes.handle_delete_manifest
  Answers-handle_delete_manifest reference r =
      Answers-or_http _ _ λ done. Answers-written _ (omega arith) (omega arith)

-- The answer 500 for JSON that cannot be marshalled.
Answers-unmarshalled :
    Answers (write_oci_error 500 "INTERNAL_ERROR" (Message.fixed "internal server error"))
Answers-unmarshalled =
    Answers-write_oci_error 500 "INTERNAL_ERROR" (Message.fixed "internal server error")
      (omega arith) (omega arith) (inr refl)

Answers-write_index : (result : ListResult) → Answers (ManifestRoutes.write_index result)
Answers-write_index result = Answers-attempt _ _ λ m.
    Answers-if_marshalled m _ _ (Answers-written _ (omega arith) (omega arith)) Answers-unmarshalled

Answers-listed : (r : Result ListResult) → Answers (ManifestRoutes.listed r)
Answers-listed (ok result) = Answers-write_index result
Answers-listed (err e) =
    Answers-if _ _ _ (Answers-write_index record { manifests = []; filter_applied = false })
      (Answers-registry_err_to_http e)

Answers-if_parsed :
    (v : Verdict) (m : Proc Response) → Answers m → Answers (ManifestRoutes.if_parsed v m)
Answers-if_parsed valid m h = h
Answers-if_parsed unsupported m h = Answers-registry_err_to_http _
Answers-if_parsed malformed m h = Answers-registry_err_to_http _

pub Answers-handle_get_referrers :
    (env : Env) (name raw : String) (r : Request)
    → Answers (ManifestRoutes.handle_get_referrers env name raw r)
unfolding ManifestRoutes.handle_get_referrers
Answers-handle_get_referrers env name raw r =
    Answers-if_parsed _ _ (Answers-attempt _ _ Answers-listed)

pub Answers-handle_base_check : Answers NamespaceRoutes.handle_base_check
unfolding NamespaceRoutes.handle_base_check
Answers-handle_base_check = Answers-written _ (omega arith) (omega arith)

pub Answers-handle_health : (h : Health) → Answers (NamespaceRoutes.handle_health h)
unfolding NamespaceRoutes.handle_health
Answers-handle_health h = Answers-attempt _ _ λ m.
    Answers-if_marshalled m _ _ (Answers-written _ (omega arith) (omega arith))
      (Answers-pure _ bare_error)

Answers-write_namespace :
    (status : ℕ) (row : NamespaceRow)
    → 200 ≤ status
    → status ≤ 499
    → Answers (NamespaceRoutes.write_namespace status row)
Answers-write_namespace status row h k =
    Answers-attempt _ _
      λ m. Answers-if_marshalled m _ _ (Answers-written _ h k) Answers-unmarshalled

Answers-create_decoded : (name : Option String) → Answers (NamespaceRoutes.create_decoded name)
Answers-create_decoded none = Answers-refused _ _ _ (omega arith) (omega arith)
Answers-create_decoded (some name) =
    Answers-or_http _ _ λ row. Answers-write_namespace _ row (omega arith) (omega arith)

pub Answers-handle_create_namespace :
    (env : Env) (r : Request) → Answers (NamespaceRoutes.handle_create_namespace env r)
unfolding NamespaceRoutes.handle_create_namespace
Answers-handle_create_namespace env r = Answers-create_decoded _

pub Answers-handle_delete_namespace :
    (name : String) → Answers (NamespaceRoutes.handle_delete_namespace name)
unfolding NamespaceRoutes.handle_delete_namespace
Answers-handle_delete_namespace name =
    Answers-or_http _ _ λ row. Answers-write_namespace _ row (omega arith) (omega arith)
