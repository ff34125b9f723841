-- ===== src/Rest/Status.antt =====
-- `errToStatusCode` of rest/errors.go.
use omnistash.Base.{ℕ, ◌≤◌, ◌<◌, ◌≡◌, ◌↔◌, String, Bool, false, ◌||◌, arith}
use omnistash.Base.{if◌then◌else◌, List, [], ◌∷◌}
use omnistash.Errors.{Error, Sentinel, is, oci, local, OciError, LocalError}

-- An HTTP status and an OCI error code.
abbrev pub Reply : Type 0
Reply = ℕ × String

-- A row of the switch.
abbrev pub Case : Type 0
Case = Sentinel × Reply

-- The cases of the switch, in their order.
abbrev pub cases : List Case
cases =
    (oci OciError.name_exists, (409, "NAME_EXISTS"))
    ∷ (oci OciError.name_invalid, (400, "NAME_INVALID"))
    ∷ (oci OciError.name_unknown, (404, "NAME_UNKNOWN"))
    ∷ (oci OciError.digest_invalid, (400, "DIGEST_INVALID"))
    ∷ (oci OciError.size_invalid, (400, "SIZE_INVALID"))
    ∷ (oci OciError.unsupported, (400, "UNSUPPORTED"))
    ∷ (oci OciError.blob_unknown, (404, "BLOB_UNKNOWN"))
    ∷ (oci OciError.blob_upload_unknown, (404, "BLOB_UPLOAD_UNKNOWN"))
    ∷ (oci OciError.range_not_satisfiable, (416, "BLOB_UPLOAD_INVALID"))
    ∷ (local LocalError.range_header_invalid, (400, "BLOB_UPLOAD_INVALID"))
    ∷ (local LocalError.content_range_header_invalid, (400, "BLOB_UPLOAD_INVALID"))
    ∷ (oci OciError.manifest_unknown, (404, "MANIFEST_UNKNOWN"))
    ∷ (oci OciError.manifest_invalid, (400, "MANIFEST_INVALID"))
    ∷ (oci OciError.manifest_blob_unknown, (400, "MANIFEST_BLOB_UNKNOWN"))
    ∷ []

-- The first case that `errors.Is` finds, or the default.
unfoldable pub switch : List Case → Error → Reply
switch [] e = (500, "INTERNAL_ERROR")
switch ((s, r) ∷ cs) e = let rest = switch cs e in if is e s then r else rest

-- `errToStatusCode`
unfoldable pub err_to_status_code : Error → Reply
err_to_status_code e = switch cases e

-- The error has one of the sentinels of the switch in its tree.
abbrev any_case : List Case → Error → Bool
any_case [] e = false
any_case ((s, r) ∷ cs) e = is e s || any_case cs e

pub is_known : Error → Bool
is_known e = any_case cases e

abbrev ClientErrors : List Case → Type 0
ClientErrors [] = Unit
ClientErrors ((s, (status, code)) ∷ cs) = (400 ≤ status) × (status < 500) × ClientErrors cs

switch_status :
    (cs : List Case) (e : Error)
    → ClientErrors cs
    → (400 ≤ (switch cs e).0)
      × ((switch cs e).0 ≤ 500)
      × (((switch cs e).0 ≡ 500) ↔ (any_case cs e ≡ false))
unfolding switch
switch_status [] e h = ground arith
switch_status ((s, r) ∷ cs) e h = ground (arith, switch_status cs e)

-- The status is an error status of at most 500, and it is 500 exactly for an error that has no
-- sentinel of the API in its tree.
pub err_to_status_code_status :
    (e : Error)
    → (400 ≤ (err_to_status_code e).0)
      × ((err_to_status_code e).0 ≤ 500)
      × (((err_to_status_code e).0 ≡ 500) ↔ (is_known e ≡ false))
unfolding err_to_status_code is_known
err_to_status_code_status e = switch_status cases e (omega arith)
