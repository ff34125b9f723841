-- ===== src/Rest/Replies.antt =====
-- The replies of `errToStatusCode` of rest/errors.go, by the sentinels in the tree of an error.
use omnistash.Base.{
  ◌≡◌, refl, ◌⊎◌, inl, inr, true, false, Option, none, some, List, [], ◌∷◌, arith, Bool-cases,
}
use omnistash.Errors.{Error, Sentinel, is, oci, store, meta, local, sys, OciError, LocalError}
use omnistash.Rest.Status.{Reply, Case, cases, switch, err_to_status_code}

-- The reply to each error that the API names, and `none` for any other sentinel.
abbrev pub oci_reply : OciError → Reply
oci_reply OciError.name_invalid = (400, "NAME_INVALID")
oci_reply OciError.name_exists = (409, "NAME_EXISTS")
oci_reply OciError.name_unknown = (404, "NAME_UNKNOWN")
oci_reply OciError.digest_invalid = (400, "DIGEST_INVALID")
oci_reply OciError.blob_unknown = (404, "BLOB_UNKNOWN")
oci_reply OciError.blob_upload_unknown = (404, "BLOB_UPLOAD_UNKNOWN")
oci_reply OciError.size_invalid = (400, "SIZE_INVALID")
oci_reply OciError.range_not_satisfiable = (416, "BLOB_UPLOAD_INVALID")
oci_reply OciError.unsupported = (400, "UNSUPPORTED")
oci_reply OciError.manifest_unknown = (404, "MANIFEST_UNKNOWN")
oci_reply OciError.manifest_invalid = (400, "MANIFEST_INVALID")
oci_reply OciError.manifest_blob_unknown = (400, "MANIFEST_BLOB_UNKNOWN")

abbrev pub local_reply : LocalError → Option Reply
local_reply LocalError.range_header_invalid = some (400, "BLOB_UPLOAD_INVALID")
local_reply LocalError.content_range_header_invalid = some (400, "BLOB_UPLOAD_INVALID")
local_reply LocalError.vacuum_not_started = none
local_reply LocalError.path_escapes_root = none
local_reply LocalError.mount_failed = none
local_reply LocalError.missing_tables = none
local_reply LocalError.atomic_test = none
local_reply LocalError.panicked = none
local_reply LocalError.server_closed = none

abbrev pub api_reply : Sentinel → Option Reply
api_reply (oci e) = some (oci_reply e)
api_reply (store e) = none
api_reply (meta e) = none
api_reply (local e) = local_reply e
api_reply (sys e) = none

-- No error that the API names is in the tree.
abbrev pub IsUnnamed : Error → Type 0
IsUnnamed [] = Unit
IsUnnamed (s ∷ e) = (api_reply s ≡ none) × IsUnnamed e

abbrev AllReplies : List Case → Type 0
AllReplies [] = Unit
AllReplies ((s, r) ∷ cs) = (api_reply s ≡ some r) × AllReplies cs

abbrev AllAbsent : List Case → Error → Type 0
AllAbsent [] e = Unit
AllAbsent ((s, r) ∷ cs) e = (is e s ≡ false) × AllAbsent cs e

-- The reply is that of an error in the tree.
abbrev pub IsReplyOf : Error → Reply → Type 0
IsReplyOf e r = (s : Sentinel) × (is e s ≡ true) × (api_reply s ≡ some r)

switch_cases :
    (cs : List Case) (e : Error)
    → AllReplies cs
    → (AllAbsent cs e × (switch cs e ≡ (500, "INTERNAL_ERROR"))) ⊎ IsReplyOf e (switch cs e)
unfolding switch
switch_cases [] e h = inl (tt, refl)
switch_cases ((s, r) ∷ cs) e h = elim (Bool-cases (is e s)) [
  | inl found ↦ inr (s, found, rw found h.0)
  | inr missing ↦ elim (switch_cases cs e h.1) [
    | inl (all, default) ↦ inl ((missing, all), rw missing default)
    | inr (t, there, reply) ↦ inr (t, there, rw missing reply)
  ]
]

cases-AllReplies : AllReplies cases
cases-AllReplies = (
  refl,
  (
    refl,
    (
      refl,
      (refl, (refl, (refl, (refl, (refl, (refl, (refl, (refl, (refl, (refl, (refl, tt))))))))))),
    ),
  ),
)

-- What is absent from a tree is absent from the rest of it.
absent_rest : (cs : List Case) (t : Sentinel) (e : Error) → AllAbsent cs (t ∷ e) → AllAbsent cs e
absent_rest [] t e h = tt
absent_rest ((s, r) ∷ cs) t e h = (ground arith, absent_rest cs t e h.1)

-- The switch has every error of the API.
oci_present : (x : OciError) (e : Error) → AllAbsent cases (oci x ∷ e) → ⊥
oci_present OciError.name_invalid e h = ground arith
oci_present OciError.name_exists e h = ground arith
oci_present OciError.name_unknown e h = ground arith
oci_present OciError.digest_invalid e h = ground arith
oci_present OciError.blob_unknown e h = ground arith
oci_present OciError.blob_upload_unknown e h = ground arith
oci_present OciError.size_invalid e h = ground arith
oci_present OciError.range_not_satisfiable e h = ground arith
oci_present OciError.unsupported e h = ground arith
oci_present OciError.manifest_unknown e h = ground arith
oci_present OciError.manifest_invalid e h = ground arith
oci_present OciError.manifest_blob_unknown e h = ground arith

local_unnamed : (x : LocalError) (e : Error) → AllAbsent cases (local x ∷ e) → local_reply x ≡ none
local_unnamed LocalError.range_header_invalid e h = ground arith
local_unnamed LocalError.content_range_header_invalid e h = ground arith
local_unnamed LocalError.vacuum_not_started e h = refl
local_unnamed LocalError.path_escapes_root e h = refl
local_unnamed LocalError.mount_failed e h = refl
local_unnamed LocalError.missing_tables e h = refl
local_unnamed LocalError.atomic_test e h = refl
local_unnamed LocalError.panicked e h = refl
local_unnamed LocalError.server_closed e h = refl

front_unnamed : (t : Sentinel) (e : Error) → AllAbsent cases (t ∷ e) → api_reply t ≡ none
front_unnamed (store x) e h = refl
front_unnamed (meta x) e h = refl
front_unnamed (sys x) e h = refl
front_unnamed (oci x) e h = absurd (oci_present x e h)
front_unnamed (local x) e h = local_unnamed x e h

all-IsUnnamed : (e : Error) → AllAbsent cases e → IsUnnamed e
all-IsUnnamed [] h = tt
all-IsUnnamed (t ∷ e) h = (front_unnamed t e h, all-IsUnnamed e (absent_rest cases t e h))

-- The reply of errToStatusCode is that of an error that the API names and that is in the tree; only if
-- there is none, it is 500 with INTERNAL_ERROR.
pub err_to_status_code_reply :
    (e : Error)
    → (IsUnnamed e × (err_to_status_code e ≡ (500, "INTERNAL_ERROR")))
      ⊎ IsReplyOf e (err_to_status_code e)
unfolding err_to_status_code
err_to_status_code_reply e = elim (switch_cases cases e cases-AllReplies) [
  | inl (absent, default) ↦ inl (all-IsUnnamed e absent, default)
  | inr found ↦ inr found
]
