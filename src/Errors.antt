-- ===== src/Errors.antt =====
-- The sentinel errors of internal/ocierror/errors.go, internal/blobstore/contract.go,
-- internal/metastore/contract.go, internal/blob/service.go, internal/blobstore/fs/vacuum.go,
-- migration/sqlite.go, rest/errors.go and internal/metastore/metastoretest/atomic.go, and the tree
-- of wrapped and joined errors seen through `errors.Is`.
--
-- An error value is the list of the sentinels in its tree. `fmt.Errorf` with `%w` adds text alone,
-- which no code reads, so it is the identity; `errors.Join` is concatenation.
use omnistash.Base.{ℕ, ◌≡◌, refl, Bool, false, ◌||◌, List, [], ◌∷◌, ◌++◌}
use omnistash.Base.{eqb, arith}

-- internal/ocierror/errors.go
pub data OciError : Type 0 where
  name_invalid name_exists name_unknown digest_invalid blob_unknown : OciError
  blob_upload_unknown size_invalid range_not_satisfiable unsupported : OciError
  manifest_unknown manifest_invalid manifest_blob_unknown : OciError

-- internal/blobstore/contract.go
pub data StoreError : Type 0 where
  blob_unknown invalid_digest digest_mismatch size_invalid blob_committed : StoreError
  invalid_range range_not_satisfiable partial_deletion : StoreError
  blob_upload_unknown blob_upload_invalid : StoreError

-- internal/metastore/contract.go
pub data MetaError : Type 0 where
  metastore_close name_exists name_unknown blob_unknown : MetaError

-- The errors of rest/errors.go, of the vacuum, of `MountBlob`, of migration/sqlite.go, and
-- `errAtomicTest`. `panicked` is a panic that runs up the stack, and `server_closed` is
-- `http.ErrServerClosed`.
pub data LocalError : Type 0 where
  range_header_invalid content_range_header_invalid : LocalError
  vacuum_not_started path_escapes_root mount_failed missing_tables atomic_test : LocalError
  panicked server_closed : LocalError

-- Errors of the operating system, of the database engine and of the client's body. `external` is
-- any that the code does not test for.
pub data SysError : Type 0 where
  external not_exist exist no_rows : SysError

pub data Sentinel : Type 0 where
  oci : OciError → Sentinel
  store : StoreError → Sentinel
  meta : MetaError → Sentinel
  local : LocalError → Sentinel
  sys : SysError → Sentinel

abbrev oci_tag : OciError → ℕ
oci_tag OciError.name_invalid = 0
oci_tag OciError.name_exists = 1
oci_tag OciError.name_unknown = 2
oci_tag OciError.digest_invalid = 3
oci_tag OciError.blob_unknown = 4
oci_tag OciError.blob_upload_unknown = 5
oci_tag OciError.size_invalid = 6
oci_tag OciError.range_not_satisfiable = 7
oci_tag OciError.unsupported = 8
oci_tag OciError.manifest_unknown = 9
oci_tag OciError.manifest_invalid = 10
oci_tag OciError.manifest_blob_unknown = 11

abbrev store_tag : StoreError → ℕ
store_tag StoreError.blob_unknown = 20
store_tag StoreError.invalid_digest = 21
store_tag StoreError.digest_mismatch = 22
store_tag StoreError.size_invalid = 23
store_tag StoreError.blob_committed = 24
store_tag StoreError.invalid_range = 25
store_tag StoreError.range_not_satisfiable = 26
store_tag StoreError.partial_deletion = 27
store_tag StoreError.blob_upload_unknown = 28
store_tag StoreError.blob_upload_invalid = 29

abbrev meta_tag : MetaError → ℕ
meta_tag MetaError.metastore_close = 40
meta_tag MetaError.name_exists = 41
meta_tag MetaError.name_unknown = 42
meta_tag MetaError.blob_unknown = 43

abbrev local_tag : LocalError → ℕ
local_tag LocalError.range_header_invalid = 60
local_tag LocalError.content_range_header_invalid = 61
local_tag LocalError.vacuum_not_started = 62
local_tag LocalError.path_escapes_root = 63
local_tag LocalError.mount_failed = 64
local_tag LocalError.missing_tables = 65
local_tag LocalError.atomic_test = 66
local_tag LocalError.panicked = 67
local_tag LocalError.server_closed = 68

abbrev sys_tag : SysError → ℕ
sys_tag SysError.external = 80
sys_tag SysError.not_exist = 81
sys_tag SysError.exist = 82
sys_tag SysError.no_rows = 83

-- Two sentinels are one pointer exactly if they have one tag.
abbrev pub tag : Sentinel → ℕ
tag (oci e) = oci_tag e
tag (store e) = store_tag e
tag (meta e) = meta_tag e
tag (local e) = local_tag e
tag (sys e) = sys_tag e

abbrev pub Error : Type 0
Error = List Sentinel

-- `errors.Is`
abbrev pub is : Error → Sentinel → Bool
is [] target = false
is (x ∷ xs) target = eqb (tag x) (tag target) || is xs target

or_regroup : (p q r s : Bool) → s ≡ (q || r) → (p || s) ≡ ((p || q) || r)
or_regroup p q r s h = ground arith

pub is-append : (a b : Error) (t : Sentinel) → is (a ++ b) t ≡ (is a t || is b t)
is-append [] b t = refl
is-append (x ∷ a) b t = or_regroup (eqb (tag x) (tag t)) (is a t) (is b t) _ (is-append a b t)

-- A Go function's `(value, error)`.
pub data Result {ℓ} (A : Type ℓ) : Type ℓ where
  ok : A → Result A
  err : Error → Result A

-- `return …, fmt.Errorf("…: %w", ErrX)` for one sentinel.
abbrev pub fail {ℓ} : {A : Type ℓ} → Sentinel → Result A
fail e = err (e ∷ [])
