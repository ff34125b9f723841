-- ===== src/Tests/Fixture.antt =====
-- A concrete environment and concrete worlds for the tests.
use omnistash.Base.{
  ℕ, zero, suc, ◌⊎◌, inl, inr, refl, ap, ◌≢◌, ◌∙◌, sym, false, String, none, some, [], ◌∷◌, ◌≡◌,
  arith,
}
use omnistash.Base.{◌==◌, string_eq, if◌then◌else◌}
use omnistash.Metastore.Tables.{Digest, Db, empty_db, pending_deletion}
use omnistash.Env.{Env, IsLawful, Verdict, valid, unsupported, malformed}
use omnistash.Blobstore.Files.{Files, Bytes}
use omnistash.Base.Table.{lookup}
use omnistash.Base.{pair_eq}
use omnistash.Blobstore.Files.{inode}
use omnistash.Blobstore.Contents.{IsSound}
use omnistash.Blobstore.Put.{IsFree}
use omnistash.World.{World}

abbrev pub one_digest : Digest
one_digest = "sha256:0a"

abbrev pub two_digest : Digest
two_digest = "sha256:0b"

abbrev pub weak_digest : Digest
weak_digest = "crc:0c"

abbrev judge : Digest → Verdict
judge d =
    if d == one_digest
    then valid
    else if d == two_digest
    then valid
    else if d == weak_digest
    then unsupported
    else malformed

abbrev digest_of : Bytes → Digest
digest_of [] = two_digest
digest_of (b ∷ []) = two_digest
digest_of (b ∷ c ∷ bs) = one_digest

abbrev nth_uuid : ℕ → String
nth_uuid zero = "u0"
nth_uuid (suc n) = "u1"

abbrev pub env : Env
env = record {
  validate = judge;
  algorithm = λ d. "sha256";
  hex = λ d. if d == one_digest then "0a" else "0b";
  available = λ a. a == "sha256";
  new_digest = λ a b. digest_of b;
  from_bytes = digest_of;
  uuid = nth_uuid;
  unmarshal = λ b. none;
  decode_namespace = λ b broken. none;
}

valid_cases : (d : Digest) → judge d ≡ valid → (d ≡ one_digest) ⊎ (d ≡ two_digest)
valid_cases d v = elim (string_eq.dec d one_digest) [
  | yes e ↦ inl e
  | no n ↦ elim (string_eq.dec d two_digest) [ yes e ↦ inr e | no m ↦ absurd (ground arith) ]
]

differ : (s t : String) → (s == t) ≡ false → s ≢ t
differ s t e h = ground arith

hex_one : env.hex one_digest ≡ "0a"
unfolding string_eq
hex_one = refl

hex_two : env.hex two_digest ≡ "0b"
unfolding string_eq
hex_two = refl

hexes_differ : ◌≢◌ {A = String} "0a" "0b"
unfolding string_eq
hexes_differ = differ "0a" "0b" refl

same_hex :
    (d e : Digest)
    → (d ≡ one_digest) ⊎ (d ≡ two_digest)
    → (e ≡ one_digest) ⊎ (e ≡ two_digest)
    → env.hex d ≡ env.hex e
    → d ≡ e
same_hex d e (inl p) (inl q) h = p ∙ sym q
same_hex d e (inr p) (inr q) h = p ∙ sym q
same_hex d e (inl p) (inr q) h =
    absurd (hexes_differ (sym hex_one ∙ ap env.hex (sym p) ∙ h ∙ ap env.hex q ∙ hex_two))
same_hex d e (inr p) (inl q) h =
    absurd (hexes_differ (sym hex_one ∙ ap env.hex (sym q) ∙ sym h ∙ ap env.hex p ∙ hex_two))

pub env-IsLawful : IsLawful env
unfolding string_eq
env-IsLawful = record {
  valid_available = λ d v. refl;
  valid_unique = λ d e v w a h. same_hex d e (valid_cases d v) (valid_cases e w) h;
  valid_visible = λ d v. differ "sha256" ".staging" refl;
}

-- A database with one namespace, in which a blob and a manifest are marked for deletion.
abbrev pub one_db : Db
one_db = record {
  namespace = ("app", record { created_at = 1; updated_at = 1 }) ∷ [];
  namespace_blobs =
      (
        ("app", one_digest),
        record { size = 3; lifecycle = pending_deletion; created_at = 1; deleted_at = some 2 },
      )
      ∷ [];
  manifests =
      (
        ("app", two_digest),
        record {
          media_type = "m";
          size = 4;
          lifecycle = pending_deletion;
          created_at = 1;
          deleted_at = some 2;
        },
      )
      ∷ [];
  manifest_referrers = [];
}

-- An upload of three bytes, and a committed blob of one byte.
abbrev pub two_files : Files
two_files = record {
  names = (("app", (".staging", "s1")), 0) ∷ (("app", ("sha256", "0b")), 1) ∷ [];
  contents = (0, 1 ∷ 2 ∷ 3 ∷ []) ∷ (1, 5 ∷ []) ∷ [];
  made = 2;
}

abbrev pub world : World
world = record {
  db = one_db;
  files = two_files;
  faults = [];
  drawn = 0;
  now = 5;
  jobs = some 0;
  made = 1;
}

-- The same world before any blob was registered.
abbrev pub unregistered : World
unregistered = record world { db = record one_db { namespace_blobs = [] } }

-- A world without rows, in which the second call of the engine fails.
abbrev pub fresh : World
fresh = record world { db = empty_db; faults = none ∷ some 0 ∷ [] }

pub files-IsSound : IsSound two_files
unfolding inode lookup
files-IsSound = record { below = λ p i h. ground arith }

pub free : IsFree env "app" world
unfolding inode lookup string_eq pair_eq
free = refl

pub app_exists : lookup "app" one_db.namespace ≢ none
unfolding lookup string_eq
app_exists h = cc
