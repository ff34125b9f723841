-- ===== src/Migration.antt =====
-- migration/sqlite.go. A database is seen as the list of the objects in its `sqlite_master`; what is
-- in the tables is the matter of Metastore.Tables, and the indexes that the engine makes for a key
-- are left out.
pub mod Applied
pub mod Created
pub mod Open
use omnistash.Base.{
  ℕ, zero, suc, String, ◌≡◌, refl, ◌==◌, ==_refl, string_eq, Bool, true, false, ◌||◌, ◌&&◌, Option,
  none, some, List, [], ◌∷◌, ◌++◌, if◌then◌else◌, arith, ◌↔◌, ◌+◌, leb, eqb,
}
use omnistash.Name.{codes}
use omnistash.Errors.{Result, ok, err, fail, local, sys, LocalError, SysError}
use omnistash.World.{World, Proc, pure, lift, attempt, draw, trip, calm, next, answer, ◌>>=◌, ◌>>◌}

pub data Kind : Type 0 where
  table view index : Kind

pub record Object : Type 0 where
  pub kind : Kind
  pub name : String

-- SQLite compares the names of objects without regard to the case of ASCII letters.
abbrev pub lower : ℕ → ℕ
lower c = if leb b'A' c && leb c b'Z' then c + 32 else c

abbrev pub same_letters : List ℕ → List ℕ → Bool
same_letters [] [] = true
same_letters [] (d ∷ ds) = false
same_letters (c ∷ cs) [] = false
same_letters (c ∷ cs) (d ∷ ds) = eqb (lower c) (lower d) && same_letters cs ds

unfoldable pub same_name : String → String → Bool
same_name s t = same_letters (codes s) (codes t)

abbrev pub is_index : Kind → Bool
is_index Kind.table = false
is_index Kind.view = false
is_index Kind.index = true

-- A table or a view has the name, in any case of its letters.
abbrev pub has_relation : String → List Object → Bool
has_relation t [] = false
has_relation t (o ∷ db) =
    let rest = has_relation t db in if is_index o.kind then rest else same_name t o.name || rest

abbrev pub has_index : String → List Object → Bool
has_index t [] = false
has_index t (o ∷ db) =
    let rest = has_index t db in if is_index o.kind then same_name t o.name || rest else rest

-- The names of the tables, as `sqlite_master` has them.
unfoldable pub tables_of : List Object → List String
tables_of [] = []
tables_of (o ∷ db) =
    let rest = tables_of db in elim o.kind [ table ↦ o.name ∷ rest | view ↦ rest | index ↦ rest ]

-- `existing[table]`, by the exact name
abbrev pub exists_in : List String → String → Bool
exists_in [] name = false
exists_in (t ∷ ts) name = (name == t) || exists_in ts name

abbrev pub required_tables : List String
required_tables =
    "namespace" ∷ "namespace_blobs" ∷ "manifests" ∷ "manifest_tags" ∷ "manifest_referrers" ∷ []

-- The tables of `schema`, in the order of its statements.
abbrev pub schema_tables : List String
schema_tables =
    "namespace" ∷ "namespace_blobs" ∷ "manifests" ∷ "manifest_tags" ∷ "manifest_referrers" ∷ []

abbrev pub new_table : String → Object
new_table t = record { kind = Kind.table; name = t }

-- `CREATE TABLE IF NOT EXISTS`: a table or a view of the name is left as it is, and an index of the
-- name is an error.
abbrev pub create_table : String → List Object → Option (List Object)
create_table t db =
    if has_relation t db
    then some db
    else if has_index t db
    then none
    else some (db ++ (new_table t ∷ []))

abbrev pub on_created :
    Option (List Object)
    → List Object
    → (List Object → Result (Unit {0}) × List Object)
    → Result (Unit {0}) × List Object
on_created none db next = (fail (sys SysError.external), db)
on_created (some new) db next = next new

-- The statements run one by one: an error leaves the tables of those before it.
unfoldable pub create_tables : List String → List Object → Result (Unit {0}) × List Object
create_tables [] db = (ok tt, db)
create_tables (t ∷ ts) db = on_created (create_table t db) db (create_tables ts)

abbrev pub first_tables : ℕ → List String → List String
first_tables zero ts = []
first_tables (suc n) [] = []
first_tables (suc n) (t ∷ ts) = t ∷ first_tables n ts

abbrev pub broken_off : Result (Unit {0}) × List Object → Result (Unit {0}) × List Object
broken_off (ok done, db) = (fail (sys SysError.external), db)
broken_off (err e, db) = (err e, db)

-- The engine may fail after some of the statements.
abbrev pub exec_schema : List Object → Option ℕ → Result (Unit {0}) × List Object
exec_schema db none = create_tables schema_tables db
exec_schema db (some n) = broken_off (create_tables (first_tables n schema_tables) db)

abbrev pub if_opened : List Object → Result (Unit {0}) → Proc (Result (Unit {0}) × List Object)
if_opened db (err e) = pure (err e, db)
if_opened db (ok done) = do answered ← draw; pure (exec_schema db answered)

-- `ApplySQLiteMigrations`: what it returns, and the objects afterwards. A failed close is dropped.
unfoldable pub apply_sqlite_migrations : List Object → Proc (Result (Unit {0}) × List Object)
unfolding create_tables
apply_sqlite_migrations db = do opened ← attempt trip; if_opened db opened

-- `rows.Scan` of each row
abbrev pub scan_tables : List String → Proc (Unit {0})
scan_tables [] = pure tt
scan_tables (t ∷ ts) = do trip; scan_tables ts

-- The loop over the required tables: those that do not exist.
abbrev pub missing_of : List String → List String → List String
missing_of tables [] = []
missing_of tables (t ∷ ts) =
    let rest = missing_of tables ts in if exists_in tables t then rest else t ∷ rest

abbrev pub unless_missing : List String → Result (Unit {0})
unless_missing [] = ok tt
unless_missing (t ∷ ts) = fail (local LocalError.missing_tables)

-- `CheckSQLiteSetup`: the calls are the open, the query, the scans and `rows.Err`.
unfoldable pub check_sqlite_setup : List Object → Proc (Unit {0})
unfolding tables_of
check_sqlite_setup db = do
  trip
  trip
  scan_tables (tables_of db)
  trip
  lift (unless_missing (missing_of (tables_of db) required_tables))

-- Every table of the list is there.
abbrev pub AllThere : List String → List String → Type 0
AllThere tables [] = Unit
AllThere tables (t ∷ ts) = (exists_in tables t ≡ true) × AllThere tables ts

scan_calm : (ts : List String) (w : World) → scan_tables ts (calm w) ≡ (ok tt, calm w)
unfolding ◌>>=◌
scan_calm [] w = refl
scan_calm (t ∷ ts) w = scan_calm ts w

check_calm :
    (db : List Object) (w : World)
    → check_sqlite_setup db (calm w)
      ≡ (unless_missing (missing_of (tables_of db) required_tables), calm w)
unfolding check_sqlite_setup ◌>>=◌
check_calm db w = rw (scan_calm (tables_of db) w) refl

missing-none : (tables ts : List String) → AllThere tables ts → missing_of tables ts ≡ []
missing-none tables [] h = refl
missing-none tables (t ∷ ts) h = rw (h.0, missing-none tables ts h.1) refl

none-missing :
    (tables ts : List String) → unless_missing (missing_of tables ts) ≡ ok tt → AllThere tables ts
none-missing tables [] h = tt
none-missing tables (t ∷ ts) h = go (none-missing tables ts) (exists_in tables t) refl h
  where
    go :
        (unless_missing (missing_of tables ts) ≡ ok tt → AllThere tables ts)
        → (b : Bool) → exists_in tables t ≡ b
        → unless_missing (if b then missing_of tables ts else t ∷ missing_of tables ts) ≡ ok tt
        → AllThere tables (t ∷ ts)
    go rest true e k = (e, rest k)
    go rest false e k = cc

-- While the engine answers, `CheckSQLiteSetup` returns nil exactly if each required table exists.
pub check_sqlite_setup_iff :
    (db : List Object) (w : World)
    → ((check_sqlite_setup db (calm w)).0 ≡ ok tt) ↔ AllThere (tables_of db) required_tables
check_sqlite_setup_iff db w =
    let tables = tables_of db in
    rw (check_calm db w)
      (none-missing tables required_tables, λ h. rw (missing-none tables required_tables h) refl)
