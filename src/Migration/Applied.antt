-- ===== src/Migration/Applied.antt =====
-- What `ApplySQLiteMigrations` of migration/sqlite.go makes of a database, and whether
-- `CheckSQLiteSetup` accepts it.
use omnistash.Base.{
  String, ◌≡◌, refl, sym, ◌∙◌, true, false, ◌||◌, not, Option, none, some, List, [], ◌∷◌, ◌++◌,
  arith, ◌↔◌, ◌⊎◌, ℕ, ap,
}
use mathlib.Core.List.{append-nil}
use omnistash.Errors.{Result, ok, err}
use omnistash.Migration.{
  Object, same_name, has_relation, tables_of, exists_in, create_tables, exec_schema, broken_off,
  first_tables, if_opened, apply_sqlite_migrations, check_sqlite_setup, AllThere,
  check_sqlite_setup_iff, schema_tables, required_tables,
}
use omnistash.Migration.Created.{AllApart, AllCreated, all_created, only_added}
use omnistash.Migration.Open.{IsOpen, create_tables-IsOpen}
use omnistash.World.{World, calm, next, answer, ◌>>=◌}

schema-AllApart : AllApart schema_tables
unfolding same_name
schema-AllApart = (
  (refl, (refl, (refl, (refl, tt)))),
  ((refl, (refl, (refl, tt))), ((refl, (refl, tt)), ((refl, tt), (tt, tt)))),
)

-- Each name is free, or that of a table: no view has it, and no table has it in other letters.
abbrev pub IsReady : List Object → List String → Type 0
IsReady db [] = Unit
IsReady db (t ∷ ts) =
    ((has_relation t db ≡ false) ⊎ (exists_in (tables_of db) t ≡ true)) × IsReady db ts

IsReady-iff :
    (ts : List String) (db after : List Object)
    → AllCreated db after ts
    → AllThere (tables_of after) ts ↔ IsReady db ts
IsReady-iff [] db after h = (λ a. tt, λ a. tt)
IsReady-iff (t ∷ ts) db after h =
    let rest = IsReady-iff ts db after h.1 in
    let now = h.0 in
    (λ a. (one_iff.0 (sym now ∙ a.0), rest.0 a.1), λ a. (now ∙ one_iff.1 a.0, rest.1 a.1))
  where
    one_iff :
        ((exists_in (tables_of db) t || not (has_relation t db)) ≡ true)
        ↔ ((has_relation t db ≡ false) ⊎ (exists_in (tables_of db) t ≡ true))
    one_iff = ground arith

-- Every object is still there, and only objects were added.
abbrev pub IsGrown : List Object → List Object → Type 0
IsGrown db after = (added : List Object) × (after ≡ db ++ added)

abbrev pub IsChecked : List Object → World → List Object → Type 0
IsChecked db v after = ((check_sqlite_setup after (calm v)).0 ≡ ok tt) ↔ IsReady db required_tables

-- What `ApplySQLiteMigrations` gives for a database: the objects are only more, and `CheckSQLiteSetup`
-- is decided where nil is returned.
abbrev pub IsMigrated : List Object → World → Result (Result (Unit {0}) × List Object) → Type 0
IsMigrated db v (ok (ok done, after)) = IsGrown db after × IsChecked db v after
IsMigrated db v (ok (err e, after)) = IsGrown db after
IsMigrated db v (err e) = ⊥

module _ (db : List Object) (v : World) where
  all_there :
      (after : List Object) → create_tables schema_tables db ≡ (ok tt, after) → IsChecked db v after
  all_there after h =
      let checked = check_sqlite_setup_iff after v in
      let ready =
        IsReady-iff required_tables db after
          (all_created schema_tables db after schema-AllApart h) in
      (λ c. ready.0 (checked.0 c), λ r. checked.1 (ready.1 r))

  created :
      (r : Result (Unit {0}) × List Object)
      → create_tables schema_tables db ≡ r
      → IsGrown db r.1
      → IsMigrated db v (ok r)
  created (ok done, after) h grown = (grown, all_there after h)
  created (err e, after) h grown = grown

  stopped :
      (r : Result (Unit {0}) × List Object) → IsGrown db r.1 → IsMigrated db v (ok (broken_off r))
  stopped (ok done, after) grown = grown
  stopped (err e, after) grown = grown

  executed : (answered : Option ℕ) → IsMigrated db v (ok (exec_schema db answered))
  executed none = created (create_tables schema_tables db) refl (only_added schema_tables db)
  executed (some n) =
      let ts = first_tables n schema_tables in stopped (create_tables ts db) (only_added ts db)

  opened : (r : Result (Unit {0})) (w : World) → IsMigrated db v (if_opened db r w).0
  unfolding ◌>>=◌
  opened (err e) w = ([], sym (append-nil db))
  opened (ok done) w = executed (next w.faults)

  succeeds :
      (r : Result (Unit {0}) × List Object)
      → ((after : List Object) × (◌≡◌ {A = Result (Result (Unit {0}) × List Object)}
            (ok r)
            (ok (ok tt, after))))
        ↔ (r.0 ≡ ok tt)
  succeeds r =
      (λ h. let k : r ≡ (ok tt, h.0) = cc in ap (λ x. x.0) k, λ h. (r.1, ap (λ x. ok (x, r.1)) h))

-- Whatever fails, ApplySQLiteMigrations leaves every object of a database there, and only adds
-- objects. While the engine answers, it returns nil exactly if no required name is that of an index
-- and of no table or view, in any case of its letters. Where it returns nil, CheckSQLiteSetup, while
-- the engine answers, then returns nil exactly if before the migration each required name either was
-- that of a table or belonged to no table or view in any case of its letters.
pub check-apply_iff :
    (db : List Object) (w v : World)
    → IsMigrated db v (apply_sqlite_migrations db w).0
      × (((after : List Object) × ((apply_sqlite_migrations db (calm w)).0 ≡ ok (ok tt, after)))
          ↔ IsOpen db required_tables)
unfolding apply_sqlite_migrations ◌>>=◌
check-apply_iff db w v =
    let done = create_tables-IsOpen schema_tables db schema-AllApart in
    let calmly = succeeds db v (create_tables schema_tables db) in
    (opened db v (answer (next w.faults)) _, (λ h. done.0 (calmly.0 h), λ h. calmly.1 (done.1 h)))
