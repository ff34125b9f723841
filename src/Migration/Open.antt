-- ===== src/Migration/Open.antt =====
-- When the statements of `schema` of migration/sqlite.go succeed on a database.
use mathlib.Core.Path.{subst}
use omnistash.Base.{
  String, ◌≡◌, refl, sym, true, false, Option, none, some, List, [], ◌∷◌, ◌++◌, arith, ◌↔◌, ◌⊎◌,
  inl, inr, Bool-cases,
}
use omnistash.Errors.{ok}
use omnistash.Migration.{
  Object, has_relation, has_index, new_table, create_table, on_created, create_tables,
}
use omnistash.Migration.Created.{Apart, AllApart, Creates, create_cases, relation-append}

-- No name of the list is that of an index alone.
abbrev pub IsOpen : List Object → List String → Type 0
IsOpen db [] = Unit
IsOpen db (t ∷ ts) = ((has_relation t db ≡ true) ⊎ (has_index t db ≡ false)) × IsOpen db ts

index-append :
    (u t : String) (db : List Object) → has_index u (db ++ (new_table t ∷ [])) ≡ has_index u db
index-append u t [] = refl
index-append u t (o ∷ db) = ground (arith, index-append u t db)

-- A statement does not open or close the names of others.
IsOpen-others :
    (t : String) (ts : List String) (db new : List Object)
    → Creates t db new
    → Apart t ts
    → IsOpen new ts ↔ IsOpen db ts
IsOpen-others t [] db new c a = (λ h. tt, λ h. tt)
IsOpen-others t (u ∷ us) db new (inl (r, e)) a =
    subst (λ d. IsOpen d (u ∷ us) ↔ IsOpen db (u ∷ us)) (sym e) (λ h. h, λ h. h)
IsOpen-others t (u ∷ us) db new (inr (r, e)) a =
    let rest = IsOpen-others t us db new (inr (r, e)) a.1 in
    (λ h. (one.0 h.0, rest.0 h.1), λ h. (one.1 h.0, rest.1 h.1))
  where
    one :
        ((has_relation u new ≡ true) ⊎ (has_index u new ≡ false))
        ↔ ((has_relation u db ≡ true) ⊎ (has_index u db ≡ false))
    one = rw (e, relation-append u t db, index-append u t db, a.0) (ground arith)

opens_one :
    (t : String) (db : List Object)
    → ((has_relation t db ≡ true) ⊎ (has_index t db ≡ false))
      ↔ ((new : List Object) × (create_table t db ≡ some new))
opens_one t db = (
  λ h. elim (Bool-cases (has_relation t db)) [
    | inl r ↦ (db, ground arith)
    | inr r ↦ (db ++ (new_table t ∷ []), ground arith)
  ],
  λ h. ground (arith, h.1),
)

-- All statements succeed exactly if no index alone has one of their names.
pub create_tables-IsOpen :
    (ts : List String) (db : List Object)
    → AllApart ts
    → ((create_tables ts db).0 ≡ ok tt) ↔ IsOpen db ts
unfolding create_tables
create_tables-IsOpen [] db a = (λ h. tt, λ h. refl)
create_tables-IsOpen (t ∷ ts) db a = (
  to (λ new. create_tables-IsOpen ts new a.1) (create_table t db) refl,
  λ h.
      let (new, made) = (opens_one t db).0 h.0 in
      rw made (
        (create_tables-IsOpen ts new a.1).1
          ((IsOpen-others t ts db new (create_cases t db new made) a.0).1 h.1)),
)
  where
    to :
        ((new : List Object) → ((create_tables ts new).0 ≡ ok tt) ↔ IsOpen new ts)
        → (o : Option (List Object)) → create_table t db ≡ o
        → (on_created o db (create_tables ts)).0 ≡ ok tt
        → IsOpen db (t ∷ ts)
    to later none e h = cc
    to later (some new) e h = (
      (opens_one t db).1 (new, e),
      (IsOpen-others t ts db new (create_cases t db new e) a.0).0 ((later new).0 h),
    )
