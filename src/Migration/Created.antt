-- ===== src/Migration/Created.antt =====
-- What the statements of `schema` of migration/sqlite.go make of the objects of a database.
use omnistash.Base.{
  ℕ, String, ◌≡◌, refl, sym, ap, ◌∙◌, ◌==◌, ==_refl, string_eq, Bool, true, false, ◌||◌, not,
  Option, none, some, List, [], ◌∷◌, ◌++◌, arith, ◌⊎◌, inl, inr,
}
use mathlib.Core.List.{append_assoc, append-nil}
use omnistash.Name.{codes}
use omnistash.Errors.{Result, ok}
use omnistash.Migration.{
  Object, same_letters, same_name, has_relation, tables_of, exists_in, new_table, create_table,
  on_created, create_tables,
}

same_letters_refl : (cs : List ℕ) → same_letters cs cs ≡ true
same_letters_refl [] = refl
same_letters_refl (c ∷ cs) = ground (arith, same_letters_refl cs)

same_name_refl : (t : String) → same_name t t ≡ true
unfolding same_name
same_name_refl t = same_letters_refl (codes t)

differ : (u t : String) → same_name u t ≡ false → (u == t) ≡ false
differ u t h = ground (arith, same_name_refl t)

pub relation-append :
    (u t : String) (db : List Object)
    → has_relation u (db ++ (new_table t ∷ [])) ≡ (has_relation u db || same_name u t)
relation-append u t [] = ground arith
relation-append u t (o ∷ db) = ground (arith, relation-append u t db)

exists-append :
    (u t : String) (db : List Object)
    → exists_in (tables_of (db ++ (new_table t ∷ []))) u ≡ (exists_in (tables_of db) u || (u == t))
unfolding tables_of
exists-append u t [] = ground arith
exists-append u t (o ∷ db) = ground (arith, exists-append u t db)

-- What a statement leaves.
abbrev pub Creates : String → List Object → List Object → Type 0
Creates t db new =
    ((has_relation t db ≡ true) × (new ≡ db))
    ⊎ ((has_relation t db ≡ false) × (new ≡ db ++ (new_table t ∷ [])))

pub create_cases :
    (t : String) (db new : List Object) → create_table t db ≡ some new → Creates t db new
create_cases t db new h = ground arith

-- A relation that is there stays as it is.
keeps_relation :
    (t u : String) (db new : List Object)
    → Creates t db new
    → has_relation u db ≡ true
    → (has_relation u new ≡ true) × (exists_in (tables_of new) u ≡ exists_in (tables_of db) u)
keeps_relation t u db new (inl (r, e)) h = rw e (h, refl)
keeps_relation t u db new (inr (r, e)) h =
    rw (e, exists-append u t db, relation-append u t db, h)
      (refl, apart (exists_in (tables_of db) u))
  where
    apart : (b : Bool) → (b || (u == t)) ≡ b
    apart b = ground arith

-- No table of the list has the name.
abbrev pub Apart : String → List String → Type 0
Apart t [] = Unit
Apart t (u ∷ us) = (same_name u t ≡ false) × Apart t us

abbrev pub AllApart : List String → Type 0
AllApart [] = Unit
AllApart (t ∷ ts) = Apart t ts × AllApart ts

-- Afterwards a table of the list is there exactly if it was, or if no table or view had its name.
abbrev pub AllCreated : List Object → List Object → List String → Type 0
AllCreated db after [] = Unit
AllCreated db after (t ∷ ts) =
    (exists_in (tables_of after) t ≡ (exists_in (tables_of db) t || not (has_relation t db)))
    × AllCreated db after ts

on_created-ok :
    (o : Option (List Object)) (db after : List Object)
    (f : List Object → Result (Unit {0}) × List Object)
    → on_created o db f ≡ (ok tt, after)
    → (new : List Object) × (o ≡ some new) × (f new ≡ (ok tt, after))
on_created-ok none db after f h = cc
on_created-ok (some new) db after f h = (new, refl, h)

relation_stays :
    (u : String) (ts : List String) (db after : List Object)
    → create_tables ts db ≡ (ok tt, after)
    → has_relation u db ≡ true
    → exists_in (tables_of after) u ≡ exists_in (tables_of db) u
unfolding create_tables
relation_stays u [] db after h r = let e : after ≡ db = cc in rw e refl
relation_stays u (t ∷ ts) db after h r =
    let (new, made, rest) = on_created-ok (create_table t db) db after (create_tables ts) h in
    let (there, same) = keeps_relation t u db new (create_cases t db new made) r in
    relation_stays u ts new after rest there ∙ same

-- A statement does not change what holds of the names of others.
others :
    (t : String) (ts : List String) (db new after : List Object)
    → Creates t db new
    → Apart t ts
    → AllCreated new after ts
    → AllCreated db after ts
others t [] db new after c a h = tt
others t (u ∷ us) db new after c a h = (h.0 ∙ same c, others t us db new after c a.1 h.1)
  where
    same :
        Creates t db new
        → (exists_in (tables_of new) u || not (has_relation u new))
          ≡ (exists_in (tables_of db) u || not (has_relation u db))
    same (inl (r, e)) = rw e refl
    same (inr (r, e)) =
        rw (e, exists-append u t db, relation-append u t db, differ u t a.0, a.0) (ground arith)

-- The table of a statement is there afterwards, unless its name was taken.
made_there :
    (t : String) (db new : List Object)
    → Creates t db new
    → (has_relation t new ≡ true)
      × (exists_in (tables_of new) t ≡ (exists_in (tables_of db) t || not (has_relation t db)))
made_there t db new (inl (r, e)) = rw (e, r) (ground arith)
made_there t db new (inr (r, e)) =
    rw (e, exists-append t t db, relation-append t t db, r, same_name_refl t, ==_refl t)
      (ground arith)

pub all_created :
    (ts : List String) (db after : List Object)
    → AllApart ts
    → create_tables ts db ≡ (ok tt, after)
    → AllCreated db after ts
unfolding create_tables
all_created [] db after a h = tt
all_created (t ∷ ts) db after a h =
    let (new, made, rest) = on_created-ok (create_table t db) db after (create_tables ts) h in
    let c = create_cases t db new made in
    let (there, now) = made_there t db new c in
    (
      relation_stays t ts new after rest there ∙ now,
      others t ts db new after c a.0 (all_created ts new after a.1 rest),
    )

-- What is there stays, also if a statement fails.
pub only_added :
    (ts : List String) (db : List Object)
    → (added : List Object) × ((create_tables ts db).1 ≡ db ++ added)
unfolding create_tables
only_added [] db = ([], sym (append-nil db))
only_added (t ∷ ts) db = go (only_added ts) (create_table t db) refl
  where
    go :
        ((new : List Object) → (added : List Object) × ((create_tables ts new).1 ≡ new ++ added))
        → (o : Option (List Object)) → create_table t db ≡ o
        → (added : List Object) × ((on_created o db (create_tables ts)).1 ≡ db ++ added)
    go later none h = ([], sym (append-nil db))
    go later (some new) h = let (added, e) = later new in with_new added e (create_cases t db new h)
      where
        with_new :
            (added : List Object)
            → (create_tables ts new).1 ≡ new ++ added
            → Creates t db new
            → (added : List Object) × ((create_tables ts new).1 ≡ db ++ added)
        with_new added e (inl (r, k)) = (added, e ∙ ap (λ x. x ++ added) k)
        with_new added e (inr (r, k)) = (
          new_table t ∷ added,
          e ∙ ap (λ x. x ++ added) k ∙ append_assoc db (new_table t ∷ []) added,
        )
