-- ===== src/Programs/Exits.antt =====
-- How the programs end.
use mathlib.Core.Path.{subst}
use omnistash.Base.{
  zero, suc, Option, none, some, ℕ, ◌≡◌, ◌≢◌, refl, ◌↔◌, ◌⊎◌, inl, inr, String, List, ◌++◌, ◌==◌,
  string_eq, Bool, true, false,
}
use omnistash.Base.{arith, if◌then◌else◌}
use omnistash.Errors.{Result, ok, err, is, local, LocalError}
use omnistash.Metastore.Handle.{new_sqlite_metadata_store, close}
use omnistash.Migration.{Object, apply_sqlite_migrations, check_sqlite_setup, required_tables}
use omnistash.Migration.Applied.{IsReady, check-apply_iff, IsMigrated}
use omnistash.Programs.{
  given, help, refused, Arguments, Course, First, signal, served, wait, unless_closed, run,
  exit_code, omnistash_main, migrate_main, apply_to,
}
use omnistash.World.{next, later, World, Proc, pure, calm, ◌>>=◌}

-- The next `n` calls that leave the program succeed, and the answers to the calls after them.
abbrev pub Succeeds : ℕ → List (Option ℕ) → Type 0
Succeeds zero fs = Unit
Succeeds (suc n) fs = (next fs ≡ none) × Succeeds n (later fs)

abbrev pub beyond : ℕ → List (Option ℕ) → List (Option ℕ)
beyond zero fs = fs
beyond (suc n) fs = beyond n (later fs)

Succeeds-cases : (n : ℕ) (fs : List (Option ℕ)) → Succeeds n fs ⊎ (¬ Succeeds n fs)
Succeeds-cases zero fs = inl tt
Succeeds-cases (suc n) fs = elim (Succeeds-cases n (later fs)) [
  | inl h ↦ first (next fs) refl h
  | inr k ↦ inr (λ s. k s.1)
]
  where
    first :
        (o : Option ℕ)
        → next fs ≡ o
        → Succeeds n (later fs)
        → Succeeds (suc n) fs ⊎ (¬ Succeeds (suc n) fs)
    first none e h = inl (e, h)
    first (some k) e h = inr (λ s. cc)

-- `ListenAndServe` returned no error but `http.ErrServerClosed`.
abbrev pub IsClosed : Result (Unit {0}) → Type 0
IsClosed (ok done) = Unit
IsClosed (err e) = is e (local LocalError.server_closed) ≡ true

-- The four calls that open the store succeed; a signal comes before the server ends; `Shutdown`
-- ends within its time; and the server says then that it is closed.
abbrev pub IsOrderly : Course → World → Type 0
IsOrderly c w = Succeeds 4 w.faults × (c.first ≡ signal) × (c.shutdown ≡ ok tt) × IsClosed c.after

IsClosed-iff : (r : Result (Unit {0})) → (unless_closed r ≡ ok tt) ↔ IsClosed r
IsClosed-iff (ok done) = (λ h. tt, λ h. refl)
IsClosed-iff (err e) = ground arith

opened_iff : (w : World) → ((new_sqlite_metadata_store w).0 ≡ ok tt) ↔ Succeeds 4 w.faults
unfolding new_sqlite_metadata_store ◌>>=◌
opened_iff w = ground arith

-- What `run` waits for, after the store is opened.
waited :
    (f : First) (s a : Result (Unit {0})) (w : World)
    → ((wait (record { first = f; shutdown = s; after = a }) f w).0 ≡ ok tt)
      ↔ ((f ≡ signal) × (s ≡ ok tt) × (unless_closed a ≡ ok tt))
unfolding ◌>>=◌
waited (served e) s a w = (λ h. cc, λ h. cc)
waited signal (ok done) a w = (λ h. (refl, refl, h), λ h. h.2)
waited signal (err e) a w = (λ h. cc, λ h. cc)

ran :
    (c : Course) (opened : Result (Unit {0})) (v w : World)
    → new_sqlite_metadata_store w ≡ (opened, v)
    → ((run c w).0 ≡ ok tt) ↔ ((opened ≡ ok tt) × ((wait c c.first v).0 ≡ ok tt))
unfolding run close ◌>>=◌
ran c (ok done) v w e = rw e (λ h. (refl, h), λ h. h.1)
ran c (err x) v w e = rw e (λ h. cc, λ h. cc)

-- `run` returns nil exactly if the run is orderly.
pub run_iff : (c : Course) (w : World) → ((run c w).0 ≡ ok tt) ↔ IsOrderly c w
run_iff c w =
    let r = ran c (new_sqlite_metadata_store w).0 (new_sqlite_metadata_store w).1 w refl in
    let v = waited c.first c.shutdown c.after (new_sqlite_metadata_store w).1 in
    let o = opened_iff w in
    let k = IsClosed-iff c.after in
    (
      λ h. let u = v.0 (r.0 h).1 in (o.0 (r.0 h).0, u.0, u.1, k.0 u.2),
      λ h. r.1 (o.1 h.0, v.1 (h.1, h.2, k.1 h.3)),
    )

-- A store that was opened is closed: two calls follow the four that open it.
wait_world : (c : Course) (f : First) (w : World) → (wait c f w).1 ≡ w
unfolding ◌>>=◌
wait_world c (served e) w = refl
wait_world c signal w = go c.shutdown
  where
    go :
        (r : Result (Unit {0}))
        → (wait (record { first = signal; shutdown = r; after = c.after }) signal w).1 ≡ w
    go (ok done) = refl
    go (err e) = refl

run_closes :
    (c : Course) (w : World)
    → Succeeds 4 w.faults
    → (run c w).1 ≡ record w { faults = beyond 6 w.faults }
unfolding run new_sqlite_metadata_store close ◌>>=◌
run_closes c w h = let (a, (b, (d, (e, u)))) = h in rw (a, b, d, e, wait_world c c.first)

-- The exit code, by what `run` returns.
abbrev Ends : Result ℕ → Result (Unit {0}) → Type 0
Ends code r = ((code ≡ ok 0) × (r ≡ ok tt)) ⊎ ((code ≡ ok 1) × (r ≢ ok tt))

ended : (r : Result (Unit {0})) → Ends (ok (exit_code r)) r
ended (ok done) = inl (refl, refl)
ended (err e) = inr (refl, λ h. cc)

-- With flags that parse, the server's program ends with exit code 0 if the run is orderly and with 1
-- if not, whatever the flags say, and a store that was opened is closed. A run is orderly if the
-- four calls that open the store succeed, a signal comes before the server ends, Shutdown ends
-- within its time, and ListenAndServe then returns no error but ErrServerClosed. With -help the
-- program ends with 0 and with flags that do not parse with 2, and neither touches a store.
pub omnistash_main_exits :
    (a : Arguments) (c : Course) (w : World)
    → ((((omnistash_main (given a) c w).0 ≡ ok 0) × IsOrderly c w)
        ⊎ (((omnistash_main (given a) c w).0 ≡ ok 1) × ¬ IsOrderly c w))
      × (((omnistash_main (given a) c w).1 ≡ record w { faults = beyond 6 w.faults })
          ⊎ (¬ Succeeds 4 w.faults))
      × (omnistash_main help c w ≡ (ok 0, w))
      × (omnistash_main refused c w ≡ (ok 2, w))
unfolding omnistash_main ◌>>=◌
omnistash_main_exits a c w = (
  elim (ended (run c w).0) [
    | inl h ↦ inl (h.0, (run_iff c w).0 h.1)
    | inr h ↦ inr (h.0, λ o. h.1 ((run_iff c w).1 o))
  ],
  elim (Succeeds-cases 4 w.faults) [ inl h ↦ inl (run_closes c w h) | inr n ↦ inr n ],
  refl,
  refl,
)

abbrev dispatched : Bool → List Object → Proc (ℕ × List Object)
dispatched empty tables = if empty then pure (2, tables) else apply_to tables

applied :
    (empty : Bool) (before after : List Object) (r : Result (Result (Unit {0}) × List Object))
    (u w : World)
    → apply_sqlite_migrations before w ≡ (r, u)
    → (dispatched empty before w).0 ≡ ok (0, after)
    → r ≡ ok (ok tt, after)
unfolding ◌>>=◌
applied true before after r u w e h = ground arith
applied false before after (ok (ok done, ts)) u w e h = let k = rw e at h in cc
applied false before after (ok (err x, ts)) u w e h = let k = rw e at h in ground arith
applied false before after (err x) u w e h = let k = rw e at h in cc

-- If the migration's program ends with exit code 0 and was not asked for help, then every object
-- that was there is still there, and the setup passes its check while the engine answers, unless a
-- required name was taken by a view, or by a table in other letters.
pub migrate_main_exits :
    (dsn : String) (before after : List Object) (w v : World)
    → (migrate_main (given dsn) before w).0 ≡ ok (0, after)
    → (((check_sqlite_setup after (calm v)).0 ≡ ok tt) ↔ IsReady before required_tables)
      × ((added : List Object) × (after ≡ before ++ added))
unfolding migrate_main
migrate_main_exits dsn before after w v h =
    let returned =
      applied (dsn == "") before after (apply_sqlite_migrations before w).0
        (apply_sqlite_migrations before w).1 w refl h in
    let (grown, checked) = subst (IsMigrated before v) returned (check-apply_iff before w v).0 in
    (checked, grown)
