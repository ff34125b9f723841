-- ===== src/Blobstore/Running.antt =====
-- What holds of the vacuum after any starts and stops.
use omnistash.Base.{
  ℕ, suc, ◌<◌, ◌≡◌, refl, sym, ap, ◌∙◌, ◌≢◌, ltb, Bool, true, false, Option, none, some, List, [],
  ◌∷◌,
}
use omnistash.Base.{◌⊎◌, inl, inr, if◌then◌else◌, arith, eqb}
use omnistash.Blobstore.Vacuum.{Vacuum, new_vacuum, member, start_vacuum_process, start_unless}
use omnistash.Blobstore.Vacuum.{
  stop_vacuum_process, stop, close_open, Reachable, fresh, started, stopped,
}
use mathlib.Core.Path.{subst}

-- No channel is closed twice, which would panic.
abbrev pub AllOnce : List ℕ → Type 0
AllOnce [] = Unit
AllOnce (c ∷ cs) = (member c cs ≡ false) × AllOnce cs

pub record IsOrderly (v : Vacuum) : Type 0 where
  pub open_last : (c : ℕ) → v.jobs ≡ some c → suc c ≡ v.made
  pub open_held : (c : ℕ) → v.jobs ≡ some c → v.stop_vacuum ≡ some c
  pub held_made : (c : ℕ) → v.stop_vacuum ≡ some c → c < v.made
  pub open_unclosed : (c : ℕ) → v.jobs ≡ some c → member c v.closed ≡ false
  pub closed_made : (c : ℕ) → member c v.closed ≡ true → c < v.made
  pub closed_spent : (c : ℕ) → member c v.spent ≡ member c v.closed
  pub closed_or_open : (c : ℕ) → c < v.made → (v.jobs ≡ some c) ⊎ (member c v.closed ≡ true)
  pub closed_once : AllOnce v.closed

new-IsOrderly : IsOrderly new_vacuum
unfolding member
new-IsOrderly = record {
  open_last = λ c h. cc;
  open_held = λ c h. cc;
  held_made = λ c h. cc;
  open_unclosed = λ c h. refl;
  closed_made = λ c h. cc;
  closed_spent = λ c. refl;
  closed_or_open = λ c h. absurd (omega arith);
  closed_once = tt;
}

start-IsOrderly : (v : Vacuum) → IsOrderly v → IsOrderly (start_vacuum_process v)
unfolding start_vacuum_process
start-IsOrderly v k = go v.jobs refl
  where
    go : (o : Option ℕ) → v.jobs ≡ o → IsOrderly (start_unless o v)
    go (some c) e = k
    go none e = record {
      open_last = λ c h. ground arith;
      open_held = λ c h. h;
      held_made = λ c h. ground arith;
      open_unclosed = λ c h. ground (arith, k.closed_made c);
      closed_made = λ c h. omega (arith, k.closed_made c h);
      closed_spent = k.closed_spent;
      closed_or_open = λ c h. ground (arith, k.closed_or_open c);
      closed_once = k.closed_once;
    }

-- The channel that is open, after its stop function.
abbrev shut : ℕ → Vacuum → Vacuum
shut c v = record v { jobs = none; spent = c ∷ v.spent; closed = c ∷ v.closed }

shut-IsOrderly : (c : ℕ) (v : Vacuum) → v.jobs ≡ some c → IsOrderly v → IsOrderly (shut c v)
unfolding member
shut-IsOrderly c v e k = record {
  open_last = λ d h. cc;
  open_held = λ d h. cc;
  held_made = k.held_made;
  open_unclosed = λ d h. cc;
  closed_made = λ d h. ground (arith, k.closed_made d, k.open_last c e);
  closed_spent = λ d. ground (arith, k.closed_spent d);
  closed_or_open = λ d h. ground (arith, k.closed_or_open d h);
  closed_once = (k.open_unclosed c e, k.closed_once);
}

eqb_refl : (c : ℕ) → eqb c c ≡ true
eqb_refl c = ground arith

-- The stop function runs once, and then its channel is open.
stop_held :
    (c : ℕ) (v : Vacuum)
    → IsOrderly v
    → v.stop_vacuum ≡ some c
    → member c v.spent ≡ false
    → v.jobs ≡ some c
stop_held c v k h n = elim (k.closed_or_open c (k.held_made c h)) [
  | inl e ↦ e
  | inr e ↦ cc (n, e, k.closed_spent c)
]

stop-IsOrderly : (v : Vacuum) → IsOrderly v → IsOrderly (stop_vacuum_process v)
unfolding stop_vacuum_process
stop-IsOrderly v k = go v.stop_vacuum refl
  where
    unspent :
        (c : ℕ) (b : Bool)
        → member c v.spent ≡ b
        → v.stop_vacuum ≡ some c
        → IsOrderly (if b then v else close_open c v.jobs (record v { spent = c ∷ v.spent }))
    unspent c true n h = k
    unspent c false n h =
        let e = stop_held c v k h n in rw e (rw (eqb_refl c) (shut-IsOrderly c v e k))

    go : (o : Option ℕ) → v.stop_vacuum ≡ o → IsOrderly (stop o v)
    go none h = k
    go (some c) h = unspent c (member c v.spent) refl h

-- After any starts and stops, no channel is closed twice; the open one is the last that was made and
-- `StopVacuumProcess` closes it; and every other channel that was made is closed, so that its
-- workers end.
pub reachable-IsOrderly : (v : Vacuum) → Reachable v → IsOrderly v
reachable-IsOrderly v (fresh e) = subst IsOrderly (sym e) new-IsOrderly
reachable-IsOrderly v (started u r e) =
    subst IsOrderly (sym e) (start-IsOrderly u (reachable-IsOrderly u r))
reachable-IsOrderly v (stopped u r e) =
    subst IsOrderly (sym e) (stop-IsOrderly u (reachable-IsOrderly u r))

stop-jobs : (v : Vacuum) → IsOrderly v → (stop_vacuum_process v).jobs ≡ none
unfolding stop_vacuum_process
stop-jobs v k = go v.stop_vacuum refl
  where
    idle : (j : Option ℕ) → v.jobs ≡ j → ((c : ℕ) → v.jobs ≡ some c → ⊥) → v.jobs ≡ none
    idle none e n = e
    idle (some c) e n = absurd (n c e)

    unspent :
        (c : ℕ) (b : Bool)
        → member c v.spent ≡ b
        → v.stop_vacuum ≡ some c
        → (if b then v else close_open c v.jobs (record v { spent = c ∷ v.spent })).jobs ≡ none
    unspent c true n h =
        idle v.jobs refl
          λ d e. ground (arith, k.open_held d e, k.open_unclosed d e, k.closed_spent d)
    unspent c false n h = rw (stop_held c v k h n) (rw (eqb_refl c))

    go : (o : Option ℕ) → v.stop_vacuum ≡ o → (stop o v).jobs ≡ none
    go none h = idle v.jobs refl λ d e. ground (arith, k.open_held d e)
    go (some c) h = unspent c (member c v.spent) refl h

stop-made : (v : Vacuum) → (stop_vacuum_process v).made ≡ v.made
unfolding stop_vacuum_process
stop-made v = ground arith

start-jobs : (v : Vacuum) → (start_vacuum_process v).jobs ≢ none
unfolding start_vacuum_process
start-jobs v = ground arith

closed_by_stop :
    (v : Vacuum) (c : ℕ) → IsOrderly v → v.jobs ≡ none → member c v.closed ≡ ltb c v.made
closed_by_stop v c k e = ground (arith, k.closed_or_open c, k.closed_made c)

-- After any starts and stops, `StartVacuumProcess` leaves the vacuum running, and
-- `StopVacuumProcess` leaves it stopped, with every channel that was ever made closed.
pub stop_vacuum_process_lem :
    (v : Vacuum)
    → Reachable v
    → ((start_vacuum_process v).jobs ≢ none)
      × ((stop_vacuum_process v).jobs ≡ none)
      × ((c : ℕ) → member c (stop_vacuum_process v).closed ≡ ltb c v.made)
stop_vacuum_process_lem v r =
    let k = reachable-IsOrderly v r in
    (
      start-jobs v,
      stop-jobs v k,
      λ c.
          closed_by_stop (stop_vacuum_process v) c (stop-IsOrderly v k) (stop-jobs v k)
          ∙ ap (ltb c) (stop-made v),
    )
