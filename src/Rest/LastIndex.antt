-- ===== src/Rest/LastIndex.antt =====
-- Where `strings.LastIndex` finds a separator.
use omnistash.Base.{
  ℕ, zero, suc, ◌<◌, ◌≡◌, ◌≢◌, refl, Bool, true, false, Option, none, some, [], ◌∷◌, drop, arith,
}
use omnistash.Rest.Paths.{Text, has_prefix, at_start, or_later, last_index}

-- The position lies behind the index.
abbrev pub After : Option ℕ → ℕ → Type 0
After none j = Unit
After (some i) j = i < j

abbrev pub StandsAt : Text → Text → Option ℕ → Type 0
StandsAt s sep none = Unit
StandsAt s sep (some i) = has_prefix sep (drop i s) ≡ true

-- The index is the last at which the separator stands.
abbrev pub IsLast : Text → Text → Option ℕ → Type 0
IsLast s sep o = StandsAt s sep o × ((j : ℕ) → After o j → has_prefix sep (drop j s) ≡ false)

prefix_nil : (sep : Text) → sep ≢ [] → has_prefix sep [] ≡ false
unfolding has_prefix
prefix_nil [] h = absurd (h refl)
prefix_nil (c ∷ sep) h = refl

prefix-drop_nil : (sep : Text) → sep ≢ [] → (j : ℕ) → has_prefix sep (drop j []) ≡ false
prefix-drop_nil sep h zero = prefix_nil sep h
prefix-drop_nil sep h (suc j) = prefix_nil sep h

module _ (c : ℕ) (cs sep : Text) where
  step_later :
      (i : ℕ)
      → IsLast cs sep (some i)
      → (j : ℕ) → suc i < j
      → has_prefix sep (drop j (c ∷ cs)) ≡ false
  step_later i l zero h = absurd (omega arith)
  step_later i l (suc j) h = l.1 j (omega arith)

  step_found : IsLast cs sep none → (j : ℕ) → 0 < j → has_prefix sep (drop j (c ∷ cs)) ≡ false
  step_found l zero h = absurd (omega arith)
  step_found l (suc j) h = l.1 j tt

  step_none :
      IsLast cs sep none
      → has_prefix sep (c ∷ cs) ≡ false
      → (j : ℕ) → has_prefix sep (drop j (c ∷ cs)) ≡ false
  step_none l e zero = e
  step_none l e (suc j) = l.1 j tt

  step-IsLast :
      (o : Option ℕ)
      → IsLast cs sep o
      → (b : Bool) → has_prefix sep (c ∷ cs) ≡ b
      → IsLast (c ∷ cs) sep (or_later o (at_start b))
  step-IsLast (some i) l b e = (l.0, step_later i l)
  step-IsLast none l true e = (e, step_found l)
  step-IsLast none l false e = (tt, λ j _. step_none l e j)

pub last_index-IsLast : (s sep : Text) → sep ≢ [] → IsLast s sep (last_index s sep)
unfolding last_index
last_index-IsLast [] sep h = (tt, λ j _. prefix-drop_nil sep h j)
last_index-IsLast (c ∷ cs) sep h =
    step-IsLast c cs sep (last_index cs sep) (last_index-IsLast cs sep h) (has_prefix sep (c ∷ cs))
      refl
