-- ===== src/Base/Table.antt =====
-- Keyed tables: a database table under its primary key, and the files under their paths.
use mathlib.Core.Path.{◌≡◌, refl}
use mathlib.Core.Option.{Option, none, some}
use mathlib.Core.List.{List, [], ◌∷◌}
use native.Mathlib.Omega.{arith}
use omnistash.Base.Equality.{Eq, ◌==◌}
use omnistash.Base.Tests.{if◌then◌else◌}

abbrev pub Table : Type 0 → Type 0 → Type 0
Table K V = List (K × V)

module _ {K V : Type 0} ⦃e : Eq K⦄ where
  unfoldable pub lookup : K → Table K V → Option V
  lookup k [] = none
  lookup k ((j, v) ∷ t) = if k == j then some v else lookup k t

  -- A new row goes to the end; a row with the key is replaced where it stands.
  unfoldable pub put : K → V → Table K V → Table K V
  put k v [] = (k, v) ∷ []
  put k v ((j, w) ∷ t) = if k == j then (j, v) ∷ t else (j, w) ∷ put k v t

  unfoldable pub remove : K → Table K V → Table K V
  remove k [] = []
  remove k ((j, w) ∷ t) = let rest = remove k t in if k == j then rest else (j, w) ∷ rest

  pub lookup-put :
      (j k : K) (v : V) (t : Table K V)
      → lookup j (put k v t) ≡ (if j == k then some v else lookup j t)
  unfolding lookup put
  lookup-put j k v [] = ground arith
  lookup-put j k v (_ ∷ t) = ground (arith, lookup-put j k v t)

  pub lookup-remove :
      (j k : K) (t : Table K V) → lookup j (remove k t) ≡ (if j == k then none else lookup j t)
  unfolding lookup remove
  lookup-remove j k [] = ground arith
  lookup-remove j k (_ ∷ t) = ground (arith, lookup-remove j k t)

  -- No two rows have one key.
  abbrev pub IsKeyed : Table K V → Type 0
  IsKeyed [] = Unit
  IsKeyed ((k, _) ∷ t) = (lookup k t ≡ none) × IsKeyed t

  pub put-IsKeyed : (k : K) (v : V) (t : Table K V) → IsKeyed t → IsKeyed (put k v t)
  unfolding lookup put
  put-IsKeyed k v [] h = (refl, tt)
  put-IsKeyed k v ((j, w) ∷ t) h = ground (arith, put-IsKeyed k v t h.1, lookup-put j k v t)

  pub remove-IsKeyed : (k : K) (t : Table K V) → IsKeyed t → IsKeyed (remove k t)
  unfolding lookup remove
  remove-IsKeyed k [] h = h
  remove-IsKeyed k ((j, w) ∷ t) h = ground (arith, remove-IsKeyed k t h.1, lookup-remove j k t)
