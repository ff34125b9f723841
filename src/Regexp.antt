-- ===== src/Regexp.antt =====
-- The Go package `regexp`, for the expressions that the program compiles, which are anchored at both
-- ends: a matcher by derivatives, and the language that it decides.
use omnistash.Base.{ℕ, ◌≡◌, refl, sym, ap, ◌∙◌, ◌↔◌, ◌⊎◌, inl, inr, Bool, true, false, ◌&&◌, ◌||◌}
use omnistash.Base.{List, [], ◌∷◌, ◌++◌, arith, if◌then◌else◌, Bool-cases}

pub data Regex : Type 0 where
  never empty : Regex
  one : (ℕ → Bool) → Regex
  seq alt : Regex → Regex → Regex
  star : Regex → Regex

abbrev pub plus : Regex → Regex
plus r = seq r (star r)

unfoldable pub nullable : Regex → Bool
nullable never = false
nullable empty = true
nullable (one p) = false
nullable (seq r s) = nullable r && nullable s
nullable (alt r s) = nullable r || nullable s
nullable (star r) = true

-- What is left to match after one character.
unfoldable pub derive : ℕ → Regex → Regex
unfolding nullable
derive c never = never
derive c empty = never
derive c (one p) = if p c then empty else never
derive c (seq r s) =
    let left = seq (derive c r) s in
    let right = derive c s in if nullable r then alt left right else left
derive c (alt r s) = alt (derive c r) (derive c s)
derive c (star r) = seq (derive c r) (star r)

unfoldable pub matches : Regex → List ℕ → Bool
unfolding nullable derive
matches r [] = nullable r
matches r (c ∷ cs) = matches (derive c r) cs

-- One text after the other; each is not empty.
pub data Rounds (P : List ℕ → Type 0) : List ℕ → Type 0 where
  done : {cs : List ℕ} → cs ≡ [] → Rounds P cs
  round :
      {cs : List ℕ} (x : ℕ) (xs ys : List ℕ)
      → P (x ∷ xs)
      → Rounds P ys
      → cs ≡ x ∷ (xs ++ ys)
      → Rounds P cs

-- The language of a regular expression.
abbrev pub Matches : Regex → List ℕ → Type 0
Matches never cs = ⊥
Matches empty cs = cs ≡ []
Matches (one p) cs = (c : ℕ) × (p c ≡ true) × (cs ≡ c ∷ [])
Matches (seq r s) cs = (xs : List ℕ) × (ys : List ℕ) × Matches r xs × Matches s ys × (cs ≡ xs ++ ys)
Matches (alt r s) cs = Matches r cs ⊎ Matches s cs
Matches (star r) cs = Rounds (Matches r) cs

nullable_sound : (r : Regex) → nullable r ≡ true → Matches r []
unfolding nullable
nullable_sound never h = cc
nullable_sound empty h = refl
nullable_sound (one p) h = cc
nullable_sound (seq r s) h =
    ([], [], nullable_sound r (ground arith), nullable_sound s (ground arith), refl)
nullable_sound (alt r s) h = elim (Bool-cases (nullable r)) [
  | inl e ↦ inl (nullable_sound r e)
  | inr e ↦ inr (nullable_sound s (ground arith))
]
nullable_sound (star r) h = done refl

nullable_complete : (r : Regex) (cs : List ℕ) → Matches r cs → cs ≡ [] → nullable r ≡ true
unfolding nullable
nullable_complete never cs m e = absurd m
nullable_complete empty cs m e = refl
nullable_complete (one p) cs (c, h, q) e = cc
nullable_complete (seq r s) cs ([], ys, m, k, q) e =
    ground (arith, nullable_complete r [] m refl, nullable_complete s ys k (sym q ∙ e))
nullable_complete (seq r s) cs (x ∷ xs, ys, m, k, q) e = cc
nullable_complete (alt r s) cs (inl m) e = ground (arith, nullable_complete r cs m e)
nullable_complete (alt r s) cs (inr m) e = ground (arith, nullable_complete s cs m e)
nullable_complete (star r) cs m e = refl

module _ (c : ℕ) (r s : Regex) where
  -- The two ways to match after `c`, as `derive` has them.
  abbrev split : Bool → Regex
  split b = if b then alt (seq (derive c r) s) (derive c s) else seq (derive c r) s

  split_left : (b : Bool) (cs : List ℕ) → Matches (seq (derive c r) s) cs → Matches (split b) cs
  split_left true cs m = inl m
  split_left false cs m = m

  seq_sound :
      (cs : List ℕ)
      → ((xs : List ℕ) → Matches (derive c r) xs → Matches r (c ∷ xs))
      → (Matches (derive c s) cs → Matches s (c ∷ cs))
      → (b : Bool) → nullable r ≡ b
      → Matches (split b) cs
      → Matches (seq r s) (c ∷ cs)
  seq_sound cs f g true e (inl (xs, ys, m, k, q)) = (c ∷ xs, ys, f xs m, k, ap (λ t. c ∷ t) q)
  seq_sound cs f g true e (inr m) = ([], c ∷ cs, nullable_sound r e, g m, refl)
  seq_sound cs f g false e (xs, ys, m, k, q) = (c ∷ xs, ys, f xs m, k, ap (λ t. c ∷ t) q)

  split_right :
      (b : Bool) (cs : List ℕ)
      → nullable r ≡ b
      → b ≡ true
      → Matches (derive c s) cs
      → Matches (split b) cs
  split_right true cs e h m = inr m
  split_right false cs e h m = absurd (cc h)

derive_sound : (c : ℕ) (r : Regex) (cs : List ℕ) → Matches (derive c r) cs → Matches r (c ∷ cs)
unfolding derive
derive_sound c never cs m = absurd m
derive_sound c empty cs m = absurd m
derive_sound c (one p) cs m = elim (Bool-cases (p c)) [
  | inl e ↦ (c, e, ap (λ t. c ∷ t) (rw e at m))
  | inr e ↦ absurd (rw e at m)
]
derive_sound c (seq r s) cs m =
    seq_sound c r s cs (derive_sound c r) (derive_sound c s cs) (nullable r) refl m
derive_sound c (alt r s) cs (inl m) = inl (derive_sound c r cs m)
derive_sound c (alt r s) cs (inr m) = inr (derive_sound c s cs m)
derive_sound c (star r) cs (xs, ys, m, k, q) =
    round c xs ys (derive_sound c r xs m) k (ap (λ t. c ∷ t) q)

derive_complete :
    (c : ℕ) (r : Regex) (ds cs : List ℕ) → Matches r ds → ds ≡ c ∷ cs → Matches (derive c r) cs
unfolding derive
derive_complete c never ds cs m e = absurd m
derive_complete c empty ds cs m e = cc
derive_complete c (one p) ds cs (x, h, q) e =
    let same : p c ≡ true = cc in let rest : cs ≡ [] = cc in rw same rest
derive_complete c (seq r s) ds cs ([], ys, m, k, q) e =
    split_right c r s (nullable r) cs refl (nullable_complete r [] m refl)
      (derive_complete c s ys cs k (sym q ∙ e))
derive_complete c (seq r s) ds cs (x ∷ xs, ys, m, k, q) e =
    split_left c r s (nullable r) cs (xs, ys, derive_complete c r (x ∷ xs) xs m (cc), k, (cc))
derive_complete c (alt r s) ds cs (inl m) e = inl (derive_complete c r ds cs m e)
derive_complete c (alt r s) ds cs (inr m) e = inr (derive_complete c s ds cs m e)
derive_complete c (star r) ds cs (done q) e = cc
derive_complete c (star r) ds cs (round x xs ys m k q) e =
    (xs, ys, derive_complete c r (x ∷ xs) xs m (cc), k, (cc))

-- The matcher decides the language.
pub matches_iff : (r : Regex) (cs : List ℕ) → (matches r cs ≡ true) ↔ Matches r cs
unfolding matches
matches_iff r [] = (nullable_sound r, λ m. nullable_complete r [] m refl)
matches_iff r (c ∷ cs) = (
  λ h. derive_sound c r cs ((matches_iff (derive c r) cs).0 h),
  λ m. (matches_iff (derive c r) cs).1 (derive_complete c r (c ∷ cs) cs m refl),
)
