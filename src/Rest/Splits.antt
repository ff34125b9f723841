-- ===== src/Rest/Splits.antt =====
-- What `splitNamespacedPath` of rest/middleware.go returns.
use omnistash.Base.{
  String, ℕ, zero, suc, ◌+◌, ◌≡◌, ◌≢◌, refl, sym, ap, ◌∙◌, ◌⊎◌, Bool, true, false, Option, none,
  some, List, [], ◌∷◌, ◌++◌, take, drop, length, if◌then◌else◌, arith, inl, inr,
}
use omnistash.Name.{codes}
use omnistash.Rest.Paths.{
  Text, has_prefix, last_index, better, best_index, oci_path_separators, unless_nameless,
  string_take, string_drop, split_at, split_namespaced_path,
}
use Prim.Native.Char.{code}
use mathlib.Core.Path.{ap₂, subst}
use mathlib.Core.Option.{some-injective}
use omnistash.Rest.LastIndex.{After, StandsAt, last_index-IsLast}

-- No separator of the list stands at the position.
abbrev pub NoneAt : Text → List Text → ℕ → Type 0
NoneAt rest [] j = Unit
NoneAt rest (sep ∷ seps) j = (has_prefix sep (drop j rest) ≡ false) × NoneAt rest seps j

-- One separator of the list stands at the front.
abbrev pub SomeAt : Text → List Text → Type 0
SomeAt tail [] = ⊥
SomeAt tail (sep ∷ seps) = (has_prefix sep tail ≡ true) ⊎ SomeAt tail seps

abbrev pub AllProper : List Text → Type 0
AllProper [] = Unit
AllProper (sep ∷ seps) = (sep ≢ []) × AllProper seps

After-better : (a b : Option ℕ) (j : ℕ) → After (better a b) j → After a j × After b j
After-better none none j h = (tt, tt)
After-better none (some i) j h = (tt, h)
After-better (some b) none j h = (h, tt)
After-better (some b) (some i) j h = ground arith

pub best_index_clear :
    (rest : Text) (seps : List Text) (best : Option ℕ) (j : ℕ)
    → AllProper seps
    → After (best_index rest seps best) j
    → NoneAt rest seps j × After best j
unfolding best_index
best_index_clear rest [] best j p h = (tt, h)
best_index_clear rest (sep ∷ seps) best j p h =
    let (others, behind) = best_index_clear rest seps (better best (last_index rest sep)) j p.1 h in
    let (behind_best, behind_last) = After-better best (last_index rest sep) j behind in
    (((last_index-IsLast rest sep p.0).1 j behind_last, others), behind_best)

better_cases : (a b : Option ℕ) → (better a b ≡ a) ⊎ (better a b ≡ b)
better_cases a none = inl refl
better_cases none (some i) = inr refl
better_cases (some b) (some i) = ground arith

pub best_index_stands :
    (rest : Text) (seps : List Text) (best : Option ℕ) (i : ℕ)
    → AllProper seps
    → best_index rest seps best ≡ some i
    → (best ≡ some i) ⊎ SomeAt (drop i rest) seps
unfolding best_index
best_index_stands rest [] best i p h = inl h
best_index_stands rest (sep ∷ seps) best i p h =
    elim (best_index_stands rest seps (better best (last_index rest sep)) i p.1 h) [
      | inr found ↦ inr (inr found)
      | inl here ↦ elim (better_cases best (last_index rest sep)) [
        | inl old ↦ inl (sym old ∙ here)
        | inr new ↦
            inr (
              inl
                (stands (last_index rest sep) (sym new ∙ here) (last_index-IsLast rest sep p.0).0))
      ]
    ]
  where
    stands : (o : Option ℕ) → o ≡ some i → StandsAt rest sep o → has_prefix sep (drop i rest) ≡ true
    stands none e s = cc
    stands (some k) e s = rw (← some-injective k i e) s

take-drop : (i : ℕ) (s : Text) → take i s ++ drop i s ≡ s
take-drop zero s = refl
take-drop (suc i) [] = refl
take-drop (suc i) (c ∷ s) = ap (λ t. c ∷ t) (take-drop i s)

prefix_sound : (p s : Text) → has_prefix p s ≡ true → p ++ drop (length p) s ≡ s
unfolding has_prefix
prefix_sound [] s h = refl
prefix_sound (c ∷ p) [] h = cc
prefix_sound (c ∷ p) (x ∷ s) h = ground (arith, prefix_sound p s)

pub codes-string_drop : (i : ℕ) (s : String) → codes (string_drop i s) ≡ drop i (codes s)
codes-string_drop zero s = refl
codes-string_drop (suc i) String.[] = refl
codes-string_drop (suc i) (String.◌∷◌ c s) = codes-string_drop i s

pub codes-string_take : (i : ℕ) (s : String) → codes (string_take i s) ≡ take i (codes s)
codes-string_take zero s = refl
codes-string_take (suc i) String.[] = refl
codes-string_take (suc i) (String.◌∷◌ c s) = ap (λ t. code c ∷ t) (codes-string_take i s)

unless_nameless-some :
    (a t : String) {name tail : String}
    → unless_nameless a t ≡ some (name, tail)
    → (name ≡ a) × (tail ≡ t) × (name ≢ "")
unless_nameless-some String.[] t h = cc
unless_nameless-some (String.◌∷◌ c cs) t h = (cc, cc, λ e. cc)

drop_nil : (n : ℕ) → drop {A = ℕ} n [] ≡ []
drop_nil zero = refl
drop_nil (suc n) = refl

pub drop-drop : (i j : ℕ) (s : Text) → drop j (drop i s) ≡ drop (i + j) s
drop-drop zero j s = ap (λ n. drop n s) (omega arith)
drop-drop (suc i) j [] = drop_nil j ∙ sym (drop_nil (suc i + j))
drop-drop (suc i) j (c ∷ s) =
    drop-drop i j s ∙ ap (λ n. drop n (c ∷ s)) {x = suc (i + j)} {y = suc i + j} (omega arith)

none-later :
    (i j : ℕ) (rest : Text) (seps : List Text)
    → NoneAt rest seps (i + j)
    → NoneAt (drop i rest) seps j
none-later i j rest [] h = tt
none-later i j rest (sep ∷ seps) h =
    (ap (has_prefix sep) (drop-drop i j rest) ∙ h.0, none-later i j rest seps h.1)

pub separators-AllProper : AllProper oci_path_separators
separators-AllProper = ((λ e. cc), ((λ e. cc), ((λ e. cc), ((λ e. cc), tt))))

module _ (rest name tail : String) where
  split_sound :
      (o : Option ℕ)
      → best_index (codes rest) oci_path_separators none ≡ o
      → split_at rest o ≡ some (name, tail)
      → (codes name ++ codes tail ≡ codes rest)
        × (name ≢ "")
        × SomeAt (codes tail) oci_path_separators
        × ((j : ℕ) → NoneAt (codes tail) oci_path_separators (suc j))
  split_sound none e h = cc
  split_sound (some i) e h =
      let (is_name, is_tail, named) =
        unless_nameless-some (string_take i rest) (string_drop i rest) h in
      let start = ap codes is_name ∙ codes-string_take i rest in
      let end = ap codes is_tail ∙ codes-string_drop i rest in
      (
        ap₂ (λ a b. a ++ b) start end ∙ take-drop i (codes rest),
        named,
        subst (λ t. SomeAt t oci_path_separators) (sym end) found,
        λ j.
            subst (λ t. NoneAt t oci_path_separators (suc j)) (sym end)
              (none-later i (suc j) (codes rest) oci_path_separators (clear j)),
      )
    where
      found : SomeAt (drop i (codes rest)) oci_path_separators
      found =
          elim (best_index_stands (codes rest) oci_path_separators none i separators-AllProper e) [
            | inl impossible ↦ cc
            | inr here ↦ here
          ]

      clear : (j : ℕ) → NoneAt (codes rest) oci_path_separators (i + suc j)
      clear j =
          (best_index_clear (codes rest) oci_path_separators none (i + suc j) separators-AllProper
            (subst (λ o. After o (i + suc j)) (sym e) (omega arith))).0

module _ (url name tail : String) where
  abbrev IsSplit : Type 0
  IsSplit =
      (codes "/v2/" ++ (codes name ++ codes tail) ≡ codes url)
      × (name ≢ "")
      × SomeAt (codes tail) oci_path_separators
      × ((j : ℕ) → NoneAt (codes tail) oci_path_separators (suc j))

  split_checked :
      (b : Bool)
      → has_prefix (codes "/v2/") (codes url) ≡ b
      → (if b
          then split_at
              (string_drop 4 url)
              (best_index (codes (string_drop 4 url)) oci_path_separators none)
          else none)
        ≡ some (name, tail)
      → IsSplit
  split_checked true e h =
      let (whole, named, found, clear) = split_sound (string_drop 4 url) name tail _ refl h in
      (
        ap (λ t. codes "/v2/" ++ t) (whole ∙ codes-string_drop 4 url)
            ∙ prefix_sound (codes "/v2/") (codes url) e,
        named,
        found,
        clear,
      )
  split_checked false e h = cc

-- Of a path that is split, `/v2/`, the name and the tail make up the whole; the name is not empty;
-- the tail begins with a separator; and no separator begins at any later position.
pub split_namespaced_path_sound :
    (url name tail : String)
    → split_namespaced_path url ≡ some (name, tail)
    → (codes "/v2/" ++ (codes name ++ codes tail) ≡ codes url)
      × (name ≢ "")
      × SomeAt (codes tail) oci_path_separators
      × ((j : ℕ) → NoneAt (codes tail) oci_path_separators (suc j))
unfolding split_namespaced_path
split_namespaced_path_sound url name tail h =
    split_checked url name tail (has_prefix (codes "/v2/") (codes url)) refl h
