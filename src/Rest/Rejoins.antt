-- ===== src/Rest/Rejoins.antt =====
-- Paths that `splitNamespacedPath` of rest/middleware.go takes apart again.
use omnistash.Base.{
  ◌↔◌, String, ℕ, suc, ◌+◌, ◌-◌, ◌<◌, ◌≡◌, ◌≢◌, refl, sym, ap, ◌∙◌, ◌⊎◌, inl, inr, true, Option,
  none, some, List, [], ◌∷◌, ◌++◌, take, drop, length, arith,
}
use omnistash.Name.{codes}
use omnistash.Rest.Paths.{
  Text, has_prefix, best_index, oci_path_separators, unless_nameless, string_take, string_drop,
  split_at, split_namespaced_path,
}
use omnistash.Rest.LastIndex.{After}
use omnistash.Rest.Splits.{
  NoneAt, SomeAt, codes-string_drop, codes-string_take, best_index_clear, best_index_stands,
  drop-drop, separators-AllProper, split_namespaced_path_sound,
}
use mathlib.Core.Path.{ap₂, subst}
use text.Mathlib.TextEquality.{Char-path}

-- No separator stands where one does.
clash : (t : Text) (seps : List Text) (j : ℕ) → NoneAt t seps j → SomeAt (drop j t) seps → ⊥
clash t [] j n s = s
clash t (sep ∷ seps) j n (inl h) = ground arith
clash t (sep ∷ seps) j n (inr h) = clash t seps j n.1 h

codes-injective : (a b : String) → codes a ≡ codes b → a ≡ b
codes-injective String.[] String.[] e = refl
codes-injective String.[] (String.◌∷◌ d b) e = cc
codes-injective (String.◌∷◌ c a) String.[] e = cc
codes-injective (String.◌∷◌ c a) (String.◌∷◌ d b) e =
    ap₂ (λ x t. String.◌∷◌ x t) (Char-path c d (cc)) (codes-injective a b (cc))

drop-length : (a b : Text) → drop (length a) (a ++ b) ≡ b
drop-length [] b = refl
drop-length (c ∷ a) b = drop-length a b

take-length : (a b : Text) → take (length a) (a ++ b) ≡ a
take-length [] b = refl
take-length (c ∷ a) b = ap (λ t. c ∷ t) (take-length a b)

prefix-append : (p s : Text) → has_prefix p (p ++ s) ≡ true
unfolding has_prefix
prefix-append [] s = refl
prefix-append (c ∷ p) s = ground (arith, prefix-append p s)

unless_nameless-named : (a t : String) → a ≢ "" → unless_nameless a t ≡ some (a, t)
unless_nameless-named String.[] t h = absurd (h refl)
unless_nameless-named (String.◌∷◌ c a) t h = refl

order_cases : (i k : ℕ) → (i < k) ⊎ ((i ≡ k) ⊎ (k < i))
order_cases i k = omega arith

module _ (rest name tail : String) (whole : codes name ++ codes tail ≡ codes rest)
    (named : name ≢ "") (starts : SomeAt (codes tail) oci_path_separators)
    (clear : (j : ℕ) → NoneAt (codes tail) oci_path_separators (suc j)) where
  abbrev k : ℕ
  k = length (codes name)

  behind : drop k (codes rest) ≡ codes tail
  behind = ap (drop k) (sym whole) ∙ drop-length (codes name) (codes tail)

  here : SomeAt (drop k (codes rest)) oci_path_separators
  here = subst (λ t. SomeAt t oci_path_separators) (sym behind) starts

  is_name : string_take k rest ≡ name
  is_name =
      codes-injective (string_take k rest) name
        (codes-string_take k rest ∙ ap (take k) (sym whole) ∙ take-length (codes name) (codes tail))

  is_tail : string_drop k rest ≡ tail
  is_tail = codes-injective (string_drop k rest) tail (codes-string_drop k rest ∙ behind)

  taken : split_at rest (some k) ≡ some (name, tail)
  taken = rw (is_name, is_tail) (unless_nameless-named name tail named)

  -- The last separator stands where the tail begins.
  later_none : (i : ℕ) → k < i → SomeAt (drop i (codes rest)) oci_path_separators → ⊥
  later_none i h s =
      let m = i - suc k in
      let e : i ≡ k + suc m = omega arith in
      clash (codes tail) oci_path_separators (suc m) (clear m) (
        subst (λ t. SomeAt t oci_path_separators)
          (ap (λ n. drop n (codes rest)) e
            ∙ sym (drop-drop k (suc m) (codes rest))
            ∙ ap (drop (suc m)) behind)
          s)

  at_none : (o : Option ℕ) → best_index (codes rest) oci_path_separators none ≡ o → After o k → ⊥
  at_none o e h =
      clash (codes rest) oci_path_separators k
        (best_index_clear (codes rest) oci_path_separators none k separators-AllProper
          (subst (λ x. After x k) (sym e) h)).0
        here

  at_index :
      (i : ℕ)
      → best_index (codes rest) oci_path_separators none ≡ some i
      → SomeAt (drop i (codes rest)) oci_path_separators
  at_index i e =
      elim (best_index_stands (codes rest) oci_path_separators none i separators-AllProper e) [
        | inl impossible ↦ cc
        | inr found ↦ found
      ]

  best : (o : Option ℕ) → best_index (codes rest) oci_path_separators none ≡ o → o ≡ some k
  best none e = absurd (at_none none e tt)
  best (some i) e = elim (order_cases i k) [
    | inl below ↦ absurd (at_none (some i) e below)
    | inr (inl same) ↦ ap (λ n. some n) same
    | inr (inr above) ↦ absurd (later_none i above (at_index i e))
  ]

  split_there : split_at rest (best_index (codes rest) oci_path_separators none) ≡ some (name, tail)
  split_there = rw (best _ refl) taken

-- A path is split into a name and a tail exactly if `/v2/`, the name and the tail make up the whole,
-- the name is not empty, the tail begins with a separator, and no separator begins at any later
-- position of the tail.
pub split_namespaced_path_iff :
    (url name tail : String)
    → (split_namespaced_path url ≡ some (name, tail)) ↔ (
        (codes "/v2/" ++ (codes name ++ codes tail) ≡ codes url)
        × (name ≢ "")
        × SomeAt (codes tail) oci_path_separators
        × ((j : ℕ) → NoneAt (codes tail) oci_path_separators (suc j)))
unfolding split_namespaced_path
split_namespaced_path_iff url name tail = (
  split_namespaced_path_sound url name tail,
  λ h.
      let starts : has_prefix (codes "/v2/") (codes url) ≡ true =
        subst (λ t. has_prefix (codes "/v2/") t ≡ true) h.0 (prefix-append (codes "/v2/") _) in
      let whole : codes name ++ codes tail ≡ codes (string_drop 4 url) =
        ap (drop 4) h.0 ∙ sym (codes-string_drop 4 url) in
      rw starts (split_there (string_drop 4 url) name tail whole h.1 h.2 h.3),
)
