-- ===== src/Name/Grammar.antt =====
-- Repository names as words that are joined, without regard to the pattern of
-- internal/namespace/validate.go.
use omnistash.Base.{
  ℕ, ◌≤◌, String, ◌≡◌, refl, sym, ap, ◌∙◌, ◌↔◌, ◌⊎◌, inl, inr, true, Bool, eqb, List, [], ◌∷◌, ◌++◌,
  arith,
}
use mathlib.Core.Path.{subst}
use mathlib.Core.List.{append_assoc, append-nil}
use omnistash.Errors.{ok, fail, oci, OciError}
use omnistash.Regexp.{Regex, one, seq, star, plus, Matches, Rounds, done, round}
use omnistash.Name.{
  codes, alphanumeric, char, separator, component, name_pattern, validate_name, validate_name_iff,
}

-- Texts of `W`, each after the first behind one of `S`.
pub data Joined (W S : List ℕ → Type 0) : List ℕ → Type 0 where
  single : {cs : List ℕ} → W cs → Joined W S cs
  joined :
      {cs : List ℕ} (xs s ys : List ℕ)
      → W xs
      → S s
      → Joined W S ys
      → cs ≡ xs ++ (s ++ ys)
      → Joined W S cs

-- A letter from a to z or a digit.
abbrev pub IsAlphanumeric : ℕ → Type 0
IsAlphanumeric c = ((97 ≤ c) × (c ≤ 122)) ⊎ ((48 ≤ c) × (c ≤ 57))

abbrev pub AllOf : (ℕ → Type 0) → List ℕ → Type 0
AllOf P [] = Unit
AllOf P (c ∷ cs) = P c × AllOf P cs

-- At least one.
abbrev pub SomeOf : (ℕ → Type 0) → List ℕ → Type 0
SomeOf P [] = ⊥
SomeOf P (c ∷ cs) = P c × AllOf P cs

abbrev pub IsWord : List ℕ → Type 0
IsWord = SomeOf IsAlphanumeric

-- A dot, one or two underscores, or dashes.
abbrev pub IsSeparator : List ℕ → Type 0
IsSeparator s = (s ≡ 46 ∷ []) ⊎ ((s ≡ 95 ∷ []) ⊎ ((s ≡ 95 ∷ 95 ∷ []) ⊎ SomeOf (λ c. c ≡ 45) s))

abbrev pub IsComponent : List ℕ → Type 0
IsComponent = Joined IsWord IsSeparator

-- Components with slashes between them.
abbrev pub IsName : List ℕ → Type 0
IsName = Joined IsComponent (λ s. s ≡ 47 ∷ [])

module _ (r s : Regex) (W S : List ℕ → Type 0) (items : (cs : List ℕ) → Matches r cs ↔ W cs)
    (seps : (cs : List ℕ) → Matches s cs ↔ S cs) (proper : S [] → ⊥) where
  abbrev rest : Regex
  rest = seq s r

  to_joined : (xs ys cs : List ℕ) → W xs → Rounds (Matches rest) ys → cs ≡ xs ++ ys → Joined W S cs
  to_joined xs ys cs w (done e) h =
      single (subst W (sym (h ∙ ap (λ t. xs ++ t) e ∙ append-nil xs)) w)
  to_joined xs ys cs w (round x us vs (a, b, ma, mb, q) k e) h =
      joined xs a (b ++ vs) w ((seps a).0 ma) (to_joined b vs (b ++ vs) ((items b).0 mb) k refl)
        (h ∙ ap (λ t. xs ++ t) (e ∙ ap (λ t. t ++ vs) q ∙ append_assoc a b vs))

  add_round :
      (us vs cs : List ℕ)
      → (us ≡ [] → ⊥)
      → Matches rest us
      → Rounds (Matches rest) vs
      → cs ≡ us ++ vs
      → Rounds (Matches rest) cs
  add_round [] vs cs n m k e = absurd (n refl)
  add_round (u ∷ us) vs cs n m k e = round u us vs m k e

  abbrev Parts : List ℕ → Type 0
  Parts cs =
      (xs : List ℕ) × (ys : List ℕ) × Matches r xs × Rounds (Matches rest) ys × (cs ≡ xs ++ ys)

  from_joined : (cs : List ℕ) → Joined W S cs → Parts cs
  from_joined cs (single w) = (cs, [], (items cs).1 w, done refl, sym (append-nil cs))
  from_joined cs (joined xs a ys w sep j e) = with_rest (from_joined ys j)
    where
      not_empty : (a b : List ℕ) → S a → a ++ b ≡ [] → ⊥
      not_empty [] b h q = proper h
      not_empty (c ∷ a) b h q = cc

      with_rest : Parts ys → Parts cs
      with_rest (us, vs, m, k, q) = (
        xs,
        a ++ ys,
        (items xs).1 w,
        add_round (a ++ us) vs (a ++ ys) (not_empty a us sep) (a, us, (seps a).1 sep, m, refl) k
            (ap (λ t. a ++ t) q ∙ sym (append_assoc a us vs)),
        e,
      )

  joined_iff : (cs : List ℕ) → Matches (seq r (star rest)) cs ↔ Joined W S cs
  joined_iff cs =
      (λ m. let (xs, ys, w, k, e) = m in to_joined xs ys cs ((items xs).0 w) k e, from_joined cs)

letter_iff : (c : ℕ) → (alphanumeric c ≡ true) ↔ IsAlphanumeric c
letter_iff c = ground arith

dash_iff : (c : ℕ) → (eqb c 45 ≡ true) ↔ (c ≡ 45)
dash_iff c = ground arith

module _ (p : ℕ → Bool) (P : ℕ → Type 0) (chars : (c : ℕ) → (p c ≡ true) ↔ P c) where
  all_of : (cs : List ℕ) → Rounds (Matches (one p)) cs → AllOf P cs
  all_of cs (done e) = subst (AllOf P) (sym e) tt
  all_of cs (round x us vs (c, h, q) k e) =
      subst (AllOf P) (sym (e ∙ ap (λ t. t ++ vs) q)) ((chars c).0 h, all_of vs k)

  Rounds-of : (cs : List ℕ) → AllOf P cs → Rounds (Matches (one p)) cs
  Rounds-of [] a = done refl
  Rounds-of (c ∷ cs) a = round c [] cs (c, (chars c).1 a.0, refl) (Rounds-of cs a.1) refl

  to_some : (cs : List ℕ) → Matches (plus (one p)) cs → SomeOf P cs
  to_some cs (xs, ys, (c, h, q), k, e) =
      subst (SomeOf P) (sym (e ∙ ap (λ t. t ++ ys) q)) ((chars c).0 h, all_of ys k)

  from_some : (cs : List ℕ) → SomeOf P cs → Matches (plus (one p)) cs
  from_some [] s = absurd s
  from_some (c ∷ cs) s = (c ∷ [], cs, (c, (chars c).1 s.0, refl), Rounds-of cs s.1, refl)

  some_iff : (cs : List ℕ) → Matches (plus (one p)) cs ↔ SomeOf P cs
  some_iff cs = (to_some cs, from_some cs)

char_iff : (k : ℕ) (cs : List ℕ) → Matches (char k) cs ↔ (cs ≡ k ∷ [])
char_iff k cs = (to, λ e. (k, eqb-refl, e))
  where
    to : Matches (char k) cs → cs ≡ k ∷ []
    to (c, h, e) = let same : c ≡ k = ground arith in rw (← same) e

    eqb-refl : eqb k k ≡ true
    eqb-refl = ground arith

separator_iff : (cs : List ℕ) → Matches separator cs ↔ IsSeparator cs
separator_iff cs = (to, from)
  where
    to : Matches separator cs → IsSeparator cs
    to (inl m) = inl ((char_iff 46 cs).0 m)
    to (inr (inl m)) = inr (inl ((char_iff 95 cs).0 m))
    to (inr (inr (inl (xs, ys, m, k, e)))) =
        let a = (char_iff 95 xs).0 m in
        let b = (char_iff 95 ys).0 k in
        inr (inr (inl (e ∙ ap (λ t. t ++ ys) a ∙ ap (λ t. 95 ∷ t) b)))
    to (inr (inr (inr m))) = inr (inr (inr ((some_iff _ (λ c. c ≡ 45) dash_iff cs).0 m)))

    from : IsSeparator cs → Matches separator cs
    from (inl e) = inl ((char_iff 46 cs).1 e)
    from (inr (inl e)) = inr (inl ((char_iff 95 cs).1 e))
    from (inr (inr (inl e))) = inr (
        inr (
          inl
            (95 ∷ [], 95 ∷ [], (char_iff 95 (95 ∷ [])).1 refl, (char_iff 95 (95 ∷ [])).1 refl, e)))
    from (inr (inr (inr s))) = inr (inr (inr ((some_iff _ (λ c. c ≡ 45) dash_iff cs).1 s)))

proper_separator : IsSeparator [] → ⊥
proper_separator (inl e) = cc
proper_separator (inr (inl e)) = cc
proper_separator (inr (inr (inl e))) = cc
proper_separator (inr (inr (inr s))) = s

component_iff : (cs : List ℕ) → Matches component cs ↔ IsComponent cs
component_iff =
    joined_iff (plus (one alphanumeric)) separator IsWord IsSeparator
      (some_iff alphanumeric IsAlphanumeric letter_iff) separator_iff proper_separator

IsName-iff : (cs : List ℕ) → Matches name_pattern cs ↔ IsName cs
IsName-iff =
    joined_iff component (char 47) IsComponent (λ s. s ≡ 47 ∷ []) component_iff (char_iff 47)
      (λ e. cc)

-- ValidateName accepts a name exactly if it is made of components with slashes between them, each of
-- which is made of words of the letters a to z and digits, with a dot, one or two underscores, or
-- dashes between them; and it gives ErrNameInvalid exactly for any other name.
pub validate_name-IsName :
    (name : String)
    → ((validate_name name ≡ ok tt) ↔ IsName (codes name))
      × ((validate_name name ≡ fail (oci OciError.name_invalid)) ↔ (¬ IsName (codes name)))
validate_name-IsName name =
    let (accepts, refuses) = validate_name_iff name in
    let grammar = IsName-iff (codes name) in
    (
      (λ h. grammar.0 (accepts.0 h), λ m. accepts.1 (grammar.1 m)),
      (λ h m. refuses.0 h (grammar.1 m), λ n. refuses.1 (λ m. n (grammar.0 m))),
    )
