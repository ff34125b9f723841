-- ===== src/Name/Components.antt =====
-- The components of the names that internal/namespace/validate.go accepts, which become directories.
use omnistash.Base.{
  ℕ, ◌≡◌, refl, ◌∙◌, String, string_eq, Bool, true, false, ◌&&◌, not, List, [], ◌∷◌, ◌++◌, inl, inr,
  eqb, arith,
}
use omnistash.Errors.{ok}
use omnistash.Regexp.{Regex, never, empty, one, seq, alt, star, Matches, Rounds, done, round}
use omnistash.Name.{codes, alphanumeric, char, component, validate_name, validate_name_iff}

-- Every component is not empty and begins with a letter or a digit. The flag says that a component
-- begins here.
abbrev pub has_plain_components : Bool → List ℕ → Bool
has_plain_components starts [] = not starts
has_plain_components true (c ∷ s) = alphanumeric c && has_plain_components false s
has_plain_components false (c ∷ s) = has_plain_components (eqb c b'/') s

abbrev AllOf : (ℕ → Bool) → List ℕ → Type 0
AllOf p [] = Unit
AllOf p (c ∷ s) = (p c ≡ true) × AllOf p s

-- Every character class of the expression is within the predicate.
abbrev Within : (ℕ → Bool) → Regex → Type 0
Within p never = Unit
Within p empty = Unit
Within p (one q) = (c : ℕ) → q c ≡ true → p c ≡ true
Within p (seq r s) = Within p r × Within p s
Within p (alt r s) = Within p r × Within p s
Within p (star r) = Within p r

module _ (p : ℕ → Bool) where
  append-AllOf : (s t : List ℕ) → AllOf p s → AllOf p t → AllOf p (s ++ t)
  append-AllOf [] t h k = k
  append-AllOf (c ∷ s) t h k = (h.0, append-AllOf s t h.1 k)

  Rounds-AllOf :
      {P : List ℕ → Type 0} {cs : List ℕ}
      → ((xs : List ℕ) → P xs → AllOf p xs)
      → Rounds P cs
      → AllOf p cs
  Rounds-AllOf h (done e) = rw e tt
  Rounds-AllOf h (round x xs ys m more e) =
      rw e (append-AllOf (x ∷ xs) ys (h (x ∷ xs) m) (Rounds-AllOf h more))

  Matches-AllOf : (r : Regex) (cs : List ℕ) → Within p r → Matches r cs → AllOf p cs
  Matches-AllOf never cs h m = absurd m
  Matches-AllOf empty cs h m = rw m tt
  Matches-AllOf (one q) cs h (c, k, e) = rw e (h c k, tt)
  Matches-AllOf (seq r s) cs h (xs, ys, m, k, e) =
      rw e (append-AllOf xs ys (Matches-AllOf r xs h.0 m) (Matches-AllOf s ys h.1 k))
  Matches-AllOf (alt r s) cs h (inl m) = Matches-AllOf r cs h.0 m
  Matches-AllOf (alt r s) cs h (inr m) = Matches-AllOf s cs h.1 m
  Matches-AllOf (star r) cs h m = Rounds-AllOf (λ xs. Matches-AllOf r xs h) m

abbrev inner : ℕ → Bool
inner c = not (eqb c b'/')

component-Within : Within inner component
component-Within = ground arith

skip :
    (s t : List ℕ)
    → AllOf inner s
    → has_plain_components false (s ++ t) ≡ has_plain_components false t
skip [] t h = refl
skip (c ∷ s) t h = ground (arith, h.0, skip s t h.1)

-- A component begins with a letter or a digit.
abbrev Begins : List ℕ → Type 0
Begins [] = ⊥
Begins (c ∷ s) = alphanumeric c ≡ true

begins : (cs : List ℕ) → Matches component cs → Begins cs
begins cs (xs, ys, (us, vs, (c, k, e1), more, e2), rest, e) = rw (e, e2, e1) k

first-component :
    (cs t : List ℕ)
    → Begins cs
    → AllOf inner cs
    → has_plain_components true (cs ++ t) ≡ has_plain_components false t
first-component [] t h k = absurd h
first-component (c ∷ cs) t h k = ground (arith, h, skip cs t k.1)

component_lem :
    (cs t : List ℕ)
    → Matches component cs
    → has_plain_components true (cs ++ t) ≡ has_plain_components false t
component_lem cs t m =
    first-component cs t (begins cs m) (Matches-AllOf inner component cs component-Within m)

abbrev next_component : Regex
next_component = seq (char b'/') component

behind_slash :
    (cs t : List ℕ)
    → Matches next_component cs
    → has_plain_components false (cs ++ t) ≡ has_plain_components false t
behind_slash cs t (xs, ys, (c, k, e1), m, e) = rw (e, e1) (ground (arith, k, component_lem ys t m))

later_components :
    {cs : List ℕ} → Rounds (Matches next_component) cs → has_plain_components false cs ≡ true
later_components (done e) = rw e refl
later_components (round x xs ys m more e) =
    rw e (behind_slash (x ∷ xs) ys m ∙ later_components more)

-- Every component of a name that `ValidateName` accepts is not empty and begins with a letter or a
-- digit; so none is `.`, `..` or `.staging`.
pub validate_name-components :
    (name : String) → validate_name name ≡ ok tt → has_plain_components true (codes name) ≡ true
validate_name-components name h =
    let (xs, ys, m, more, e) = (validate_name_iff name).0.0 h in
    rw e (component_lem xs ys m ∙ later_components more)
