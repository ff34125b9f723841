-- ===== src/Name.antt =====
-- internal/namespace/validate.go: repository names.
pub mod Components
pub mod Grammar
use Prim.Native.Char.{code}
use omnistash.Base.{ℕ, String, Bool, true, false, ◌||◌, ◌&&◌, List, [], ◌∷◌, ◌==◌, string_eq}
use mathlib.Core.Path.{subst}
use omnistash.Base.{◌≡◌, ◌↔◌, arith, Bool-cases, inl, inr, ◌≢◌, leb, eqb, if◌then◌else◌}
use omnistash.Errors.{Result, ok, fail, oci, OciError}
use omnistash.Regexp.{Regex, one, seq, alt, star, plus, matches, Matches, matches_iff}

-- The code points of a text.
abbrev pub codes : String → List ℕ
codes String.[] = []
codes (String.◌∷◌ c s) = code c ∷ codes s

-- `[a-z0-9]`
abbrev pub alphanumeric : ℕ → Bool
alphanumeric c = (leb b'a' c && leb c b'z') || (leb b'0' c && leb c b'9')

abbrev pub char : ℕ → Regex
char k = one (λ c. eqb c k)

-- `\.|_|__|-+`
abbrev pub separator : Regex
separator = alt (char b'.') (alt (char b'_') (alt (seq (char b'_') (char b'_')) (plus (char b'-'))))

-- `[a-z0-9]+((\.|_|__|-+)[a-z0-9]+)*`
abbrev pub component : Regex
component = seq (plus (one alphanumeric)) (star (seq separator (plus (one alphanumeric))))

-- `namePattern`
abbrev pub name_pattern : Regex
name_pattern = seq component (star (seq (char b'/') component))

-- `ValidateName`
unfoldable pub validate_name : String → Result (Unit {0})
validate_name name =
    if name == ""
    then fail (oci OciError.name_invalid)
    else if matches name_pattern (codes name)
    then ok tt
    else fail (oci OciError.name_invalid)

empty_text : (name : String) → matches name_pattern (codes name) ≡ true → name ≢ ""
unfolding matches
empty_text name h e =
    let k : matches name_pattern [] ≡ true =
      subst (λ s. matches name_pattern (codes s) ≡ true) e h in
    cc

empty_refused : (name : String) → matches name_pattern (codes name) ≡ true → (name == "") ≡ false
empty_refused name h = ground (arith, empty_text name h)

-- A name is accepted exactly if it is in the language of the pattern, and gives `ErrNameInvalid`
-- exactly if it is not.
pub validate_name_iff :
    (name : String)
    → ((validate_name name ≡ ok tt) ↔ Matches name_pattern (codes name))
      × ((validate_name name ≡ fail (oci OciError.name_invalid))
          ↔ (¬ Matches name_pattern (codes name)))
unfolding validate_name
validate_name_iff name =
    let decided = matches_iff name_pattern (codes name) in
    (
      (λ h. decided.0 (ground arith), λ m. rw (empty_refused name (decided.1 m), decided.1 m)),
      (
        λ h m. ground (arith, h, empty_refused name (decided.1 m), decided.1 m),
        λ n. elim (Bool-cases (matches name_pattern (codes name))) [
          | inl e ↦ absurd (n (decided.0 e))
          | inr e ↦ rw e (ground arith)
        ],
      ),
    )
