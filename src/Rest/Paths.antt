-- ===== src/Rest/Paths.antt =====
-- `splitNamespacedPath` of rest/middleware.go, which searches the code points of the path.
use omnistash.Base.{
  ℕ, zero, suc, String, Bool, true, false, ◌&&◌, Option, none, some, List, [], ◌∷◌, eqb, ltb,
  if◌then◌else◌,
}
use omnistash.Name.{codes}

abbrev pub Text : Type 0
Text = List ℕ

-- `strings.HasPrefix(s, prefix)`
unfoldable pub has_prefix : Text → Text → Bool
has_prefix [] s = true
has_prefix (p ∷ ps) [] = false
has_prefix (p ∷ ps) (c ∷ cs) = eqb p c && has_prefix ps cs

abbrev pub at_start : Bool → Option ℕ
at_start true = some 0
at_start false = none

abbrev pub or_later : Option ℕ → Option ℕ → Option ℕ
or_later (some i) o = some (suc i)
or_later none o = o

-- `strings.LastIndex(s, sep)` for a separator that is not empty; `none` for -1
unfoldable pub last_index : Text → Text → Option ℕ
last_index [] sep = none
last_index (c ∷ cs) sep = or_later (last_index cs sep) (at_start (has_prefix sep (c ∷ cs)))

-- `if idx > bestIdx { bestIdx = idx }`
abbrev pub better : Option ℕ → Option ℕ → Option ℕ
better best none = best
better none (some i) = some i
better (some b) (some i) = if ltb b i then some i else some b

-- The loop over the separators.
unfoldable pub best_index : Text → List Text → Option ℕ → Option ℕ
best_index rest [] best = best
best_index rest (sep ∷ seps) best = best_index rest seps (better best (last_index rest sep))

abbrev pub oci_path_separators : List Text
oci_path_separators =
    codes "/blobs/" ∷ codes "/manifests/" ∷ codes "/tags/" ∷ codes "/referrers/" ∷ []

-- `s[n:]` and `s[:n]`
abbrev pub string_drop : ℕ → String → String
string_drop zero s = s
string_drop (suc n) String.[] = ""
string_drop (suc n) (String.◌∷◌ c s) = string_drop n s

abbrev pub string_take : ℕ → String → String
string_take zero s = ""
string_take (suc n) String.[] = ""
string_take (suc n) (String.◌∷◌ c s) = String.◌∷◌ c (string_take n s)

abbrev pub unless_nameless : String → String → Option (String × String)
unless_nameless String.[] tail = none
unless_nameless (String.◌∷◌ c cs) tail = some (String.◌∷◌ c cs, tail)

abbrev pub split_at : String → Option ℕ → Option (String × String)
split_at rest none = none
split_at rest (some i) = unless_nameless (string_take i rest) (string_drop i rest)

-- `splitNamespacedPath`: the name and the tail, or `none` where the third result is false
unfoldable pub split_namespaced_path : String → Option (String × String)
split_namespaced_path url =
    if has_prefix (codes "/v2/") (codes url)
    then (let rest = string_drop 4 url in
        split_at rest (best_index (codes rest) oci_path_separators none))
    else none
