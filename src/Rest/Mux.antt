-- ===== src/Rest/Mux.antt =====
-- `ServeMux` of `net/http`, for the patterns that rest/routes.go uses.
--
-- A pattern is sought for the clean form of a path, which begins with a slash, and where an empty
-- segment is the last one. A path that is not clean is redirected to its clean form.
use omnistash.Base.{String, Bool, true, false, ◌&&◌, ◌||◌, Option, none, some, List, [], ◌∷◌}
use omnistash.Base.{◌==◌, ◌<>◌, ◌++◌, string_eq, not, length, eqb, if◌then◌else◌}
use Prim.Native.Char.{Char, code}

-- A segment of a pattern: `name`, `{name}`, `{name...}` or the trailing slash, and `{$}`.
pub data Segment : Type 0 where
  literal : String → Segment
  wildcard multi end : Segment

abbrev pub push_char : Char → List String → List String
push_char c [] = String.◌∷◌ c "" ∷ []
push_char c (s ∷ ss) = String.◌∷◌ c s ∷ ss

-- The segments of what follows the first slash.
unfoldable pub split_slashes : String → List String
split_slashes String.[] = "" ∷ []
split_slashes (String.◌∷◌ c s) =
    let rest = split_slashes s in if eqb (code c) b'/' then "" ∷ rest else push_char c rest

unfoldable pub segments : String → List String
unfolding split_slashes
segments String.[] = []
segments (String.◌∷◌ c s) = if eqb (code c) b'/' then split_slashes s else []

abbrev pub join_slashes : List String → String
join_slashes [] = ""
join_slashes (s ∷ []) = s
join_slashes (s ∷ t ∷ ss) = s <> ("/" <> join_slashes (t ∷ ss))

abbrev pub capture : String → Option String → Option String
capture s none = none
capture s (some v) = some s

-- The value of the wildcard, which each pattern has at most one of; the empty text where it has none.
unfoldable pub match_segments : List Segment → List String → Option String
match_segments [] [] = some ""
match_segments [] (s ∷ ss) = none
match_segments (p ∷ ps) [] = none
match_segments (Segment.literal l ∷ ps) (s ∷ ss) =
    let rest = match_segments ps ss in if s == l then rest else none
match_segments (Segment.wildcard ∷ ps) (s ∷ ss) =
    let rest = match_segments ps ss in if s == "" then none else capture s rest
match_segments (Segment.multi ∷ ps) (s ∷ ss) = some (join_slashes (s ∷ ss))
match_segments (Segment.end ∷ ps) (String.[] ∷ []) = some ""
match_segments (Segment.end ∷ ps) (String.[] ∷ s ∷ ss) = none
match_segments (Segment.end ∷ ps) (String.◌∷◌ c s ∷ ss) = none

abbrev pub ends_in_slash : List String → Bool
ends_in_slash [] = false
ends_in_slash (s ∷ []) = s == ""
ends_in_slash (s ∷ t ∷ ss) = ends_in_slash (t ∷ ss)

abbrev pub ends_in_multi : List Segment → Bool
ends_in_multi [] = false
ends_in_multi (Segment.literal l ∷ ps) = ends_in_multi ps
ends_in_multi (Segment.wildcard ∷ ps) = ends_in_multi ps
ends_in_multi (Segment.end ∷ ps) = ends_in_multi ps
ends_in_multi (Segment.multi ∷ ps) = true

-- Not a match by a trailing wildcard that stands for something.
abbrev pub is_exact : List Segment → List String → Bool
is_exact ps path = not (ends_in_multi ps) || (ends_in_slash path && eqb (length ps) (length path))

abbrev pub is_some : Option String → Bool
is_some none = false
is_some (some v) = true

-- The handlers behind the patterns. The method of a pattern without one is the empty text.
abbrev pub Registered : Type 0 → Type 0
Registered H = List (String × (List Segment × H))

-- A pattern that matches, its handler, and the value of the wildcard.
abbrev pub Match : Type 0 → Type 0
Match H = List Segment × (H × String)

module _ {H : Type 0} where
  abbrev pub first_match : Option (Match H) → Option (Match H) → Option (Match H)
  first_match (some m) o = some m
  first_match none o = o

  abbrev pub found : List Segment → H → Option String → Option (Match H)
  found ps h none = none
  found ps h (some v) = some (ps, (h, v))

  -- The handler for the method and the path. No two of the registered patterns with one method
  -- match one path, so the order is of no account.
  unfoldable pub find_method : String → List String → Registered H → Option (Match H)
  unfolding match_segments
  find_method method path [] = none
  find_method method path ((m, (ps, h)) ∷ rows) =
      let rest = find_method method path rows in
      if m == method then first_match (found ps h (match_segments ps path)) rest else rest

  -- The patterns with the method go first, then for HEAD those with GET, then those without one.
  unfoldable pub find_handler : String → List String → Registered H → Option (Match H)
  find_handler method path rows =
      let exact = find_method method path rows in
      let any = find_method "" path rows in
      if method == "HEAD"
      then first_match exact (first_match (find_method "GET" path rows) any)
      else first_match exact any

  abbrev pub exact_match : List String → Option (Match H) → Bool
  exact_match path none = false
  exact_match path (some (ps, m)) = is_exact ps path

  -- Whether the path is redirected to the path with a slash behind it.
  unfoldable pub wants_slash : String → List String → Registered H → Bool
  wants_slash method path rows =
      let longer = path ++ ("" ∷ []) in
      not (exact_match path (find_handler method path rows))
      && (not (ends_in_slash path) && exact_match longer (find_handler method longer rows))

  abbrev pub any_pattern : List String → Registered H → Bool
  any_pattern path [] = false
  any_pattern path ((m, (ps, h)) ∷ rows) = is_some (match_segments ps path) || any_pattern path rows

  -- Whether a pattern has the path, with or without a slash behind it, whatever its method.
  unfoldable pub any_method : List String → Registered H → Bool
  any_method path rows =
      any_pattern path rows || (not (ends_in_slash path) && any_pattern (path ++ ("" ∷ [])) rows)
