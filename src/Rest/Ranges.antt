-- ===== src/Rest/Ranges.antt =====
-- `parseRangeHeader` and `parseContentRangeHeader` of rest/range.go.
use omnistash.Base.{ℕ, Option, none, some, [], ◌∷◌, eqb, ltb, drop, if◌then◌else◌}
use omnistash.Errors.{Result, ok, fail, Sentinel, local, LocalError}
use omnistash.Name.{codes}
use omnistash.Rest.Paths.{Text, has_prefix}
use omnistash.Rest.Decimal.{is_digit, saturated}

abbrev pub push_digit : ℕ → Text × Text → Text × Text
push_digit c (a, r) = (c ∷ a, r)

-- The longest run of digits at the front, `[0-9]*`, and what follows it.
unfoldable pub span_digits : Text → Text × Text
span_digits [] = ([], [])
span_digits (c ∷ s) =
    let longer = push_digit c (span_digits s) in if is_digit c then longer else ([], c ∷ s)

-- The second group, which the end must follow.
abbrev pub last_group : Text → Text × Text → Option (Text × Text)
last_group a ([], r) = none
last_group a (d ∷ b, []) = some (a, d ∷ b)
last_group a (d ∷ b, x ∷ r) = none

-- The first group, which a dash must follow.
abbrev pub first_group : Text × Text → Option (Text × Text)
first_group ([], r) = none
first_group (c ∷ a, []) = none
first_group (c ∷ a, x ∷ r) = if eqb x b'-' then last_group (c ∷ a) (span_digits r) else none

-- `contentRangeHeaderPattern.FindStringSubmatch`: the groups of `^([0-9]+)-([0-9]+)$`
unfoldable pub content_range_groups : Text → Option (Text × Text)
unfolding span_digits
content_range_groups s = first_group (span_digits s)

-- `rangeHeaderPattern.FindStringSubmatch`: the groups of `^bytes=([0-9]+)-([0-9]+)$`
unfoldable pub range_groups : Text → Option (Text × Text)
unfolding has_prefix
range_groups s = if has_prefix (codes "bytes=") s then content_range_groups (drop 6 s) else none

abbrev pub ordered : Sentinel → ℕ → ℕ → Result (ℕ × ℕ)
ordered e first last = if ltb last first then fail e else ok (first, last)

-- The errors of `ParseInt` are dropped: a number out of range is the largest there is.
abbrev pub bounds : Sentinel → Option (Text × Text) → Result (ℕ × ℕ)
bounds e none = fail e
bounds e (some (a, b)) = ordered e (saturated a) (saturated b)

-- `parseRangeHeader`
unfoldable pub parse_range_header : Text → Result (ℕ × ℕ)
parse_range_header header = bounds (local LocalError.range_header_invalid) (range_groups header)

-- `parseContentRangeHeader`
unfoldable pub parse_content_range_header : Text → Result (ℕ × ℕ)
parse_content_range_header header =
    bounds (local LocalError.content_range_header_invalid) (content_range_groups header)
