-- ===== src/Rest/Parsed.antt =====
-- What the range headers of rest/range.go are, and what is read from them.
use omnistash.Base.{
  ℕ, ◌≤◌, ◌<◌, ◌≡◌, ◌≢◌, ◌↔◌, ◌⊎◌, refl, ap, ◌∙◌, Bool, true, false, Option, none, some,
}
use omnistash.Base.{[], ◌∷◌, ◌++◌, eqb, arith, Bool-cases, inl, inr}
use mathlib.Core.Path.{ap₂}
use mathlib.Core.List.{append-nil}
use omnistash.Errors.{ok, Sentinel}
use omnistash.Name.{codes}
use omnistash.Rest.Paths.{Text}
use omnistash.Rest.Decimal.{is_digit, all_digits, format_nat, int64_end}
use omnistash.Rest.Decimal.{
  all_digits-format_nat, format_nat-ne-nil, saturated-format_nat, saturated-lt,
}
use omnistash.Rest.Ranges.{
  push_digit, span_digits, last_group, first_group, content_range_groups, range_groups,
}
use omnistash.Rest.Ranges.{bounds, parse_range_header, parse_content_range_header}

-- The text does not begin with a digit.
abbrev ends : Text → Bool
ends [] = true
ends (x ∷ r) = elim (is_digit x) [ true ↦ false | false ↦ true ]

span-append : (a r : Text) → all_digits a ≡ true → ends r ≡ true → span_digits (a ++ r) ≡ (a, r)
unfolding span_digits
span-append [] [] d e = refl
span-append [] (x ∷ r) d e = ground arith
span-append (c ∷ a) r d e = ground (arith, span-append a r)

-- A text is split into digits and a rest.
abbrev IsSpan : Text → Text × Text → Type 0
IsSpan s (a, r) = (s ≡ a ++ r) × (all_digits a ≡ true)

push-IsSpan :
    (c : ℕ) (s : Text) (p : Text × Text)
    → is_digit c ≡ true
    → IsSpan s p
    → IsSpan (c ∷ s) (push_digit c p)
push-IsSpan c s (a, r) d h = (ap (λ t. c ∷ t) h.0, ground (arith, d))

span_digits-IsSpan : (s : Text) → IsSpan s (span_digits s)
unfolding span_digits
span_digits-IsSpan [] = (refl, refl)
span_digits-IsSpan (c ∷ s) = elim (Bool-cases (is_digit c)) [
  | inl d ↦ rw d (push-IsSpan c s (span_digits s) d (span_digits-IsSpan s))
  | inr d ↦ rw d (refl, refl)
]

-- The groups of `^([0-9]+)-([0-9]+)$`: digits on both sides of a dash, which make up the text.
abbrev pub AreGroups : Text → Text → Text → Type 0
AreGroups s a b =
    (s ≡ a ++ (b'-' ∷ b)) × (a ≢ []) × (all_digits a ≡ true) × (b ≢ []) × (all_digits b ≡ true)

span-all : (b : Text) → all_digits b ≡ true → span_digits b ≡ (b, [])
unfolding span_digits
span-all [] d = refl
span-all (c ∷ b) d = ground (arith, span-all b)

groups_complete : (s a b : Text) → AreGroups s a b → content_range_groups s ≡ some (a, b)
unfolding content_range_groups
groups_complete s [] b h = absurd (h.1 refl)
groups_complete s (x ∷ a) [] h = absurd (h.3 refl)
groups_complete s (x ∷ a) (y ∷ b) (whole, a_some, a_digits, b_some, b_digits) =
    rw (whole, span-append (x ∷ a) (b'-' ∷ (y ∷ b)) a_digits refl, span-all (y ∷ b) b_digits)

last_sound :
    (p r : Text) (q : Text × Text) (a b : Text)
    → IsSpan r q
    → last_group p q ≡ some (a, b)
    → (p ≡ a) × (r ≡ b) × (b ≢ []) × (all_digits b ≡ true)
last_sound p r ([], t) a b h e = cc
last_sound p r (d ∷ q, []) a b h e =
    let same : (p ≡ a) × (d ∷ q ≡ b) = ground (arith, e) in
    (same.0, h.0 ∙ append-nil (d ∷ q) ∙ same.1, ground (arith, same.1), rw (← same.1) h.1)
last_sound p r (d ∷ q, x ∷ t) a b h e = cc

dash : (x : ℕ) → eqb x b'-' ≡ true → x ≡ b'-'
dash x d = ground arith

first_sound :
    (s : Text) (p : Text × Text) (a b : Text)
    → IsSpan s p
    → first_group p ≡ some (a, b)
    → AreGroups s a b
first_sound s ([], r) a b h e = cc
first_sound s (c ∷ p, []) a b h e = cc
first_sound s (c ∷ p, x ∷ r) a b h e = elim (Bool-cases (eqb x b'-')) [
  | inl d ↦
      let (same, rest, some_b, digits_b) =
        last_sound (c ∷ p) r (span_digits r) a b (span_digits-IsSpan r) (ground (arith, e, d)) in
      (
        h.0 ∙ ap₂ (λ t u. t ++ u) same (ap₂ (λ y t. y ∷ t) (dash x d) rest),
        ground (arith, same),
        rw (← same) h.1,
        some_b,
        digits_b,
      )
  | inr d ↦ absurd (ground (arith, e, d))
]

-- `contentRangeHeaderPattern` has the groups `a` and `b` on a header exactly if both are runs of
-- digits, not empty, and the header is the two with a dash between them.
pub content_range_groups_iff :
    (s a b : Text) → (content_range_groups s ≡ some (a, b)) ↔ AreGroups s a b
unfolding content_range_groups
content_range_groups_iff s a b =
    (λ e. first_sound s (span_digits s) a b (span_digits-IsSpan s) e, groups_complete s a b)

-- The text of an inclusive range.
abbrev pub printed : ℕ → ℕ → Text
printed first last = format_nat first ++ (b'-' ∷ format_nat last)

module _ (first last : ℕ) where
  printed-AreGroups : AreGroups (printed first last) (format_nat first) (format_nat last)
  printed-AreGroups = (
    refl,
    format_nat-ne-nil first,
    all_digits-format_nat first,
    format_nat-ne-nil last,
    all_digits-format_nat last,
  )

  bounds-printed :
      (e : Sentinel)
      → first ≤ last
      → last < int64_end
      → bounds e (some (format_nat first, format_nat last)) ≡ ok (first, last)
  bounds-printed e order within =
      rw (saturated-format_nat first (omega arith), saturated-format_nat last within) (ground arith)

  -- A range of 64 bit numbers is read back from the two headers that name it.
  pub parse_headers-printed :
      first ≤ last
      → last < int64_end
      → (parse_range_header (codes "bytes=" ++ printed first last) ≡ ok (first, last))
        × (parse_content_range_header (printed first last) ≡ ok (first, last))
  unfolding parse_range_header parse_content_range_header range_groups
  parse_headers-printed order within = (
    rw (groups_complete _ _ _ printed-AreGroups) (bounds-printed _ order within),
    rw (groups_complete _ _ _ printed-AreGroups) (bounds-printed _ order within),
  )

bounds_sound :
    (e : Sentinel) (o : Option (Text × Text)) (first last : ℕ)
    → bounds e o ≡ ok (first, last)
    → (first ≤ last) × (last < int64_end)
bounds_sound e none first last h = cc
bounds_sound e (some (a, b)) first last h = ground (arith, h, saturated-lt b)

-- A range that is read from either header begins no later than it ends and lies within 64 bits.
pub parse_headers_bounds :
    (s : Text) (first last : ℕ)
    → (parse_range_header s ≡ ok (first, last)) ⊎ (parse_content_range_header s ≡ ok (first, last))
    → (first ≤ last) × (last < int64_end)
unfolding parse_range_header parse_content_range_header
parse_headers_bounds s first last (inl h) = bounds_sound _ _ first last h
parse_headers_bounds s first last (inr h) = bounds_sound _ _ first last h
