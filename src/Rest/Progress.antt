-- ===== src/Rest/Progress.antt =====
-- The `Range` headers that tell a client how far an upload is.
use omnistash.Base.{ℕ, zero, suc, ◌-◌, ◌<◌, ◌≡◌, refl, arith}
use omnistash.Errors.{ok, fail, local, LocalError}
use omnistash.Rest.Decimal.{format_nat, int64_end}
use omnistash.Rest.Ranges.{parse_content_range_header, content_range_groups, span_digits}
use omnistash.Rest.Parsed.{parse_headers-printed}
use omnistash.Rest.Uploads.{appended_range, status_range}

-- Of an upload that is not empty and shorter than 2 ^ 63, the header of the answer to a chunk and
-- that of the answer to a status request are one, and are read back as the range of all its bytes.
-- Of an empty upload, the answer to a chunk has a header that is refused, and the answer to a status
-- request has that of an upload of one byte.
pub progress-parsed :
    (offset : ℕ)
    → 0 < offset
    → offset < int64_end
    → (appended_range offset ≡ status_range offset)
      × (parse_content_range_header (appended_range offset) ≡ ok (0, offset - 1))
      × (parse_content_range_header (appended_range 0)
          ≡ fail (local LocalError.content_range_header_invalid))
      × (status_range 0 ≡ status_range 1)
unfolding parse_content_range_header content_range_groups span_digits format_nat
progress-parsed zero p h = absurd (omega arith)
progress-parsed (suc n) p h =
    let before : suc n - 1 ≡ n = omega arith in
    rw before (refl, (parse_headers-printed 0 n (omega arith) (omega arith)).1, refl, refl)
