-- ===== src/Html/Ranges/Large.antt =====
-- Open ranges of files that are too large for an `int` (lib/html/http_ranges.cpp).
use httplib.Base.{
  ℕ, zero, suc, ◌-◌, ◌^◌, ◌≤◌, ◌<◌, ◌≡◌, ◌≢◌, refl, ap, ◌∙◌, true, false, some, [], ◌∷◌, ◌++◌, Text,
  codes, ltb, leb, ◌==◌, All, Lacks, map, arith,
}
use httplib.Util.Trim.{Trimming, is_space, trim_id, All-StartsClean, All-EndsClean}
use httplib.Util.Split.{split}
use httplib.Util.Split.Pieces.{pieces, without_first, pieces-append}
use httplib.Util.Split.Laws.{split-pieces}
use httplib.Html.Ranges.{
  pos, negsuc, int_of_size, sub_size, range, checked, is_digit, digits_from, from_chars, number_or,
  end_of, element_of_numbers, element_of_parts, parse_element,
}
use httplib.Html.Ranges.Bounds.{last_byte, int_of_size-large}

abbrev pub IsDigits : Text → Type 0
IsDigits = All (λ c. is_digit c ≡ true)

IsDigits-Lacks : (s : Text) → IsDigits s → Lacks b'-' s
IsDigits-Lacks [] h = tt
IsDigits-Lacks (c ∷ s) h = (ground (arith, h.0), IsDigits-Lacks s h.1)

IsDigits-clean : (s : Text) → IsDigits s → All (λ c. is_space c ≡ false) s
IsDigits-clean [] h = tt
IsDigits-clean (c ∷ s) h = (ground (arith, h.0), IsDigits-clean s h.1)

trim_digits : (boost : Trimming) (s : Text) → IsDigits s → boost.trim s ≡ s
trim_digits boost s h =
    trim_id boost s (All-StartsClean s (IsDigits-clean s h)) (All-EndsClean s (IsDigits-clean s h))

from_chars-digits :
    (c : ℕ) (s : Text)
    → is_digit c ≡ true
    → digits_from 0 (c ∷ s) < 2 ^ 31
    → from_chars (c ∷ s) ≡ some (pos (digits_from 0 (c ∷ s)))
unfolding from_chars
from_chars-digits c s h k =
    let no_sign : (c == b'-') ≡ false = ground (arith, h) in
    let fits : ltb (digits_from 0 (c ∷ s)) (2 ^ 31) ≡ true = ground (arith, k) in
    rw (no_sign, fits, h) refl

-- An open range has one part, the number.
split-open :
    (boost : Trimming) (c : ℕ) (s : Text)
    → IsDigits (c ∷ s)
    → split boost (c ∷ s ++ b'-' ∷ []) (codes "-") ≡ (c ∷ s) ∷ []
split-open boost c s h =
    split-pieces boost b'-' (c ∷ s ++ b'-' ∷ []) (λ e. cc)
    ∙ ap (map boost.trim) (unmoved ∙ pieces-append b'-' (c ∷ s) [] (IsDigits-Lacks (c ∷ s) h))
    ∙ ap (λ t. t ∷ []) (trim_digits boost (c ∷ s) h)
  where
    unmoved :
        pieces b'-' (without_first b'-' (c ∷ s ++ b'-' ∷ [])) ≡ pieces b'-' (c ∷ s ++ b'-' ∷ [])
    unmoved = ground (arith, h.0)

last-large :
    (file_size : ℕ)
    → 2 ^ 31 < file_size
    → file_size ≤ 2 ^ 32
    → int_of_size (sub_size file_size 1) ≡ negsuc (2 ^ 32 - file_size)
last-large file_size h k =
    rw
      (
        last_byte file_size (omega (arith, h)) (omega (arith, k)),
        int_of_size-large (file_size - 1) (omega (arith, h)) (omega (arith, h, k)),
      )
      (ap negsuc (omega (arith, h, k)))

checked-negative :
    (file_size a e : ℕ)
    → a < file_size
    → checked file_size (pos a) (negsuc e) ≡ range (pos a) (negsuc e)
unfolding checked
checked-negative file_size zero e h = refl
checked-negative file_size (suc a) e h =
    let within : leb file_size (suc a) ≡ false = ground (arith, h) in rw within refl

-- For a file of more than 2^31 and up to 2^32 bytes, an open range `N-` of a number N below 2^31 is
-- taken, but as a range with a negative end, the size less 2^32 and one.
pub parse_element-large :
    (boost : Trimming) (file_size : ℕ) (digits : Text)
    → 2 ^ 31 < file_size
    → file_size ≤ 2 ^ 32
    → digits ≢ []
    → IsDigits digits
    → digits_from 0 digits < 2 ^ 31
    → parse_element boost file_size (digits ++ b'-' ∷ [])
      ≡ some (range (pos (digits_from 0 digits)) (negsuc (2 ^ 32 - file_size)))
unfolding parse_element element_of_parts element_of_numbers end_of number_or
parse_element-large boost file_size [] h k some_byte d small = absurd (some_byte refl)
parse_element-large boost file_size (c ∷ s) h k some_byte d small =
    ap (element_of_parts boost file_size) (split-open boost c s d)
    ∙ rw (trim_digits boost (c ∷ s) d, from_chars-digits c s d.0 small, last-large file_size h k)
        (ap some (
          checked-negative file_size (digits_from 0 (c ∷ s)) (2 ^ 32 - file_size)
            (omega (arith, h, small))))
