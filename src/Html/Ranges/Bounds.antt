-- ===== src/Html/Ranges/Bounds.antt =====
-- What one element of the header gives in `http_ranges::parse` (lib/html/http_ranges.cpp).
use httplib.Base.{
  ℕ, zero, suc, ◌-◌, ◌^◌, ◌≤◌, ◌<◌, ◌≡◌, ◌≢◌, refl, sym, ap, ◌∙◌, ◌&&◌, ◌||◌, [], ◌∷◌, ◌++◌, Text,
  codes, leb, ◌==◌, if◌then◌else◌, inl, inr, Bool-cases, arith, Lacks, map,
}
use httplib.Util.Trim.{Trimming}
use httplib.Util.Split.{split}
use httplib.Util.Split.Pieces.{pieces, without_first, pieces-append, pieces-Lacks}
use httplib.Util.Split.Laws.{split-pieces}
use httplib.Html.Ranges.{
  pos, negsuc, is_positive, int_of_size, sub_size, refused, range, checked, element_of_parts,
  parse_element,
}

-- An element `-N`, a suffix range, is read exactly as the element `N-`, for any text N that is not
-- empty and has no minus sign.
pub parse_element-suffix :
    (boost : Trimming) (file_size : ℕ) (digits : Text)
    → digits ≢ []
    → Lacks b'-' digits
    → parse_element boost file_size (b'-' ∷ digits)
      ≡ parse_element boost file_size (digits ++ b'-' ∷ [])
unfolding parse_element
parse_element-suffix boost file_size [] h k = absurd (h refl)
parse_element-suffix boost file_size (c ∷ s) h k =
    ap (element_of_parts boost file_size) (front ∙ sym back)
  where
    unmoved :
        pieces b'-' (without_first b'-' (c ∷ s ++ b'-' ∷ [])) ≡ pieces b'-' (c ∷ s ++ b'-' ∷ [])
    unmoved = ground (arith, k.0)

    front : split boost (b'-' ∷ c ∷ s) (codes "-") ≡ boost.trim (c ∷ s) ∷ []
    front =
        split-pieces boost b'-' (b'-' ∷ c ∷ s) (λ e. cc)
        ∙ ap (map boost.trim) (pieces-Lacks b'-' (c ∷ s) k)

    back : split boost (c ∷ s ++ b'-' ∷ []) (codes "-") ≡ boost.trim (c ∷ s) ∷ []
    back =
        split-pieces boost b'-' (c ∷ s ++ b'-' ∷ []) (λ e. cc)
        ∙ ap (map boost.trim) (unmoved ∙ pieces-append b'-' (c ∷ s) [] k)

pub last_byte : (n : ℕ) → 0 < n → n ≤ 2 ^ 64 → sub_size n 1 ≡ n - 1
unfolding sub_size
last_byte n h k = omega (arith, h, k)

pub int_of_size-small : (n : ℕ) → n < 2 ^ 31 → int_of_size n ≡ pos n
unfolding int_of_size
int_of_size-small n h = ground (arith, h)

pub int_of_size-large : (n : ℕ) → 2 ^ 31 ≤ n → n < 2 ^ 32 → int_of_size n ≡ negsuc (2 ^ 32 - 1 - n)
unfolding int_of_size
int_of_size-large n h k = ground (arith, h, k)

-- The largest end that a range may have.
abbrev pub clamped : ℕ → ℕ → ℕ
clamped file_size end = if leb file_size end then file_size - 1 else end

pub clamp :
    (file_size b : ℕ)
    → 0 < file_size
    → file_size ≤ 2 ^ 31
    → (if is_positive (pos b) && leb file_size b then int_of_size (sub_size file_size 1) else pos b)
      ≡ pos (clamped file_size b)
clamp file_size zero h k = ground (arith, h)
clamp file_size (suc b) h k =
    rw
      (
        last_byte file_size h (omega (arith, k)),
        int_of_size-small (file_size - 1) (omega (arith, h, k)),
      )
      (elim (Bool-cases (leb file_size (suc b))) [ inl e ↦ rw e refl | inr e ↦ rw e refl ])

-- For a file of up to 2^31 bytes that is not empty, two numbers make a range that ends in the file,
-- at the second number if that lies in it. They are refused if the first is not zero and lies
-- behind the file or equals the second; a first number above the second is let through.
pub checked-small :
    (file_size a b : ℕ)
    → 0 < file_size
    → file_size ≤ 2 ^ 31
    → checked file_size (pos a) (pos b) ≡ (
        if is_positive (pos a) && (leb file_size a || a == b)
        then refused
        else range (pos a) (pos (clamped file_size b)))
unfolding checked
checked-small file_size a b h k =
    elim (Bool-cases (is_positive (pos a) && (leb file_size a || a == b))) [
      | inl e ↦ rw e refl
      | inr e ↦ rw e (ap (range (pos a)) (clamp file_size b h k))
    ]
