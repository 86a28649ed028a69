-- ===== src/Html/Ranges/Within.antt =====
-- Where the ranges lie that `http_ranges::parse` (lib/html/http_ranges.cpp) gives.
use httplib.Base.{
  ℕ, zero, suc, ◌-◌, ◌^◌, ◌≤◌, ◌<◌, ◌≡◌, refl, sym, ap, subst, false, ◌&&◌, ◌||◌, Option, none,
  some, List, [], ◌∷◌, Text, codes, null, leb, eq_text, starts_with, find, drop, ◌==◌, inl, inr,
  Bool-cases, All, Lacks, arith,
}
use httplib.Util.Trim.{Trimming}
use httplib.Util.Split.{split}
use httplib.Util.Split.Lacks.{trim-Lacks, split-Lacks}
use httplib.Html.Ranges.{
  ℤ, pos, negsuc, size_of_int, is_positive, int_of_size, int64_of_size, sub_size, Element, refused,
  range, checked, number_or, end_of, element_of_numbers, element_of_parts, parse_element,
  put_before, parse_elements, is_found, parse_set, Parsed, failed, parsed, Ranges, parse,
}
use httplib.Html.Ranges.Numbers.{
  IsStart, number, absent, IsNatural, MayStart, number_or-MayStart, number_or-IsNatural,
}
use httplib.Html.Ranges.Bounds.{int_of_size-small, clamped, clamp, checked-small}

-- Behind the start of the file, at its size or before it; and before its size.
abbrev pub IsWithin : ℕ → ℤ × ℤ → Type 0
IsWithin file_size (pos first, pos last) = (first ≤ file_size) × (last < file_size)
IsWithin file_size (first, last) = ⊥

abbrev IsFine : ℕ → Element → Type 0
IsFine file_size refused = Unit
IsFine file_size (range first last) = IsWithin file_size (first, last)

abbrev AllWithin : ℕ → Option Parsed → Type 0
AllWithin file_size none = Unit
AllWithin file_size (some failed) = Unit
AllWithin file_size (some (parsed ranges)) = All (IsWithin file_size) ranges

clamped-lt : (file_size b : ℕ) → 0 < file_size → clamped file_size b < file_size
clamped-lt file_size b h = ground (arith, h)

sub_size-le : (n m : ℕ) → m ≤ n → n < 2 ^ 31 → sub_size n m ≡ n - m
unfolding sub_size
sub_size-le n m h k = omega (arith, h, k)

int64_of_size-small : (n : ℕ) → n < 2 ^ 31 → int64_of_size n ≡ pos n
unfolding int64_of_size
int64_of_size-small n h = ground (arith, h)

module _ (file_size : ℕ) (h : 0 < file_size) (k : file_size < 2 ^ 31) where
  checked-absent :
      (b : ℕ)
      → checked file_size (negsuc 0) (pos b)
        ≡ range
            (int_of_size (sub_size file_size (clamped file_size b)))
            (int_of_size (sub_size file_size 1))
  unfolding checked
  checked-absent b =
      ap
        (λ e.
          range (int_of_size (sub_size file_size (size_of_int e)))
            (int_of_size (sub_size file_size 1)))
        (clamp file_size b h (omega (arith, k)))

  checked-IsFine :
      {start : ℤ} (b : ℕ) → IsStart start → IsFine file_size (checked file_size start (pos b))
  checked-IsFine b (number a) =
      subst (IsFine file_size) (sym (checked-small file_size a b h (omega (arith, k))))
        (elim (Bool-cases (is_positive (pos a) && (leb file_size a || a == b))) [
          | inl e ↦ rw e tt
          | inr e ↦ rw e (starts_within a e, clamped-lt file_size b h)
        ])
    where
      starts_within :
          (a : ℕ) → (is_positive (pos a) && (leb file_size a || a == b)) ≡ false → a ≤ file_size
      starts_within zero e = omega arith
      starts_within (suc a) e = ground (arith, e)
  checked-IsFine b absent =
      let m = clamped file_size b in
      let below = clamped-lt file_size b h in
      subst (IsFine file_size) (sym (checked-absent b)) (
        rw
          (
            sub_size-le file_size m (omega (arith, below)) k,
            sub_size-le file_size 1 h k,
            int_of_size-small (file_size - m) (omega (arith, k)),
            int_of_size-small (file_size - 1) (omega (arith, k)),
          )
          (omega arith, omega (arith, h)))

  -- The end that is taken where the header has none.
  last-small : int_of_size (sub_size file_size 1) ≡ pos (file_size - 1)
  last-small =
      rw (sub_size-le file_size 1 h k, int_of_size-small (file_size - 1) (omega (arith, k))) refl

module _ (boost : Trimming) (file_size : ℕ) (h : 0 < file_size) (k : file_size < 2 ^ 31) where
  element_of_numbers-IsFine :
      (start end : Option ℤ)
      → MayStart start
      → IsNatural end
      → IsFine file_size (element_of_numbers file_size start end)
  unfolding element_of_numbers
  element_of_numbers-IsFine none end s e = tt
  element_of_numbers-IsFine (some start) none s e = tt
  element_of_numbers-IsFine (some start) (some (pos b)) s e = checked-IsFine file_size h k b s
  element_of_numbers-IsFine (some start) (some (negsuc b)) s e = absurd e

  end_of-IsNatural :
      (others : List Text) → All (Lacks b'-') others → IsNatural (end_of boost file_size others)
  unfolding end_of
  end_of-IsNatural [] l = rw (last-small file_size h k) tt
  end_of-IsNatural (second ∷ others) l =
      rw (last-small file_size h k)
        (number_or-IsNatural (file_size - 1) (boost.trim second) (trim-Lacks boost b'-' second l.0))

  abbrev MayBeFine : Option Element → Type 0
  MayBeFine none = Unit
  MayBeFine (some e) = IsFine file_size e

  element_of_parts-IsFine :
      (parts : List Text)
      → All (Lacks b'-') parts
      → MayBeFine (element_of_parts boost file_size parts)
  unfolding element_of_parts
  element_of_parts-IsFine [] l = tt
  element_of_parts-IsFine (first ∷ others) l =
      element_of_numbers-IsFine (number_or (negsuc 0) (boost.trim first))
        (end_of boost file_size others)
        (number_or-MayStart (boost.trim first) (trim-Lacks boost b'-' first l.0))
        (end_of-IsNatural others l.1)

  put_before-AllWithin :
      (e : Element) (rest : Option Parsed)
      → IsFine file_size e
      → AllWithin file_size rest
      → AllWithin file_size (put_before e rest)
  put_before-AllWithin refused rest f r = tt
  put_before-AllWithin (range start end) none f r = tt
  put_before-AllWithin (range start end) (some failed) f r = tt
  put_before-AllWithin (range start end) (some (parsed ranges)) f r = (f, r)

  parse_elements-AllWithin :
      (elements : List Text) → AllWithin file_size (parse_elements boost file_size elements)
  unfolding parse_elements parse_element
  parse_elements-AllWithin [] = tt
  parse_elements-AllWithin (r ∷ rs) =
      by_element (parse_element boost file_size r) (parse_elements boost file_size rs)
        (element_of_parts-IsFine (split boost r (codes "-")) (split-Lacks boost b'-' r))
        (parse_elements-AllWithin rs)
    where
      by_element :
          (o : Option Element) (rest : Option Parsed)
          → MayBeFine o
          → AllWithin file_size rest
          → AllWithin file_size (elim o [ none ↦ none | some e ↦ put_before e rest ])
      by_element none rest f r = tt
      by_element (some e) rest f r = put_before-AllWithin e rest f r

  parse_set-AllWithin : (s : Text) → AllWithin file_size (parse_set boost file_size s)
  unfolding parse_set
  parse_set-AllWithin s = elim (Bool-cases (is_found (find s (codes "--")))) [
    | inl e ↦ rw e tt
    | inr e ↦ rw e (elim (Bool-cases (eq_text s (codes "-"))) [
      | inl f ↦ rw f whole
      | inr f ↦ rw f (parse_elements-AllWithin (split boost s (codes ",")))
    ])
  ]
    where
      last : int64_of_size (sub_size file_size 1) ≡ pos (file_size - 1)
      last =
          rw (sub_size-le file_size 1 h k) (int64_of_size-small (file_size - 1) (omega (arith, k)))

      whole :
          AllWithin file_size (some (parsed ((pos 0, int64_of_size (sub_size file_size 1)) ∷ [])))
      whole = (
        subst (λ i. IsWithin file_size (pos 0, i)) (sym last) (omega arith, omega (arith, h)),
        tt,
      )

  parse-AllWithin : (s : Text) → AllWithin file_size (parse boost s file_size)
  unfolding parse
  parse-AllWithin s = elim (Bool-cases (null (boost.trim s))) [
    | inl e ↦ rw e tt
    | inr e ↦ rw e (elim (Bool-cases (starts_with (boost.trim s) (codes "bytes="))) [
      | inl f ↦ rw f (parse_set-AllWithin (drop 6 (boost.trim s)))
      | inr f ↦ rw f tt
    ])
  ]

-- For a file that is not empty and has less than 2^31 bytes, every range of a header that is accepted
-- has an end before the size of the file and a start that is not above the size, neither of them
-- negative, whatever the header says.
pub parse-IsWithin :
    (boost : Trimming) (range_str : Text) (file_size : ℕ) (ranges : Ranges)
    → 0 < file_size
    → file_size < 2 ^ 31
    → parse boost range_str file_size ≡ some (parsed ranges)
    → All (IsWithin file_size) ranges
parse-IsWithin boost range_str file_size ranges h k e =
    subst (AllWithin file_size) e (parse-AllWithin boost file_size h k range_str)
