-- ===== src/Html/Ranges.antt =====
-- `http_ranges::parse` of lib/html/http_ranges.cpp. `size_t` has 64 bits and `int` 32: the values of
-- the former are natural numbers below 2^64, those of the latter integers, and each conversion wraps
-- round as it does there.
pub mod Bounds
pub mod Numbers
pub mod Within
pub mod Large
use httplib.Base.{
  ℕ, zero, suc, ◌+◌, ◌-◌, ◌*◌, ◌%◌, ◌^◌, Bool, true, false, ◌&&◌, ◌||◌, Option, none, some, List,
  [], ◌∷◌, ◌++◌, ◌>>=◌, Text, codes, null, ltb, leb, ◌==◌, if◌then◌else◌, eq_text, starts_with,
  find, drop,
}
use httplib.Util.Trim.{Trimming}
use httplib.Util.Split.{split}

-- `negsuc n` is -1 - n.
pub data ℤ : Type 0 where
  pos negsuc : ℕ → ℤ

abbrev pub eq_ℤ : ℤ → ℤ → Bool
eq_ℤ (pos m) (pos n) = m == n
eq_ℤ (negsuc m) (negsuc n) = m == n
eq_ℤ m n = false

abbrev pub is_positive : ℤ → Bool
is_positive (pos zero) = false
is_positive (pos (suc n)) = true
is_positive (negsuc n) = false

abbrev pub signed : ℕ → ℕ → ℤ
signed half r = if ltb r half then pos r else negsuc (half + half - 1 - r)

-- A `size_t` as an `int` and as an `int64_t`, and an `int` as a `size_t`.
unfoldable pub int_of_size : ℕ → ℤ
int_of_size n = signed (2 ^ 31) (n % 2 ^ 32)

unfoldable pub int64_of_size : ℕ → ℤ
int64_of_size n = signed (2 ^ 63) (n % 2 ^ 64)

abbrev pub size_of_int : ℤ → ℕ
size_of_int (pos n) = n
size_of_int (negsuc n) = 2 ^ 64 - 1 - n

-- `a - b` of two `size_t`.
unfoldable pub sub_size : ℕ → ℕ → ℕ
sub_size a b = (a + (2 ^ 64 - b)) % 2 ^ 64

abbrev pub is_digit : ℕ → Bool
is_digit c = leb b'0' c && leb c b'9'

-- The value of the digits at the start of a text, behind those that make `value`.
unfoldable pub digits_from : ℕ → Text → ℕ
digits_from value [] = value
digits_from value (c ∷ s) =
    let rest = digits_from (value * 10 + (c - b'0')) s in if is_digit c then rest else value

-- `std::from_chars` into an `int`: without a digit, or beyond the largest `int`, there is an error;
-- what stands behind the digits is not looked at, as the source does not look at `ptr`.
unfoldable pub from_chars : Text → Option ℤ
unfolding digits_from
from_chars [] = none
from_chars (c ∷ s) =
    if c == b'-'
    then negative s
    else if is_digit c
    then (if ltb (digits_from 0 (c ∷ s)) (2 ^ 31) then some (pos (digits_from 0 (c ∷ s))) else none)
    else none
  where
    negative : Text → Option ℤ
    negative [] = none
    negative (d ∷ t) =
        if is_digit d
        then (if digits_from 0 (d ∷ t) == 0
            then some (pos 0)
            else if leb (digits_from 0 (d ∷ t)) (2 ^ 31)
            then some (negsuc (digits_from 0 (d ∷ t) - 1))
            else none)
        else none

-- One element of the header: a range, or `return false`.
pub data Element : Type 0 where
  refused : Element
  range : ℤ → ℤ → Element

-- The checks behind the two numbers.
unfoldable pub checked : ℕ → ℤ → ℤ → Element
unfolding int_of_size sub_size
checked file_size start end =
    if is_positive start && (leb file_size (size_of_int start) || eq_ℤ start end)
    then refused
    else (let end' : ℤ =
          if is_positive end && leb file_size (size_of_int end)
          then int_of_size (sub_size file_size 1)
          else end in
        if eq_ℤ start (negsuc 0)
        then range (int_of_size (sub_size file_size (size_of_int end')))
            (int_of_size (sub_size file_size 1))
        else range start end')

-- A number of the header; `absent` is taken for an empty text.
unfoldable pub number_or : ℤ → Text → Option ℤ
unfolding from_chars
number_or absent s = if null s then some absent else from_chars s

-- The second number, from what follows the first part.
unfoldable pub end_of : Trimming → ℕ → List Text → Option ℤ
unfolding number_or int_of_size
end_of boost file_size [] = some (int_of_size (sub_size file_size 1))
end_of boost file_size (second ∷ others) =
    number_or (int_of_size (sub_size file_size 1)) (boost.trim second)

unfoldable pub element_of_numbers : ℕ → Option ℤ → Option ℤ → Element
unfolding checked
element_of_numbers file_size none end = refused
element_of_numbers file_size (some start) none = refused
element_of_numbers file_size (some start) (some end) = checked file_size start end

-- One round of the loop; `none` is the read of `sub_range[0]` where there is no part.
unfoldable pub element_of_parts : Trimming → ℕ → List Text → Option Element
unfolding element_of_numbers end_of number_or
element_of_parts boost file_size [] = none
element_of_parts boost file_size (first ∷ others) = some (
    element_of_numbers file_size (number_or (negsuc 0) (boost.trim first))
      (end_of boost file_size others))

abbrev pub Ranges : Type 0
Ranges = List (ℤ × ℤ)

-- The result of `parse`: false with the ranges cleared, or true with the ranges.
pub data Parsed : Type 0 where
  failed : Parsed
  parsed : Ranges → Parsed

unfoldable pub parse_element : Trimming → ℕ → Text → Option Element
unfolding element_of_parts
parse_element boost file_size element =
    element_of_parts boost file_size (split boost element (codes "-"))

abbrev pub put_before : Element → Option Parsed → Option Parsed
put_before refused rest = some failed
put_before (range start end) none = none
put_before (range start end) (some failed) = some failed
put_before (range start end) (some (parsed rs)) = some (parsed ((start, end) ∷ rs))

unfoldable pub parse_elements : Trimming → ℕ → List Text → Option Parsed
unfolding parse_element
parse_elements boost file_size [] = some (parsed [])
parse_elements boost file_size (r ∷ rs) =
    let rest = parse_elements boost file_size rs in
    elim (parse_element boost file_size r) [ none ↦ none | some e ↦ put_before e rest ]

abbrev pub is_found : Option ℕ → Bool
is_found none = false
is_found (some i) = true

-- What follows `bytes=`.
unfoldable pub parse_set : Trimming → ℕ → Text → Option Parsed
unfolding parse_elements
parse_set boost file_size range_str =
    if is_found (find range_str (codes "--"))
    then some failed
    else if eq_text range_str (codes "-")
    then some (parsed ((pos 0, int64_of_size (sub_size file_size 1)) ∷ []))
    else parse_elements boost file_size (split boost range_str (codes ","))

unfoldable pub parse : Trimming → Text → ℕ → Option Parsed
unfolding parse_set
parse boost range_str file_size =
    let trimmed : Text = boost.trim range_str in
    if null trimmed
    then some (parsed [])
    else if starts_with trimmed (codes "bytes=")
    then parse_set boost file_size (drop 6 trimmed)
    else some failed
