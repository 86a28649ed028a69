-- ===== src/Html/Ranges/Numbers.antt =====
-- The numbers that `http_ranges::parse` (lib/html/http_ranges.cpp) reads of a part without a minus sign.
use httplib.Base.{
  ℕ, ◌^◌, ◌≡◌, false, Option, none, some, [], ◌∷◌, Text, ltb, ◌==◌, inl, inr, Bool-cases, Lacks,
  arith,
}
use httplib.Html.Ranges.{ℤ, pos, negsuc, is_digit, digits_from, from_chars, number_or}

-- Numbers as they come of the parts of an element, of which no part has a minus sign.
pub data IsStart : ℤ → Type 0 where
  number : (a : ℕ) → IsStart (pos a)
  absent : IsStart (negsuc 0)

-- Numbers that have been read, if they have been.
abbrev pub IsNatural : Option ℤ → Type 0
IsNatural none = Unit
IsNatural (some (pos a)) = Unit
IsNatural (some (negsuc a)) = ⊥

abbrev pub MayStart : Option ℤ → Type 0
MayStart none = Unit
MayStart (some start) = IsStart start

IsNatural-MayStart : (o : Option ℤ) → IsNatural o → MayStart o
IsNatural-MayStart none h = tt
IsNatural-MayStart (some (pos a)) h = number a
IsNatural-MayStart (some (negsuc a)) h = absurd h

from_chars-IsNatural : (s : Text) → Lacks b'-' s → IsNatural (from_chars s)
unfolding from_chars
from_chars-IsNatural [] l = tt
from_chars-IsNatural (c ∷ s) l =
    let no_sign : (c == b'-') ≡ false = ground (arith, l.0) in
    elim (Bool-cases (is_digit c)) [
      | inr d ↦ rw (no_sign, d) tt
      | inl d ↦ elim (Bool-cases (ltb (digits_from 0 (c ∷ s)) (2 ^ 31))) [
        | inl f ↦ rw (no_sign, f, d) tt
        | inr f ↦ rw (no_sign, f, d) tt
      ]
    ]

pub number_or-MayStart : (s : Text) → Lacks b'-' s → MayStart (number_or (negsuc 0) s)
unfolding number_or
number_or-MayStart [] l = absent
number_or-MayStart (c ∷ s) l =
    IsNatural-MayStart (from_chars (c ∷ s)) (from_chars-IsNatural (c ∷ s) l)

pub number_or-IsNatural : (a : ℕ) (s : Text) → Lacks b'-' s → IsNatural (number_or (pos a) s)
unfolding number_or
number_or-IsNatural a [] l = tt
number_or-IsNatural a (c ∷ s) l = from_chars-IsNatural (c ∷ s) l
