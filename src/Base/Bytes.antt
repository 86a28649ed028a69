-- ===== src/Base/Bytes.antt =====
-- Byte texts: `std::string` and `std::string_view` as lists of the bytes' values.
use Prim.Native.Nat.{ℕ, suc, ◌+◌}
use Prim.Native.Char.{code}
use Prim.Native.String.{String}
use mathlib.Core.Path.{◌≡◌, refl, subst}
use mathlib.Core.Logic.{◌↔◌, ◌≢◌, inl, inr}
use mathlib.Core.Bool.{Bool, true, false, ◌&&◌, ◌||◌}
use mathlib.Core.List.{List, [], ◌∷◌, ◌++◌}
use mathlib.Core.Option
use mathlib.Core.Option.{Option, none, some}
use native.Mathlib.Omega.{arith}
use httplib.Base.Tests.{Bool-cases, ltb, ◌==◌, if◌then◌else◌}
use httplib.Base.Lists.{All, All-append, take, drop, null}

abbrev pub Text : Type 0
Text = List ℕ

-- The bytes of an ASCII literal. `String` has its own `[]` and `∷`.
abbrev pub codes : String → Text
codes String.[] = []
codes (String.◌∷◌ c s) = code c ∷ codes s

-- Equality of two texts, as a test.
unfoldable pub eq_text : Text → Text → Bool
eq_text [] [] = true
eq_text [] (d ∷ t) = false
eq_text (c ∷ s) [] = false
eq_text (c ∷ s) (d ∷ t) = c == d && eq_text s t

pub eq_text_refl : (s : Text) → eq_text s s ≡ true
unfolding eq_text
eq_text_refl [] = refl
eq_text_refl (c ∷ s) = ground (arith, eq_text_refl s)

pub eq_of_eq_text : (s t : Text) → eq_text s t ≡ true → s ≡ t
unfolding eq_text
eq_of_eq_text [] [] h = refl
eq_of_eq_text [] (d ∷ t) h = cc
eq_of_eq_text (c ∷ s) [] h = cc
eq_of_eq_text (c ∷ s) (d ∷ t) h = ground (arith, eq_of_eq_text s t)

pub eq_text_iff : (s t : Text) → (eq_text s t ≡ true) ↔ (s ≡ t)
eq_text_iff s t = (eq_of_eq_text s t, λ e. subst (λ u. eq_text s u ≡ true) e (eq_text_refl s))

pub ne_of_eq_text : (s t : Text) → eq_text s t ≡ false → s ≢ t
ne_of_eq_text s t h e = cc ((eq_text_iff s t).1 e)

pub eq_text_ne : (s t : Text) → s ≢ t → eq_text s t ≡ false
eq_text_ne s t h = elim (Bool-cases (eq_text s t)) [
  | inl e ↦ absurd (h (eq_of_eq_text s t e))
  | inr e ↦ e
]

-- `s.starts_with(p)`
unfoldable pub starts_with : Text → Text → Bool
starts_with s [] = true
starts_with [] (d ∷ p) = false
starts_with (c ∷ s) (d ∷ p) = c == d && starts_with s p

pub starts_with-append : (p s : Text) → starts_with (p ++ s) p ≡ true
unfolding starts_with
starts_with-append [] s = refl
starts_with-append (c ∷ p) s = ground (arith, starts_with-append p s)

-- `s.ends_with(d)`
unfoldable pub ends_with : Text → Text → Bool
unfolding eq_text
ends_with [] d = eq_text [] d
ends_with (c ∷ s) d = eq_text (c ∷ s) d || ends_with s d

-- `s.find(d)`: the first position at which `d` occurs.
unfoldable pub find : Text → Text → Option ℕ
unfolding starts_with
find [] d = if null d then some 0 else none
find (c ∷ s) d = if starts_with (c ∷ s) d then some 0 else Option.map suc (find s d)

-- `s.find(d, pos)`, for a text `d` that is not empty.
unfoldable pub find_from : Text → Text → ℕ → Option ℕ
unfolding find
find_from s d pos = Option.map (λ i. pos + i) (find (drop pos s) d)

-- `s.substr(pos, count)`, for a position within the text.
abbrev pub substr : Text → ℕ → ℕ → Text
substr s pos count = take count (drop pos s)

-- No byte of the text is `c`.
abbrev pub Lacks : ℕ → Text → Type 0
Lacks c = All (λ x. x ≢ c)

pub Lacks-append : (c : ℕ) (s t : Text) → Lacks c s → Lacks c t → Lacks c (s ++ t)
Lacks-append c s t h k = All-append (λ x. x ≢ c) s t h k

-- The order of `std::string`.
unfoldable pub less_text : Text → Text → Bool
less_text s [] = false
less_text [] (d ∷ t) = true
less_text (c ∷ s) (d ∷ t) = ltb c d || (c == d && less_text s t)

-- Whether a given text lacks a byte is computed.
abbrev pub lacks : ℕ → Text → Bool
lacks c [] = true
lacks c (x ∷ s) = if x == c then false else lacks c s

pub Lacks-lacks : (c : ℕ) (s : Text) → lacks c s ≡ true → Lacks c s
Lacks-lacks c [] h = tt
Lacks-lacks c (x ∷ s) h = (ground arith, Lacks-lacks c s (ground arith))
