-- ===== src/Util/Split/Pieces.antt =====
-- A reference description of splitting at one byte: one pass over the text, no positions.
use httplib.Base.{
  ℕ, zero, suc, ◌≡◌, refl, ap, none, some, List, [], ◌∷◌, ◌++◌, inl, inr, arith, ◌==◌,
  if◌then◌else◌, Text, length, null, take, drop, find, Lacks, starts_with, Option-cases,
}

-- A byte in front of the first part.
abbrev pub onto : ℕ → List Text → List Text
onto x [] = (x ∷ []) ∷ []
onto x (p ∷ ps) = (x ∷ p) ∷ ps

-- The parts between the bytes `c`; a `c` at the very end closes the last part and opens no other.
unfoldable pub pieces : ℕ → Text → List Text
pieces c [] = [] ∷ []
pieces c (x ∷ s) =
    let rest = pieces c s in if x == c then [] ∷ (if null s then [] else rest) else onto x rest

-- What is left of a text whose first byte is dropped if it is `c`.
abbrev pub without_first : ℕ → Text → Text
without_first c [] = []
without_first c (x ∷ s) = if x == c then s else x ∷ s

pub pieces-Lacks : (c : ℕ) (s : Text) → Lacks c s → pieces c s ≡ s ∷ []
unfolding pieces
pieces-Lacks c [] h = refl
pieces-Lacks c (x ∷ s) h = ground (arith, pieces-Lacks c s h.1)

-- The part before the first `c`, and the parts of what follows it.
pub pieces-append :
    (c : ℕ) (p r : Text)
    → Lacks c p
    → pieces c (p ++ c ∷ r) ≡ p ∷ (if null r then [] else pieces c r)
unfolding pieces
pieces-append c [] r h = ground arith
pieces-append c (x ∷ p) r h = ground (arith, pieces-append c p r h.1)

pub find-none : (c : ℕ) (s : Text) → find s (c ∷ []) ≡ none → Lacks c s
unfolding find starts_with
find-none c [] h = tt
find-none c (x ∷ s) h = elim (Option-cases (find s (c ∷ []))) [
  | inl e ↦ (ground (arith), find-none c s e)
  | inr (j, e) ↦ absurd (ground (arith, e))
]

pub find-Lacks : (c : ℕ) (s : Text) → Lacks c s → find s (c ∷ []) ≡ none
unfolding find starts_with
find-Lacks c [] h = refl
find-Lacks c (x ∷ s) h = ground (arith, find-Lacks c s h.1)

pub find-append : (c : ℕ) (p r : Text) → Lacks c p → find (p ++ c ∷ r) (c ∷ []) ≡ some (length p)
unfolding find starts_with
find-append c [] r h = ground arith
find-append c (x ∷ p) r h = ground (arith, find-append c p r h.1)

-- The first occurrence of `c` splits the text into a part without `c` and the rest.
pub find-some :
    (c : ℕ) (s : Text) (i : ℕ)
    → find s (c ∷ []) ≡ some i
    → (s ≡ take i s ++ c ∷ drop (suc i) s) × Lacks c (take i s)
unfolding find starts_with
find-some c [] i h = cc
find-some c (x ∷ s) zero h = elim (Option-cases (find s (c ∷ []))) [
  | inl e ↦ (ground (arith, e), tt)
  | inr (j, e) ↦ (ground (arith, e), tt)
]
find-some c (x ∷ s) (suc i) h = elim (Option-cases (find s (c ∷ []))) [
  | inl e ↦ absurd (ground (arith, e))
  | inr (j, e) ↦
      let found : find s (c ∷ []) ≡ some i = ground (arith, e) in
      let r = find-some c s i found in (ap (◌∷◌ x) r.0, (ground (arith, e), r.1))
]
