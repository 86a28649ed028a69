-- ===== src/Util/Split/Total.antt =====
-- The loop of `util::split` ends within the fuel that `split` gives it.
use mathlib.Core.Option
use httplib.Base.{
  ℕ, zero, suc, ◌+◌, ◌-◌, ◌≤◌, ◌<◌, ◌≡◌, refl, ap, ◌∙◌, ◌≢◌, true, Option, none, some, List, [],
  ◌∷◌, inl, inr, arith, Text, length, length-drop, drop, find, find_from, starts_with, substr,
  Option-cases,
}
use native.Mathlib.Decide.{dec_lt}
use httplib.Util.Trim.{Trimming}
use httplib.Util.Split.{split, split_from}

pub starts_with_length : (s p : Text) → starts_with s p ≡ true → length p ≤ length s
unfolding starts_with
starts_with_length s [] h = omega arith
starts_with_length [] (d ∷ p) h = cc
starts_with_length (c ∷ s) (d ∷ p) h = ground (arith, starts_with_length s p)

-- An occurrence lies within the text.
pub find_bound : (s d : Text) {i : ℕ} → find s d ≡ some i → i + length d ≤ length s
unfolding find
find_bound [] [] h = ground arith
find_bound [] (x ∷ d) h = cc
find_bound (c ∷ s) d {i} h = elim (Option-cases (find s d)) [
  | inl e ↦ ground (arith, starts_with_length (c ∷ s) d)
  | inr (j, e) ↦ ground (arith, starts_with_length (c ∷ s) d, find_bound s d e)
]

pub find_from_bounds :
    (s d : Text) (pos : ℕ) {i : ℕ}
    → pos ≤ length s
    → find_from s d pos ≡ some i
    → (pos ≤ i) × (i + length d ≤ length s)
unfolding find_from
find_from_bounds s d pos {i} k h = elim (Option-cases (find (drop pos s) d)) [
  | inl e ↦ ground (arith)
  | inr (j, e) ↦ ground (arith, find_bound (drop pos s) d e, length-drop pos s)
]

-- One round of the loop on each of its branches.
module _ (boost : Trimming) (str delimiter : Text) (fuel pos : ℕ) where
  abbrev part : ℕ → Text
  part i = boost.trim (substr str pos (i - pos))

  pub split_from_end :
      find_from str delimiter pos ≡ none
      → split_from boost str delimiter (suc fuel) pos ≡ some (boost.trim (drop pos str) ∷ [])
  unfolding split_from
  split_from_end e = rw (e, split_from)

  pub split_from_lead :
      find_from str delimiter pos ≡ some 0
      → split_from boost str delimiter (suc fuel) pos
        ≡ split_from boost str delimiter fuel (pos + length delimiter)
  unfolding split_from
  split_from_lead e = rw (e, split_from)

  pub split_from_last :
      (i : ℕ)
      → find_from str delimiter pos ≡ some (suc i)
      → length str ≤ suc i + length delimiter
      → split_from boost str delimiter (suc fuel) pos ≡ some (part (suc i) ∷ [])
  unfolding split_from
  split_from_last i e h = rw (e, split_from) (ground arith)

  pub split_from_more :
      (i : ℕ)
      → find_from str delimiter pos ≡ some (suc i)
      → suc i + length delimiter < length str
      → split_from boost str delimiter (suc fuel) pos
        ≡ Option.map
            (λ parts. part (suc i) ∷ parts)
            (split_from boost str delimiter fuel (suc i + length delimiter))
  unfolding split_from
  split_from_more i e h = rw (e, split_from) (ground arith)

module _ (boost : Trimming) (str delimiter : Text) (proper : 0 < length delimiter) where
  abbrev Ends : ℕ → ℕ → Type 0
  Ends fuel pos = (parts : List Text) × (split_from boost str delimiter fuel pos ≡ some parts)

  Ends-more :
      (fuel pos i : ℕ)
      → find_from str delimiter pos ≡ some (suc i)
      → suc i + length delimiter < length str
      → Ends fuel (suc i + length delimiter)
      → Ends (suc fuel) pos
  Ends-more fuel pos i e h (parts, q) = (
    part boost str delimiter fuel pos (suc i) ∷ parts,
    split_from_more boost str delimiter fuel pos i e h ∙ ap (Option.map _) q,
  )

  Ends-round :
      (fuel pos : ℕ) (o : Option ℕ)
      → pos ≤ length str
      → find_from str delimiter pos ≡ o
      → ((q : ℕ) → q ≤ length str → pos < q → Ends fuel q)
      → Ends (suc fuel) pos
  Ends-round fuel pos none h e next = (_, split_from_end boost str delimiter fuel pos e)
  Ends-round fuel pos (some zero) h e next =
      let b = find_from_bounds str delimiter pos h e in
      let (parts, q) = next (pos + length delimiter) (omega arith) (omega arith) in
      (parts, split_from_lead boost str delimiter fuel pos e ∙ q)
  Ends-round fuel pos (some (suc i)) h e next =
      let b = find_from_bounds str delimiter pos h e in
      elim (dec_lt (suc i + length delimiter) (length str)) [
        | yes more ↦
            Ends-more fuel pos i e more
              (next (suc i + length delimiter) (omega arith) (omega arith))
        | no last ↦ (_, split_from_last boost str delimiter fuel pos i e (omega arith))
      ]

  pub split_from_total : (fuel pos : ℕ) → pos ≤ length str → length str < fuel + pos → Ends fuel pos
  split_from_total zero pos h k = absurd (omega arith)
  split_from_total (suc fuel) pos h k =
      Ends-round fuel pos (find_from str delimiter pos) h refl
        (λ q a b. split_from_total fuel q a (omega arith))

  -- For a delimiter with a byte the loop of `split` ends within its fuel.
  pub split_total :
      str ≢ []
      → split_from boost str delimiter (suc (length str)) 0 ≡ some (split boost str delimiter)
  unfolding split
  split_total h =
      let (parts, q) = split_from_total (suc (length str)) 0 (omega arith) (omega arith) in
      ground (arith, q)
