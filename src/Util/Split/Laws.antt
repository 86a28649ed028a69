-- ===== src/Util/Split/Laws.antt =====
-- `util::split` at a delimiter of one byte: the loop over positions computes the reference parts.
use native.Mathlib.Decide.{dec_lt, ℕ_discrete}
use httplib.Base.{
  ℕ, zero, suc, ◌+◌, ◌-◌, ◌≤◌, ◌<◌, ◌≡◌, ◌≢◌, refl, sym, ap, ◌∙◌, true, false, Option, none, some,
  List, [], ◌∷◌, map, inl, inr, arith, if◌then◌else◌, Text, length, null, take, drop, find,
  find_from, length-drop, drop-drop, Option-cases, starts_with, ==_refl, ==_ne,
}
use httplib.Util.Trim.{Trimming}
use httplib.Util.Split.{split, split_from}
use httplib.Util.Split.Total.{
  find_from_bounds, split_from_end, split_from_lead, split_from_last, split_from_more, split_total,
}
use httplib.Util.Split.Pieces.{
  pieces, without_first, pieces-Lacks, pieces-append, find-none, find-some,
}

null_of_length : {A : Type 0} (xs : List A) → length xs ≡ 0 → null xs ≡ true
null_of_length [] h = refl
null_of_length (x ∷ xs) h = absurd (omega arith)

null_of_pos : {A : Type 0} (xs : List A) → 0 < length xs → null xs ≡ false
null_of_pos [] h = absurd (omega arith)
null_of_pos (x ∷ xs) h = refl

module _ (boost : Trimming) (c : ℕ) (str : Text) where
  abbrev Parts : ℕ → ℕ → Type 0
  Parts fuel pos =
      split_from boost str (c ∷ []) fuel pos ≡ some (map boost.trim (pieces c (drop pos str)))

  -- A `find` from `pos` that ends is a `find` in the rest of the text.
  find_from-found :
      (pos i : ℕ)
      → find_from str (c ∷ []) pos ≡ some i
      → (j : ℕ) × (find (drop pos str) (c ∷ []) ≡ some j) × (i ≡ pos + j)
  unfolding find_from
  find_from-found pos i h = elim (Option-cases (find (drop pos str) (c ∷ []))) [
    | inl e ↦ absurd (ground (arith, e))
    | inr (j, e) ↦ (j, e, ground (arith, e))
  ]

  find_from-missed :
      (pos : ℕ) → find_from str (c ∷ []) pos ≡ none → find (drop pos str) (c ∷ []) ≡ none
  unfolding find_from
  find_from-missed pos h = ground arith

  -- The parts of the rest, once its first `c` is found.
  pieces-found :
      (pos i : ℕ)
      → find_from str (c ∷ []) pos ≡ some i
      → pieces c (drop pos str)
        ≡ take (i - pos) (drop pos str)
          ∷ (if null (drop (i + 1) str) then [] else pieces c (drop (i + 1) str))
  pieces-found pos i h =
      let (j, e, eq) = find_from-found pos i h in
      let (whole, free) = find-some c (drop pos str) j e in
      let j_eq : i - pos ≡ j = omega arith in
      let next : drop (suc j) (drop pos str) ≡ drop (i + 1) str =
        drop-drop (suc j) pos str ∙ ap (λ k. drop k str) (omega arith) in
      rw (j_eq, ← next)
        (ap (pieces c) whole
          ∙ pieces-append c (take j (drop pos str)) (drop (suc j) (drop pos str)) free)

  Parts-round :
      (fuel pos : ℕ) (o : Option ℕ)
      → pos ≤ length str
      → find_from str (c ∷ []) pos ≡ o
      → o ≢ some 0
      → ((q : ℕ) → q ≤ length str → pos < q → Parts fuel q)
      → Parts (suc fuel) pos
  Parts-round fuel pos none h e _ next =
      split_from_end boost str (c ∷ []) fuel pos e
      ∙ ap (λ ps. some (map boost.trim ps))
          (sym (pieces-Lacks c (drop pos str) (find-none c _ (find_from-missed pos e))))
  Parts-round fuel pos (some zero) h e k next = absurd (k refl)
  Parts-round fuel pos (some (suc i)) h e _ next =
      let b = find_from_bounds str (c ∷ []) pos h e in
      elim (dec_lt (suc i + 1) (length str)) [
        | yes more ↦
            split_from_more boost str (c ∷ []) fuel pos i e more
            ∙ rw
                (
                  next (suc i + 1) (omega arith) (omega arith),
                  pieces-found pos (suc i) e,
                  null_of_pos (drop (suc i + 1) str) (omega (arith, length-drop (suc i + 1) str)),
                )
                refl
        | no last ↦
            split_from_last boost str (c ∷ []) fuel pos i e (omega arith)
            ∙ rw
                (
                  pieces-found pos (suc i) e,
                  null_of_length (drop (suc i + 1) str)
                      (omega (arith, length-drop (suc i + 1) str)),
                )
                refl
      ]

  later_not_zero : (pos : ℕ) → 0 < pos → pos ≤ length str → find_from str (c ∷ []) pos ≢ some 0
  later_not_zero pos h k e = let b = find_from_bounds str (c ∷ []) pos k e in absurd (omega arith)

  Parts-later :
      (fuel pos : ℕ) → 0 < pos → pos ≤ length str → length str < fuel + pos → Parts fuel pos
  Parts-later zero pos h k l = absurd (omega arith)
  Parts-later (suc fuel) pos h k l =
      Parts-round fuel pos (find_from str (c ∷ []) pos) k refl (later_not_zero pos h k)
        (λ q a b. Parts-later fuel q (omega arith) a (omega arith))

  split_round : find_from str (c ∷ []) 0 ≢ some 0 → str ≢ [] → Parts (suc (length str)) 0
  split_round h k =
      Parts-round (length str) 0 (find_from str (c ∷ []) 0) (omega arith) refl h
        (λ q a b. Parts-later (length str) q b a (omega arith))

find_from-head : (c : ℕ) (s : Text) → find_from (c ∷ s) (c ∷ []) 0 ≡ some 0
unfolding find_from find starts_with
find_from-head c s = ground arith

find_from-other : (c x : ℕ) (s : Text) → x ≢ c → find_from (x ∷ s) (c ∷ []) 0 ≢ some 0
unfolding find_from find starts_with
find_from-other c x s h = ground arith

some_eq {ℓ} : {A : Type ℓ} {a b : A} → some a ≡ some b → a ≡ b
some_eq e = cc

-- Splitting a text that is not empty at one byte `c` gives, each one trimmed, the parts between the bytes `c`; only
-- the first byte of the text is dropped if it is a `c`, and a `c` at the end opens no part.
pub split-pieces :
    (boost : Trimming) (c : ℕ) (str : Text)
    → str ≢ []
    → split boost str (c ∷ []) ≡ map boost.trim (pieces c (without_first c str))
split-pieces boost c [] h = absurd (h refl)
split-pieces boost c (x ∷ s) h =
    some_eq (sym (split_total boost (x ∷ s) (c ∷ []) (omega arith) h) ∙ run)
  where
    run :
        split_from boost (x ∷ s) (c ∷ []) (suc (suc (length s))) 0
        ≡ some (map boost.trim (pieces c (without_first c (x ∷ s))))
    run = elim (ℕ_discrete x c) [
      | yes e ↦ rw e (
          split_from_lead boost (c ∷ s) (c ∷ []) (suc (length s)) 0 (find_from-head c s)
          ∙ Parts-later boost c (c ∷ s) (suc (length s)) 1 (omega arith) (omega arith) (omega arith)
          ∙ rw (==_refl c) refl)
      | no e ↦ split_round boost c (x ∷ s) (find_from-other c x s e) h ∙ rw (==_ne x c e) refl
    ]
