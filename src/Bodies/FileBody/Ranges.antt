-- ===== src/Bodies/FileBody/Ranges.antt =====
-- What the calls of `get` give of a file.
use native.Mathlib.Decide.{dec_lt}
use httplib.Base.{
  ℕ, zero, suc, ◌+◌, ◌-◌, ◌≤◌, ◌<◌, ◌≡◌, refl, sym, ap, ◌∙◌, true, false, none, some, List, [], ◌∷◌,
  ◌++◌, arith, ltb, Text, length, take, drop, drop-drop, take_all, All,
}
use httplib.Bodies.FileBody.{
  word, Writer, header, Got, ended, chunk, next_size, get_single, get_by, get, begun, seekg,
}
use httplib.Bodies.FileBody.Reads.{
  take-append_drop, next_size-bounds, joined, drain, drain-step, reading, single-chunk, single-over,
}
use httplib.Bodies.FileBody.Pieces.{IsSingle, pieces_of, pieces_of-small}

-- The next piece of a stretch, and what is left of it.
pub piece :
    (c : Text) (position n m : ℕ)
    → n ≤ m
    → take n (drop position c) ++ take (m - n) (drop (position + n) c) ≡ take m (drop position c)
piece c position n m h =
    ap (λ t. take n (drop position c) ++ take (m - n) t) (sym (drop-drop n position c))
    ∙ take-append_drop n (m - n) (drop position c)
    ∙ ap (λ k. take k (drop position c)) (omega arith)

-- Calls that are those of `get_single` on a file that is being read.
module _ (decimal : ℕ → Text) (buffer : ℕ) (room : 0 < buffer) (w : Writer) (c : Text)
    (first second : ℕ) (step : Writer → Writer × Got)
    (agrees : (position pos : ℕ)
      → step (reading w c position pos)
        ≡ get_single decimal buffer (reading w c position pos) first second) where
  stretch_chunk :
      (fuel position pos n : ℕ)
      → pos ≤ second
      → n ≤ second - pos
      → (n < second - pos
          → drain step fuel (reading w c (position + n) (pos + n))
            ≡ some (take (second - (pos + n)) (drop (position + n) c), true))
      → joined
          (chunk (take n (drop position c)) (ltb (pos + n) second))
          (drain step fuel (reading w c (position + n) (pos + n)))
        ≡ some (take (second - pos) (drop position c), true)
  stretch_chunk fuel position pos n h small rest = elim (dec_lt n (second - pos)) [
    | yes more ↦
        let going : ltb (pos + n) second ≡ true = ground (arith, more) in
        rw (going, rest more)
          (ap (λ t. some (t, true))
            (ap (λ k. take n (drop position c) ++ take k (drop (position + n) c)) (omega arith)
              ∙ piece c position n (second - pos) small))
    | no over ↦
        let going : ltb (pos + n) second ≡ false = ground (arith, over) in
        rw going (ap (λ k. some (take k (drop position c), true)) (omega arith))
  ]

  stretch :
      (fuel position pos : ℕ)
      → pos ≤ second
      → second < word
      → position + (second - pos) ≤ length c
      → second - pos < fuel
      → drain step fuel (reading w c position pos)
        ≡ some (take (second - pos) (drop position c), true)
  stretch zero position pos h k l f = absurd (omega arith)
  stretch (suc fuel) position pos h k l f =
      let n = next_size buffer second pos in
      let bounds = next_size-bounds buffer second pos h k in
      let rest : 0 < n
          → n < second - pos
          → drain step fuel (reading w c (position + n) (pos + n))
            ≡ some (take (second - (pos + n)) (drop (position + n) c), true) =
        λ a b.
          stretch fuel (position + n) (pos + n) (omega (arith, a, b)) k (omega (arith, a, b))
            (omega (arith, a, b)) in
      elim (dec_lt 0 n) [
        | no none_left ↦
            drain-step step fuel (reading w c position pos) (reading w c position pos) ended (
              agrees position pos
              ∙ single-over decimal buffer w c first second position pos (omega arith))
            ∙ ap (λ k. some (take k (drop position c), true)) {x = 0} (ground (arith, bounds))
        | yes some_left ↦
            drain-step step fuel (reading w c position pos) (reading w c (position + n) (pos + n))
              (chunk (take n (drop position c)) (ltb (pos + n) second))
              (agrees position pos
                ∙ single-chunk decimal buffer w c first second position pos n refl some_left
                    (omega (arith, bounds)))
            ∙ stretch_chunk fuel position pos n h (bounds.1) (rest some_left)
      ]

-- A writer on a file that has just been opened; `junk` is in its member that nothing sets.
abbrev pub opened : List (ℕ × ℕ) → Text → Text → Text → ℕ → Writer
opened ranges content_type boundary c junk = record {
  body = record {
    ranges = ranges;
    content_type = content_type;
    boundary = boundary;
    file = record { contents = c; position = 0; failed = false };
    file_size = length c;
  };
  range_index = none;
  pos = none;
  step = header;
  file_size = junk;
}

-- The bytes that are asked for: all, or those of the only range, ends included.
abbrev pub asked : List (ℕ × ℕ) → Text → Text
asked [] c = c
asked ((first, last) ∷ _) c = take (last + 1 - first) (drop first c)

-- At most one range, which lies in the file.
abbrev pub AsksWithin : List (ℕ × ℕ) → ℕ → Type 0
AsksWithin [] size = Unit
AsksWithin ((first, last) ∷ []) size = (first ≤ last) × (last < size)
AsksWithin (r ∷ q ∷ ranges) size = ⊥

drain-asked :
    (decimal : ℕ → Text) (buffer : ℕ) (ranges : List (ℕ × ℕ)) (content_type boundary c : Text)
    (junk : ℕ)
    → 0 < buffer
    → length c < word
    → AsksWithin ranges (length c)
    → drain (get decimal buffer) (suc (length c)) (opened ranges content_type boundary c junk)
      ≡ some (asked ranges c, true)
unfolding get get_by get_single begun seekg drain
drain-asked decimal buffer [] content_type boundary c junk room small h =
    stretch decimal buffer room (opened [] content_type boundary c junk) c 0 (length c)
      (get decimal buffer) (λ position pos. refl) (suc (length c)) 0 0 (omega arith) small
      (omega arith) (omega arith)
    ∙ ap (λ t. some (t, true)) (take_all (length c - 0) c (omega arith))
drain-asked decimal buffer ((first, last) ∷ []) content_type boundary c junk room small h =
    stretch decimal buffer room (opened ((first, last) ∷ []) content_type boundary c junk) c first
      (last + 1) (get decimal buffer) (λ position pos. refl) (suc (length c)) (0 + first) first
      (omega arith) (omega arith) (omega arith) (omega arith)
    ∙ ap (λ k. some (take (last + 1 - first) (drop k c), true)) (omega arith)
drain-asked decimal buffer (r ∷ q ∷ ranges) content_type boundary c junk room small h = absurd h

AsksWithin-IsSingle : (ranges : List (ℕ × ℕ)) (size : ℕ) → AsksWithin ranges size → IsSingle ranges
AsksWithin-IsSingle [] size h = tt
AsksWithin-IsSingle (r ∷ []) size h = tt
AsksWithin-IsSingle (r ∷ q ∷ ranges) size h = h

-- For a file whose size is below 2^64, a buffer that is not empty and at most one range, which lies
-- in the file, the calls of `get` give exactly the bytes asked for, end without an error, and are no
-- more than the file has bytes and one; no call gives more bytes at once than the buffer holds.
pub get-asked :
    (decimal : ℕ → Text) (buffer : ℕ) (ranges : List (ℕ × ℕ)) (content_type boundary c : Text)
    (junk : ℕ)
    → 0 < buffer
    → length c < word
    → AsksWithin ranges (length c)
    → (drain (get decimal buffer) (suc (length c)) (opened ranges content_type boundary c junk)
        ≡ some (asked ranges c, true))
      × All
          (λ bytes. length bytes ≤ buffer)
          (pieces_of
            (get decimal buffer)
            (suc (length c))
            (opened ranges content_type boundary c junk))
get-asked decimal buffer ranges content_type boundary c junk room small h = (
  drain-asked decimal buffer ranges content_type boundary c junk room small h,
  pieces_of-small decimal buffer (suc (length c)) (opened ranges content_type boundary c junk)
      (AsksWithin-IsSingle ranges (length c) h),
)
