-- ===== src/Bodies/FileBody/Parts.antt =====
-- What the calls of `get` give of a file for one of several ranges.
use native.Mathlib.Decide.{dec_lt}
use httplib.Base.{
  ℕ, zero, suc, ◌+◌, ◌-◌, ◌≤◌, ◌<◌, ◌≡◌, refl, sym, ap, ◌∙◌, Bool, true, false, Option, none, some,
  List, ◌∷◌, ◌++◌, arith, Text, length, take, drop, get_elem?, append_assoc, length-drop,
}
use httplib.Bodies.FileBody.{
  word, FileBody, Writer, content, chunk, next_size, get_content, get_multi, get, begun, seekg,
}
use httplib.Bodies.FileBody.Reads.{next_size-bounds, drain, drain-step, joined, length-take}
use httplib.Bodies.FileBody.Ranges.{piece}

-- A writer within the content of the range at `index`, of two ranges or more.
abbrev pub in_part : FileBody → ℕ → Text → ℕ → Option ℕ → ℕ → Writer
in_part b index c position pos junk = record {
  body = record {
    ranges = b.ranges;
    content_type = b.content_type;
    boundary = b.boundary;
    file = record { contents = c; position = position; failed = false };
    file_size = b.file_size;
  };
  range_index = some index;
  pos = pos;
  step = content;
  file_size = junk;
}

-- Bytes that are given before the others.
abbrev pub behind : Text → Option (Text × Bool) → Option (Text × Bool)
behind bytes none = none
behind bytes (some (text, good)) = some (bytes ++ text, good)

behind-nil : (n : ℕ) (s : Text) (o : Option (Text × Bool)) → n ≡ 0 → o ≡ behind (take n s) o
behind-nil zero s none h = refl
behind-nil zero s (some (text, good)) h = refl
behind-nil (suc n) s o h = absurd (omega arith)

behind-behind :
    (a b ab : Text) (o : Option (Text × Bool)) → a ++ b ≡ ab → behind a (behind b o) ≡ behind ab o
behind-behind a b ab none h = refl
behind-behind a b ab (some (text, good)) h =
    ap (λ s. some (s, good)) (sym (append_assoc a b text) ∙ ap (λ s. s ++ text) h)

pub joined-more :
    (bytes : Text) (o : Option (Text × Bool)) → joined (chunk bytes true) o ≡ behind bytes o
joined-more bytes none = refl
joined-more bytes (some (text, good)) = refl

abbrev pub of_ranges : ℕ × ℕ → ℕ × ℕ → List (ℕ × ℕ) → Text → Text → ℕ → Text → FileBody
of_ranges r q ranges content_type boundary size c = record {
  ranges = r ∷ q ∷ ranges;
  content_type = content_type;
  boundary = boundary;
  file = record { contents = c; position = 0; failed = false };
  file_size = size;
}

module _ (decimal : ℕ → Text) (buffer : ℕ) (r q : ℕ × ℕ) (ranges : List (ℕ × ℕ))
    (content_type boundary : Text) (size index first second junk : ℕ) (c : Text)
    (at : get_elem? (r ∷ q ∷ ranges) index ≡ some (first, second)) where
  abbrev here : ℕ → Option ℕ → Writer
  here position pos =
      in_part (of_ranges r q ranges content_type boundary size c) index c position pos junk

  get-in_part :
      (position : ℕ) (pos : Option ℕ)
      → get decimal buffer (here position pos)
        ≡ get_content decimal buffer (here position pos) index (first, second)
  unfolding get get_multi
  get-in_part position pos = rw at refl

  pub part-chunk :
      (position pos n : ℕ)
      → next_size buffer second pos ≡ n
      → 0 < n
      → position + n ≤ length c
      → get decimal buffer (here position (some pos))
        ≡ (here (position + n) (some (pos + n)), chunk (take n (drop position c)) true)
  unfolding get_content begun
  part-chunk position pos n e some_left fits =
      let full : length (take n (drop position c)) ≡ n =
        length-take n (drop position c) (omega (arith, length-drop position c)) in
      get-in_part position (some pos) ∙ rw (e, full) (ground arith)

  pub part-seek :
      (position calls : ℕ)
      → drain (get decimal buffer) calls (here position none)
        ≡ drain (get decimal buffer) calls (here (position + first) (some first))
  unfolding drain get_content begun seekg
  part-seek position zero = refl
  part-seek position (suc calls) =
      ap (λ o. joined o.1 (drain (get decimal buffer) calls o.0))
        (get-in_part position none ∙ sym (get-in_part (position + first) (some first)))

  part_step :
      (position pos n calls rest : ℕ)
      → pos ≤ second
      → n ≤ second - pos
      → get decimal buffer (here position (some pos))
        ≡ (here (position + n) (some (pos + n)), chunk (take n (drop position c)) true)
      → drain (get decimal buffer) (calls + rest) (here (position + n) (some (pos + n)))
        ≡ behind (take (second - (pos + n)) (drop (position + n) c)) (
            drain
              (get decimal buffer)
              rest
              (here (position + n + (second - (pos + n))) (some second)))
      → drain (get decimal buffer) (suc calls + rest) (here position (some pos))
        ≡ behind
            (take (second - pos) (drop position c))
            (drain (get decimal buffer) rest (here (position + (second - pos)) (some second)))
  part_step position pos n calls rest h small one later =
      ap (λ m. drain (get decimal buffer) m (here position (some pos))) {y = suc (calls + rest)}
        (omega arith)
      ∙ drain-step (get decimal buffer) (calls + rest) (here position (some pos)) _ _ one
      ∙ joined-more (take n (drop position c)) _
      ∙ ap (behind (take n (drop position c))) later
      ∙ behind-behind (take n (drop position c)) (take (second - (pos + n)) (drop (position + n) c))
          (take (second - pos) (drop position c))
          (drain (get decimal buffer) rest
            (here (position + n + (second - (pos + n))) (some second)))
          (ap (λ m. take n (drop position c) ++ take m (drop (position + n) c)) (omega arith)
            ∙ piece c position n (second - pos) small)
      ∙ ap
          (λ p.
            behind (take (second - pos) (drop position c))
              (drain (get decimal buffer) rest (here p (some second))))
          (omega arith)

  part_stretch :
      (left position pos : ℕ)
      → 0 < buffer
      → pos ≤ second
      → second < word
      → position + (second - pos) ≤ length c
      → second - pos ≤ left
      → (calls : ℕ) × ((rest : ℕ)
          → drain (get decimal buffer) (calls + rest) (here position (some pos))
            ≡ behind
                (take (second - pos) (drop position c))
                (drain (get decimal buffer) rest (here (position + (second - pos)) (some second))))
  part_stretch zero position pos room h k l f = (
    0,
    λ rest.
        ap (λ n. drain (get decimal buffer) n (here position (some pos))) {y = rest} (omega arith)
        ∙ ap (λ p. drain (get decimal buffer) rest (here p (some pos)))
            {y = position + (second - pos)} (omega arith)
        ∙ ap (λ p. drain (get decimal buffer) rest (here (position + (second - pos)) (some p)))
            {y = second} (omega arith)
        ∙ behind-nil (second - pos) (drop position c) _ (omega arith),
  )
  part_stretch (suc left) position pos room h k l f =
      let n = next_size buffer second pos in
      let bounds = next_size-bounds buffer second pos h k in
      elim (dec_lt 0 n) [
        | no none_left ↦ part_stretch left position pos room h k l (ground (arith, bounds))
        | yes some_left ↦
            let (calls, e) =
              part_stretch left (position + n) (pos + n) room (omega (arith, bounds)) k
                (omega (arith, bounds)) (omega (arith, bounds)) in
            (
              suc calls,
              λ rest.
                  part_step position pos n calls rest h bounds.1
                    (part-chunk position pos n refl some_left (omega (arith, bounds))) (e rest),
            )
      ]

-- With several ranges, ends below 2^64 and a buffer that is not empty, the content of a part, from a
-- file at `position`, where `position + second` is at most the size and `first` at most `second`: a
-- number of calls gives the bytes from `position + first` on, since the file is sought from where it
-- is, and one byte fewer than the range has, since its last byte is not counted; what later calls give
-- comes from the end of those bytes.
pub get-part_bytes :
    (decimal : ℕ → Text) (buffer : ℕ) (r q : ℕ × ℕ) (ranges : List (ℕ × ℕ))
    (content_type boundary : Text) (size index first second junk position : ℕ) (c : Text)
    → get_elem? (r ∷ q ∷ ranges) index ≡ some (first, second)
    → 0 < buffer
    → first ≤ second
    → second < word
    → position + second ≤ length c
    → (calls : ℕ) × ((rest : ℕ)
        → drain
            (get decimal buffer)
            (calls + rest)
            (in_part (of_ranges r q ranges content_type boundary size c) index c position none junk)
          ≡ behind (take (second - first) (drop (position + first) c)) (
              drain (get decimal buffer) rest (
                in_part
                  (of_ranges r q ranges content_type boundary size c)
                  index
                  c
                  (position + second)
                  (some second)
                  junk)))
get-part_bytes decimal buffer r q ranges content_type boundary size index first second junk position
      c at room h k l =
    let (calls, e) =
      part_stretch decimal buffer r q ranges content_type boundary size index first second junk c at
        (second - first) (position + first) first room (omega arith) k (omega arith)
        (omega arith) in
    (
      calls,
      λ rest.
          part-seek decimal buffer r q ranges content_type boundary size index first second junk c
            at position (calls + rest)
          ∙ e rest
          ∙ ap
              (λ p. behind (take (second - first) (drop (position + first) c)) (
                drain (get decimal buffer) rest (
                  in_part (of_ranges r q ranges content_type boundary size c) index c p
                    (some second) junk)))
              (omega arith),
    )
