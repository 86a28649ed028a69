-- ===== src/Bodies/FileBody/Truncated.antt =====
-- What the calls of `get` give for one of several ranges where the seek leads too far.
use native.Mathlib.Decide.{dec_lt}
use httplib.Base.{
  ℕ, zero, suc, ◌+◌, ◌-◌, ◌≤◌, ◌<◌, ◌≡◌, refl, sym, ap, ◌∙◌, true, false, none, some, List, [], ◌∷◌,
  ◌++◌, ◌⊎◌, inl, inr, Bool, arith, ltb, ◌==◌, Text, length, take, drop, get_elem?, take_all,
  append-nil, length-drop, drop-drop,
}
use httplib.Bodies.FileBody.{
  word, Writer, content, Got, short_read, chunk, next_size, read, get_content, get_multi, get,
  begun,
}
use httplib.Bodies.FileBody.Reads.{next_size-bounds, joined, take-nil, drain, drain-step}
use httplib.Bodies.FileBody.Parts.{in_part, of_ranges, part-chunk, part-seek, joined-more, behind}

nil_of_length : (s : Text) → length s ≡ 0 → s ≡ []
nil_of_length [] h = refl
nil_of_length (x ∷ s) h = absurd (omega arith)

take-drop : (n : ℕ) (s : Text) → take n s ++ drop n s ≡ s
take-drop zero s = refl
take-drop (suc n) [] = refl
take-drop (suc n) (x ∷ s) = ap (◌∷◌ x) (take-drop n s)

some_left :
    (buffer second pos : ℕ)
    → 0 < buffer
    → pos < second
    → second < word
    → 0 < next_size buffer second pos
some_left buffer second pos room h k =
    ground (arith, next_size-bounds buffer second pos (omega (arith, h)) k)

drain-short_read :
    (step : Writer → Writer × Got) (calls : ℕ) (w : Writer)
    → (step w).1 ≡ short_read
    → drain step (suc calls) w ≡ some ([], false)
unfolding drain
drain-short_read step calls w e = ap (λ got. joined got (drain step calls (step w).0)) e

drain-last :
    (step : Writer → Writer × Got) (calls : ℕ) (w next : Writer) (bytes : Text)
    → step w ≡ (next, chunk bytes true)
    → (step next).1 ≡ short_read
    → drain step (suc (suc calls)) w ≡ some (bytes, false)
drain-last step calls w next bytes e f =
    drain-step step (suc calls) w next (chunk bytes true) e
    ∙ ap (joined (chunk bytes true)) (drain-short_read step calls next f)
    ∙ ap (λ t. some (t, false)) (append-nil bytes)

module _ (decimal : ℕ → Text) (buffer : ℕ) (r q : ℕ × ℕ) (ranges : List (ℕ × ℕ))
    (content_type boundary : Text) (size index first second junk : ℕ) (c : Text)
    (at : get_elem? (r ∷ q ∷ ranges) index ≡ some (first, second)) (room : 0 < buffer)
    (k : second < word) where
  -- A writer within the part, on a stream that has failed or not.
  abbrev there : Bool → ℕ → ℕ → Writer
  there failed position pos = record {
    body = record {
      ranges = r ∷ q ∷ ranges;
      content_type = content_type;
      boundary = boundary;
      file = record { contents = c; position = position; failed = failed };
      file_size = size;
    };
    range_index = some index;
    pos = some pos;
    step = content;
    file_size = junk;
  }

  get-there :
      (failed : Bool) (position pos : ℕ)
      → get decimal buffer (there failed position pos)
        ≡ get_content decimal buffer (there failed position pos) index (first, second)
  unfolding get get_multi
  get-there failed position pos = rw at refl

  -- A read at the end of the file or behind it, or of a stream that has failed.
  read-nothing :
      (failed : Bool) (position pos : ℕ)
      → pos < second
      → (failed ≡ true) ⊎ (length c ≤ position)
      → (get decimal buffer (there failed position pos)).1 ≡ short_read
  unfolding get_content begun read
  read-nothing failed position pos h l =
      let n = some_left buffer second pos room h k in
      let nonzero : (next_size buffer second pos == 0) ≡ false = ground (arith, n) in
      let empty : length
            (read (next_size buffer second pos) (there failed position pos).body.file).1
          ≡ 0 =
        read-empty l in
      ap (λ (o : Writer × Got). o.1) (get-there failed position pos) ∙ rw (nonzero, empty) refl
    where
      read-empty :
          (failed ≡ true) ⊎ (length c ≤ position)
          → length (read (next_size buffer second pos) (there failed position pos).body.file).1 ≡ 0
      read-empty (inl e) = rw e refl
      read-empty (inr e) =
          rw (nil_of_length (drop position c) (omega (arith, length-drop position c, e)))
            (ground (arith, take-nil (next_size buffer second pos)))

  -- A read of more than the file has left, of which it gives the rest.
  read-rest :
      (position pos : ℕ)
      → pos < second
      → position < length c
      → length c < position + next_size buffer second pos
      → get decimal buffer (there false position pos) ≡ (
        there true (position + length (drop position c)) (pos + length (drop position c)),
        chunk (drop position c) true,
      )
  unfolding get_content begun read
  read-rest position pos h l more =
      let n = some_left buffer second pos room h k in
      let left = length-drop position c in
      let nonzero : (next_size buffer second pos == 0) ≡ false = ground (arith, n) in
      let all_of : take (next_size buffer second pos) (drop position c) ≡ drop position c =
        take_all (next_size buffer second pos) (drop position c) (omega (arith, left, more)) in
      let some_bytes : (length (drop position c) == 0) ≡ false = ground (arith, left, l) in
      let short : ltb (length (drop position c)) (next_size buffer second pos) ≡ true =
        ground (arith, left, more, l) in
      get-there false position pos ∙ rw (nonzero, all_of, some_bytes, short) refl

  abbrev bounds_at : (pos : ℕ) → pos < second → next_size buffer second pos ≤ second - pos
  bounds_at pos h = (next_size-bounds buffer second pos (omega (arith, h)) k).1

  -- A read where the file ends within the part, but not within the read: then comes `rest`.
  truncated-more :
      (calls position pos : ℕ)
      → pos < second
      → position + next_size buffer second pos ≤ length c
      → drain
          (get decimal buffer)
          calls
          (there false (position + next_size buffer second pos) (pos + next_size buffer second pos))
        ≡ some (drop (position + next_size buffer second pos) c, false)
      → drain (get decimal buffer) (suc calls) (there false position pos)
        ≡ some (drop position c, false)
  truncated-more calls position pos h fits later =
      let n = next_size buffer second pos in
      drain-step (get decimal buffer) calls (there false position pos)
        (there false (position + n) (pos + n)) (chunk (take n (drop position c)) true)
        (part-chunk decimal buffer r q ranges content_type boundary size index first second junk c
          at position pos n refl (some_left buffer second pos room h k) fits)
      ∙ joined-more (take n (drop position c)) _
      ∙ ap (behind (take n (drop position c))) later
      ∙ ap (λ t. some (t, false))
          (ap (◌++◌ (take n (drop position c))) (sym (drop-drop n position c))
            ∙ take-drop n (drop position c))

  truncated-end :
      (calls position pos : ℕ)
      → pos < second
      → length c ≤ position
      → drain (get decimal buffer) (suc calls) (there false position pos)
        ≡ some (drop position c, false)
  truncated-end calls position pos h over =
      drain-short_read (get decimal buffer) calls (there false position pos)
        (read-nothing false position pos h (inr over))
      ∙ ap (λ t. some (t, false))
          (sym (nil_of_length (drop position c) (omega (arith, length-drop position c, over))))

  truncated-last :
      (calls position pos : ℕ)
      → pos < second
      → position < length c
      → length c < position + next_size buffer second pos
      → drain (get decimal buffer) (suc (suc calls)) (there false position pos)
        ≡ some (drop position c, false)
  truncated-last calls position pos h within more =
      let bounds = bounds_at pos h in
      drain-last (get decimal buffer) calls (there false position pos) _ (drop position c)
        (read-rest position pos h within more)
        (read-nothing true (position + length (drop position c)) (pos + length (drop position c))
          (omega (arith, length-drop position c, bounds, more, within)) (inl refl))

  -- The bytes up to the end of the file, and then the error.
  truncated :
      (left position pos : ℕ)
      → pos < second
      → length c < position + (second - pos)
      → length c - position ≤ left
      → drain (get decimal buffer) (suc (suc left)) (there false position pos)
        ≡ some (drop position c, false)
  truncated zero position pos h over f = truncated-end 1 position pos h (omega (arith, f))
  truncated (suc left) position pos h over f = elim (dec_lt position (length c)) [
    | no behind_end ↦ truncated-end (suc (suc left)) position pos h (omega (arith, behind_end))
    | yes within ↦ elim (dec_lt (length c) (position + next_size buffer second pos)) [
      | yes more ↦ truncated-last (suc left) position pos h within more
      | no less ↦
          let n = next_size buffer second pos in
          let one = some_left buffer second pos room h k in
          let bounds = bounds_at pos h in
          truncated-more (suc (suc left)) position pos h (omega (arith, less)) (
            truncated left (position + n) (pos + n) (omega (arith, bounds, less, over, h))
              (omega (arith, bounds, less, over, h)) (omega (arith, f, one, within)))
    ]
  ]

-- With several ranges, ends below 2^64 and a buffer that is not empty, the content of a part, from a
-- file at `position`, where `position + second` is above the size and `first` below `second`: the calls
-- give the bytes from `position + first` up to the end of the file, none if that is behind it, and then
-- the error `short_read`.
pub get-short_part :
    (decimal : ℕ → Text) (buffer : ℕ) (r q : ℕ × ℕ) (ranges : List (ℕ × ℕ))
    (content_type boundary : Text) (size index first second junk position : ℕ) (c : Text)
    → get_elem? (r ∷ q ∷ ranges) index ≡ some (first, second)
    → 0 < buffer
    → first < second
    → second < word
    → length c < position + second
    → drain
        (get decimal buffer)
        (suc (suc (length c)))
        (in_part (of_ranges r q ranges content_type boundary size c) index c position none junk)
      ≡ some (drop (position + first) c, false)
get-short_part decimal buffer r q ranges content_type boundary size index first second junk position
      c at room h k l =
    part-seek decimal buffer r q ranges content_type boundary size index first second junk c at
      position (suc (suc (length c)))
    ∙ truncated decimal buffer r q ranges content_type boundary size index first second junk c at
        room k (length c) (position + first) first h (omega (arith, h, l)) (omega arith)
