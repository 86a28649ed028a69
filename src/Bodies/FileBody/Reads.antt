-- ===== src/Bodies/FileBody/Reads.antt =====
-- Reading a stretch of a file in pieces of the size of the buffer.
use mathlib.Core.Option
use httplib.Base.{
  ℕ, zero, suc, ◌+◌, ◌-◌, ◌%◌, ◌≤◌, ◌<◌, ◌≡◌, ◌⊎◌, refl, sym, ap, ◌∙◌, Bool, true, false, Option,
  none, some, [], ◌∷◌, ◌++◌, arith, ltb, if◌then◌else◌, Text, length, take, drop, length-drop,
}
use httplib.Bodies.FileBody.{
  word, Writer, Got, ended, short_read, chunk, with_file, next_size, begun, get_single,
}

pub length-take : (n : ℕ) (s : Text) → n ≤ length s → length (take n s) ≡ n
length-take zero s h = refl
length-take (suc n) [] h = absurd (omega arith)
length-take (suc n) (x ∷ s) h = omega (arith, length-take n s (omega arith))

pub take-nil : (n : ℕ) → take {A = ℕ} n [] ≡ []
take-nil zero = refl
take-nil (suc n) = refl

-- A stretch is its first bytes and the rest of it.
pub take-append_drop : (n m : ℕ) (s : Text) → take n s ++ take m (drop n s) ≡ take (n + m) s
take-append_drop zero m s = ap (λ k. take k s) (omega arith)
take-append_drop (suc n) m [] = take-nil m ∙ sym (take-nil (suc n + m))
take-append_drop (suc n) m (x ∷ s) =
    ap (◌∷◌ x) (take-append_drop n m s) ∙ ap (λ k. take k (x ∷ s)) {x = suc (n + m)} (omega arith)

-- Within 64 bits the size of a piece is the smaller of what is left and of the buffer.
pub next_size-bounds :
    (buffer second pos : ℕ)
    → pos ≤ second
    → second < word
    → (next_size buffer second pos ≤ buffer)
      × (next_size buffer second pos ≤ second - pos)
      × ((next_size buffer second pos ≡ buffer) ⊎ (next_size buffer second pos ≡ second - pos))
unfolding next_size
next_size-bounds buffer second pos h k =
    let left : (second + word - pos) % word ≡ second - pos = omega (arith, h, k) in
    ground (arith, left)

abbrev pub joined : Got → Option (Text × Bool) → Option (Text × Bool)
joined ended rest = some ([], true)
joined short_read rest = some ([], false)
joined (chunk bytes more) rest =
    if more then Option.map (λ t. (bytes ++ t.0, t.1)) rest else some (bytes, true)

-- The bytes that calls of `step` give, up to the one that says that it is the last, and whether they
-- end without an error; `none` where the number of calls is too small.
unfoldable pub drain : (Writer → Writer × Got) → ℕ → Writer → Option (Text × Bool)
drain step zero w = none
drain step (suc calls) w = let (next, got) = step w in joined got (drain step calls next)

pub drain-step :
    (step : Writer → Writer × Got) (calls : ℕ) (w next : Writer) (got : Got)
    → step w ≡ (next, got)
    → drain step (suc calls) w ≡ joined got (drain step calls next)
unfolding drain
drain-step step calls w next got e = ap (λ o. joined o.1 (drain step calls o.0)) e

-- A writer in a file at a position that it can be read from.
abbrev pub reading : Writer → Text → ℕ → ℕ → Writer
reading w c position pos = record {
  body = with_file w.body (record { contents = c; position = position; failed = false });
  range_index = w.range_index;
  pos = some pos;
  step = w.step;
  file_size = w.file_size;
}

module _ (decimal : ℕ → Text) (buffer : ℕ) (w : Writer) (c : Text) (first second : ℕ) where
  -- One call where bytes are left.
  pub single-chunk :
      (position pos n : ℕ)
      → next_size buffer second pos ≡ n
      → 0 < n
      → position + n ≤ length c
      → get_single decimal buffer (reading w c position pos) first second ≡ (
        reading w c (position + n) (pos + n),
        chunk (take n (drop position c)) (ltb (pos + n) second),
      )
  unfolding get_single begun
  single-chunk position pos n e some_left fits =
      let full : length (take n (drop position c)) ≡ n =
        length-take n (drop position c) (omega (arith, length-drop position c)) in
      rw (e, full) (ground arith)

  pub single-over :
      (position pos : ℕ)
      → next_size buffer second pos ≡ 0
      → get_single decimal buffer (reading w c position pos) first second
        ≡ (reading w c position pos, ended)
  unfolding get_single begun
  single-over position pos e = rw e refl
