-- ===== src/Bodies/FileBody/Pieces.antt =====
-- How large the pieces are that the calls of `get` give of a file.
use httplib.Base.{
  ℕ, zero, suc, ◌+◌, ◌≤◌, ◌≡◌, refl, sym, subst, List, [], ◌∷◌, ◌==◌, arith, inl, inr, Bool-cases,
  Text, length, take, drop, All,
}
use httplib.Bodies.FileBody.{
  File, Writer, Got, ended, short_read, chunk, next_size, read, begun, get_single, get_by, get,
}

-- The bytes that a number of calls give, in pieces.
abbrev with_piece : Got → List Text → List Text
with_piece ended rest = rest
with_piece short_read rest = rest
with_piece (chunk bytes more) rest = bytes ∷ rest

unfoldable pub pieces_of : (Writer → Writer × Got) → ℕ → Writer → List Text
pieces_of step zero w = []
pieces_of step (suc calls) w =
    let (next, got) = step w in with_piece got (pieces_of step calls next)

length-take_le : (n : ℕ) (s : Text) → length (take n s) ≤ n
length-take_le zero s = omega arith
length-take_le (suc n) [] = omega arith
length-take_le (suc n) (x ∷ s) = omega (arith, length-take_le n s)

next_size-le : (buffer second pos : ℕ) → next_size buffer second pos ≤ buffer
unfolding next_size
next_size-le buffer second pos = ground arith

length-read : (n : ℕ) (file : File) → length (read n file).1 ≤ n
unfolding read
length-read n file = elim (Bool-cases file.failed) [
  | inl e ↦ rw e (omega arith)
  | inr e ↦ rw e (length-take_le n (drop file.position file.contents))
]

abbrev IsSmall : ℕ → Got → Type 0
IsSmall buffer ended = Unit
IsSmall buffer short_read = Unit
IsSmall buffer (chunk bytes more) = length bytes ≤ buffer

-- At most one range.
abbrev pub IsSingle : List (ℕ × ℕ) → Type 0
IsSingle [] = Unit
IsSingle (r ∷ []) = Unit
IsSingle (r ∷ q ∷ ranges) = ⊥

module _ (decimal : ℕ → Text) (buffer : ℕ) where
  single-IsSmall :
      (w : Writer) (first second : ℕ)
      → IsSmall buffer (get_single decimal buffer w first second).1
        × ((get_single decimal buffer w first second).0.body.ranges ≡ w.body.ranges)
  unfolding get_single
  single-IsSmall w first second =
      let at = begun w.pos first w.body.file in
      let n = next_size buffer second at.1 in
      elim (Bool-cases (n == 0)) [
        | inl e ↦ rw e (tt, refl)
        | inr e ↦ rw e (elim (Bool-cases (length (read n at.0).1 == 0)) [
          | inl f ↦ rw f (tt, refl)
          | inr f ↦ rw f (omega (arith, length-read n at.0, next_size-le buffer second at.1), refl)
        ])
      ]

  get_by-IsSmall :
      (w : Writer) (ranges : List (ℕ × ℕ))
      → IsSingle ranges
      → IsSmall buffer (get_by decimal buffer ranges w).1
        × ((get_by decimal buffer ranges w).0.body.ranges ≡ w.body.ranges)
  unfolding get_by
  get_by-IsSmall w [] h = single-IsSmall w 0 w.body.file_size
  get_by-IsSmall w ((first, second) ∷ []) h = single-IsSmall w first (second + 1)
  get_by-IsSmall w (r ∷ q ∷ ranges) h = absurd h

  with_piece-IsSmall :
      (got : Got) (rest : List Text)
      → IsSmall buffer got
      → All (λ bytes. length bytes ≤ buffer) rest
      → All (λ bytes. length bytes ≤ buffer) (with_piece got rest)
  with_piece-IsSmall ended rest s r = r
  with_piece-IsSmall short_read rest s r = r
  with_piece-IsSmall (chunk bytes more) rest s r = (s, r)

  pub pieces_of-small :
      (calls : ℕ) (w : Writer)
      → IsSingle w.body.ranges
      → All (λ bytes. length bytes ≤ buffer) (pieces_of (get decimal buffer) calls w)
  unfolding pieces_of get
  pieces_of-small zero w h = tt
  pieces_of-small (suc calls) w h =
      let (small, kept) = get_by-IsSmall w w.body.ranges h in
      with_piece-IsSmall (get decimal buffer w).1 _ small
        (pieces_of-small calls (get decimal buffer w).0 (subst IsSingle (sym kept) h))
