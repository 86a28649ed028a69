-- ===== src/Bodies/FormData/Reader/Prefixes.antt =====
-- What the bytes that have arrived tell of the bytes still to come.
use httplib.Base.{
  ℕ, zero, suc, ◌+◌, ◌≤◌, ◌≡◌, ◌≢◌, refl, sym, ap, ◌∙◌, true, false, some, List, [], ◌∷◌, ◌++◌, inl,
  inr, arith, Text, codes, length, take, drop, find, starts_with, Lacks, All, length-append,
  append_assoc, Option-cases, Bool-cases,
}
use httplib.Util.Split.Total.{find_bound}
use httplib.Bodies.FormData.Disposition.Lines.{block, IsLine, find_past}

pub starts_with-take :
    (k : ℕ) (s p : Text)
    → starts_with s p ≡ true
    → length p ≤ length (take k s)
    → starts_with (take k s) p ≡ true
unfolding starts_with
starts_with-take zero s [] h l = refl
starts_with-take zero s (d ∷ p) h l = absurd (omega arith)
starts_with-take (suc k) [] p h l = h
starts_with-take (suc k) (c ∷ s) [] h l = refl
starts_with-take (suc k) (c ∷ s) (d ∷ p) h l = ground (arith, starts_with-take k s p)

pub starts_with_of_take :
    (k : ℕ) (s p : Text) → starts_with (take k s) p ≡ true → starts_with s p ≡ true
unfolding starts_with
starts_with_of_take zero [] p h = h
starts_with_of_take zero (c ∷ s) [] h = refl
starts_with_of_take zero (c ∷ s) (d ∷ p) h = cc
starts_with_of_take (suc k) [] p h = h
starts_with_of_take (suc k) (c ∷ s) [] h = refl
starts_with_of_take (suc k) (c ∷ s) (d ∷ p) h = ground (arith, starts_with_of_take k s p)

-- The first occurrence within a prefix is the first occurrence.
pub find-take :
    (k : ℕ) (s : Text) (d : ℕ) (p : Text) (i : ℕ)
    → find (take k s) (d ∷ p) ≡ some i
    → find s (d ∷ p) ≡ some i
unfolding find
find-take zero s d p i h = cc
find-take (suc k) [] d p i h = h
find-take (suc k) (c ∷ s) d p i h = elim (Bool-cases (starts_with (c ∷ take k s) (d ∷ p))) [
  | inl e ↦ ground (arith, starts_with_of_take (suc k) (c ∷ s) (d ∷ p) e)
  | inr e ↦ later e (λ j. find-take k s d p j)
]
  where
    later :
        starts_with (c ∷ take k s) (d ∷ p) ≡ false
        → ((j : ℕ) → find (take k s) (d ∷ p) ≡ some j → find s (d ∷ p) ≡ some j)
        → find (c ∷ s) (d ∷ p) ≡ some i
    later e rec = elim (Option-cases (find (take k s) (d ∷ p))) [
      | inl n ↦ absurd (ground (arith, n))
      | inr (j, n) ↦
          let long = find_bound (take k s) (d ∷ p) n in
          elim (Bool-cases (starts_with (c ∷ s) (d ∷ p))) [
            | inl f ↦ absurd (cc (starts_with-take (suc k) (c ∷ s) (d ∷ p) f (omega arith)))
            | inr f ↦ ground (arith, rec j n)
          ]
    ]

pub take-take_length :
    {A : Type 0} (n k : ℕ) (s : List A) → n ≤ length (take k s) → take n (take k s) ≡ take n s
take-take_length zero k s h = refl
take-take_length (suc n) zero s h = absurd (omega arith)
take-take_length (suc n) (suc k) [] h = refl
take-take_length (suc n) (suc k) (c ∷ s) h = ap (◌∷◌ c) (take-take_length n k s (omega arith))

-- Bytes without a `c` that start a text end before its first `c`.
pub within :
    (c : ℕ) (q u p v : Text)
    → Lacks c q
    → q ++ u ≡ p ++ c ∷ v
    → (r : Text) × (p ≡ q ++ r) × (u ≡ r ++ c ∷ v)
within c [] u p v h e = (p, refl, e)
within c (x ∷ q) u [] v h e = absurd (h.0 (head_eq e))
  where
    head_eq : {x y : ℕ} {s t : Text} → x ∷ s ≡ y ∷ t → x ≡ y
    head_eq e = cc
within c (x ∷ q) u (y ∷ p) v h e =
    let (r, a, b) = within c q u p v h.1 (ap (drop 1) e) in
    (r, (ap (λ z. z ∷ p) (sym (head_eq e)) ∙ ap (◌∷◌ x) a), b)
  where
    head_eq : {x y : ℕ} {s t : Text} → x ∷ s ≡ y ∷ t → x ≡ y
    head_eq e = cc

-- The first occurrence behind some bytes is the first occurrence in what follows them.
pub find_behind : (q t d : Text) (j : ℕ) → find (q ++ t) d ≡ some (length q + j) → find t d ≡ some j
unfolding find
find_behind [] t d j h = h ∙ ap some (omega arith)
find_behind (x ∷ q) t d j h = elim (Option-cases (find (q ++ t) d)) [
  | inl e ↦ absurd (ground (arith, e))
  | inr (i, e) ↦ find_behind q t d j (ground (arith, e))
]

-- The empty line that ends a header is found at its end.
block_end : (t : Text) → find (13 ∷ 10 ∷ 13 ∷ 10 ∷ t) (codes "\r\n\r\n") ≡ some 0
unfolding find starts_with
block_end [] = refl
block_end (x ∷ t) = refl

line_not_end :
    (x : ℕ) (t : Text) (i : ℕ)
    → x ≢ 13
    → find (x ∷ t) (codes "\r\n\r\n") ≡ some i
    → find (13 ∷ 10 ∷ x ∷ t) (codes "\r\n\r\n") ≡ some (2 + i)
unfolding find starts_with
line_not_end x t i h e = ground (arith, e)

pub find-block :
    (line : Text) (lines : List Text) (r : Text)
    → All IsLine (line ∷ lines)
    → (i : ℕ) × (find (block (line ∷ lines) ++ r) (codes "\r\n\r\n") ≡ some i)
      × (i + 4 ≡ length (block (line ∷ lines)))
unfolding block
find-block line [] r h = (
  length line + 0,
  ap (λ t. find t (codes "\r\n\r\n")) (append_assoc line (codes "\r\n\r\n") r)
      ∙ find_past 13 line (13 ∷ 10 ∷ 13 ∷ 10 ∷ r) (10 ∷ 13 ∷ 10 ∷ []) 0 h.0.0 (block_end r),
  omega (arith, length-append line (codes "\r\n\r\n")),
)
find-block line ([] ∷ lines) r h = absurd (omega (arith, h.1.0.3))
find-block line ((x ∷ next) ∷ lines) r h =
    let (i, e, k) = find-block (x ∷ next) lines r h.1 in
    (
      length line + (2 + i),
      ap (λ t. find t (codes "\r\n\r\n"))
            (append_assoc line (13 ∷ 10 ∷ x ∷ next ++ 13 ∷ 10 ∷ block lines) r)
          ∙ find_past 13 line _ (10 ∷ 13 ∷ 10 ∷ []) (2 + i) h.0.0 (line_not_end x _ i h.1.0.0.0 e),
      omega (arith, k, length-append line (13 ∷ 10 ∷ x ∷ next ++ 13 ∷ 10 ∷ block lines)),
    )
