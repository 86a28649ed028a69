-- ===== src/Bodies/FormData/Disposition/Lines.antt =====
-- The lines of a part's header: `util::split` at "\r\n" gives them back.
use mathlib.Core.Option
use httplib.Base.{
  drop-append_cons, ℕ, zero, suc, ◌+◌, ◌-◌, ◌<◌, ◌≡◌, ◌≢◌, refl, true, substr, sym, ap, ◌∙◌, some,
  List, [], ◌∷◌, ◌++◌, arith, Text, codes, length, take, drop, find, find_from, starts_with, Lacks,
  All, length-append, length-drop, drop-drop, drop-append, take-append,
}
use httplib.Util.Trim.{Trimming, StartsClean, EndsClean, trim_id, trim-nil}
use httplib.Util.Split.{split, split_from}
use httplib.Util.Split.Pieces.{find-append}
use httplib.Bodies.FormData.Disposition.{header_lines, split_header_field_value}
use httplib.Util.Split.Total.{split_from_more, split_from_last, split_total}

-- Lines, each with its end, and an empty line.
unfoldable pub block : List Text → Text
block [] = codes "\r\n"
block (line ∷ lines) = line ++ 13 ∷ 10 ∷ block lines

abbrev pub IsLine : Text → Type 0
IsLine line = Lacks 13 line × StartsClean line × EndsClean line × 0 < length line

-- An occurrence behind bytes that are not its first byte.
pub find_past :
    (c : ℕ) (p t d : Text) (j : ℕ)
    → Lacks c p
    → find t (c ∷ d) ≡ some j
    → find (p ++ t) (c ∷ d) ≡ some (length p + j)
unfolding find starts_with
find_past c [] t d j h e = e ∙ ap some (omega arith)
find_past c (x ∷ p) t d j h e = ground (arith, find_past c p t d j h.1 e)

starts_with-nil : (s : Text) → starts_with s [] ≡ true
unfolding starts_with
starts_with-nil [] = refl
starts_with-nil (x ∷ s) = refl

line_end : (t : Text) → find (13 ∷ 10 ∷ t) (codes "\r\n") ≡ some 0
unfolding find starts_with
line_end [] = refl
line_end (x ∷ t) = refl

find_line :
    (line t : Text) → Lacks 13 line → find (line ++ 13 ∷ 10 ∷ t) (codes "\r\n") ≡ some (length line)
find_line line t h =
    find_past 13 line (13 ∷ 10 ∷ t) (10 ∷ []) 0 h (line_end t) ∙ ap some (omega arith)

module _ (boost : Trimming) (str : Text) where
  found_at :
      (pos : ℕ) (line t : Text)
      → drop pos str ≡ line ++ 13 ∷ 10 ∷ t
      → Lacks 13 line
      → find_from str (codes "\r\n") pos ≡ some (pos + length line)
  unfolding find_from
  found_at pos line t e h = rw (e, find_line line t h) refl

  size_at :
      (pos : ℕ) (line t : Text)
      → drop pos str ≡ line ++ 13 ∷ 10 ∷ t
      → pos + length line + 2 + length t ≡ length str
  size_at pos line t e =
      omega (arith, length-drop pos str, ap length e, length-append line (13 ∷ 10 ∷ t))

  part_at :
      (pos i : ℕ) (line t : Text)
      → drop pos str ≡ line ++ 13 ∷ 10 ∷ t
      → i ≡ pos + length line
      → substr str pos (i - pos) ≡ line
  part_at pos i line t e h =
      ap (λ n. take n (drop pos str)) {y = length line} (omega arith)
      ∙ ap (take (length line)) e
      ∙ take-append line (13 ∷ 10 ∷ t)

  rest_at :
      (pos i : ℕ) (line t : Text)
      → drop pos str ≡ line ++ 13 ∷ 10 ∷ t
      → i ≡ pos + length line
      → drop (i + 2) str ≡ t
  rest_at pos i line t e h =
      ap (λ n. drop n str) {y = pos + (length line + 2)} (omega arith)
      ∙ sym (drop-drop (length line + 2) pos str)
      ∙ ap (drop (length line + 2)) e
      ∙ ap (λ n. drop n (line ++ 13 ∷ 10 ∷ t)) {y = length line + 2} refl
      ∙ sym (drop-drop 2 (length line) (line ++ 13 ∷ 10 ∷ t))
      ∙ ap (drop 2) (drop-append line (13 ∷ 10 ∷ t))

  -- One line that is not the last.
  split_line :
      (fuel pos i : ℕ) (line t : Text) (parts : List Text)
      → drop pos str ≡ line ++ 13 ∷ 10 ∷ t
      → IsLine line
      → suc i ≡ pos + length line
      → 0 < length t
      → split_from boost str (codes "\r\n") fuel (suc i + 2) ≡ some parts
      → split_from boost str (codes "\r\n") (suc fuel) pos ≡ some (line ∷ parts)
  split_line fuel pos i line t parts e h p k rest =
      split_from_more boost str (codes "\r\n") fuel pos i
        (found_at pos line t e h.0 ∙ ap some (sym p)) (omega (arith, size_at pos line t e))
      ∙ rw rest (
          ap (λ part. some (part ∷ parts))
            (ap boost.trim (part_at pos (suc i) line t e p) ∙ trim_id boost line h.1 h.2))

  split_end :
      (fuel pos i : ℕ)
      → drop pos str ≡ codes "\r\n"
      → suc i ≡ pos
      → split_from boost str (codes "\r\n") (suc fuel) pos ≡ some ([] ∷ [])
  split_end fuel pos i e p =
      split_from_last boost str (codes "\r\n") fuel pos i
        (found_at pos [] [] e tt ∙ ap some (omega arith)) (omega (arith, size_at pos [] [] e))
      ∙ ap (λ part. some (part ∷ []))
          (ap boost.trim (part_at pos (suc i) [] [] e (omega arith)) ∙ trim-nil boost)

pub block-pos : (lines : List Text) → 0 < length (block lines)
unfolding block
block-pos [] = omega arith
block-pos (line ∷ lines) = omega (arith, length-append line (13 ∷ 10 ∷ block lines))

module _ (boost : Trimming) (str : Text) where
  split_block :
      (lines : List Text) (fuel pos : ℕ)
      → All IsLine lines
      → drop pos str ≡ block lines
      → length lines < fuel
      → 0 < pos
      → split_from boost str (codes "\r\n") fuel pos ≡ some (lines ++ [] ∷ [])
  unfolding block
  split_block lines zero pos h e k z = absurd (omega arith)
  split_block lines fuel zero h e k z = absurd (omega arith)
  split_block [] (suc fuel) (suc i) h e k z = split_end boost str fuel (suc i) i e refl
  split_block (line ∷ lines) (suc fuel) (suc pos) h e k z =
      split_line boost str fuel (suc pos) (pos + length line) line (block lines) (lines ++ [] ∷ [])
        e h.0 (omega arith) (block-pos lines)
        (split_block lines fuel (suc (pos + length line) + 2) h.1
          (rest_at boost str (suc pos) (suc (pos + length line)) line (block lines) e (omega arith))
          (omega arith) (omega arith))

length-block : (lines : List Text) → length lines < length (block lines)
unfolding block
length-block [] = omega arith
length-block (line ∷ lines) =
    omega (arith, length-append line (13 ∷ 10 ∷ block lines), length-block lines)

block-nonempty : (lines : List Text) → block lines ≢ []
block-nonempty lines e = absurd (omega (arith, block-pos lines, ap length e))

some_eq : {a b : List Text} → some a ≡ some b → a ≡ b
some_eq e = cc

-- Splitting lines, each with its end, and an empty line gives the lines and an empty text.
split-block :
    (boost : Trimming) (line : Text) (lines : List Text)
    → All IsLine (line ∷ lines)
    → split boost (block (line ∷ lines)) (codes "\r\n") ≡ line ∷ lines ++ [] ∷ []
unfolding block
split-block boost [] lines h = absurd (omega (arith, h.0))
split-block boost (x ∷ line) lines h =
    let str = block ((x ∷ line) ∷ lines) in
    some_eq (
      sym (split_total boost str (codes "\r\n") (omega arith) (block-nonempty ((x ∷ line) ∷ lines)))
      ∙ split_line boost str (length str) 0 (length line) (x ∷ line) (block lines)
          (lines ++ [] ∷ []) refl h.0 (omega arith) (block-pos lines)
          (split_block boost str lines (length str) (suc (length line) + 2) h.1
            (rest_at boost str 0 (suc (length line)) (x ∷ line) (block lines) refl (omega arith))
            (omega (arith, length-block ((x ∷ line) ∷ lines))) (omega arith)))

module _ (boost : Trimming) where
  -- A line `key: value` is read as that pair.
  pub header_lines-line :
      (x : ℕ) (k v : Text) (lines : List Text)
      → Lacks 58 (x ∷ k)
      → header_lines boost ((x ∷ k ++ 58 ∷ v) ∷ lines)
        ≡ Option.map (λ more. (boost.trim (x ∷ k), boost.trim v) ∷ more) (header_lines boost lines)
  unfolding header_lines
  header_lines-line x k v lines h =
      rw
        (
          find-append 58 (x ∷ k) v h,
          take-append (x ∷ k) (58 ∷ v),
          drop-append_cons (x ∷ k) 58 v,
          header_lines,
        )
        refl

  pub split_header-block :
      (line : Text) (lines : List Text)
      → All IsLine (line ∷ lines)
      → split_header_field_value boost (block (line ∷ lines))
        ≡ header_lines boost (line ∷ lines ++ [] ∷ [])
  unfolding split_header_field_value
  split_header-block line lines h = ap (header_lines boost) (split-block boost line lines h)
