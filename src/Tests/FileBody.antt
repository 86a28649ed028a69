-- ===== src/Tests/FileBody.antt =====
-- The bytes of a file as a body.
use httplib.Base.{
  ℕ, ◌+◌, ◌≤◌, ◌≡◌, refl, true, false, some, none, [], ◌∷◌, ◌++◌, Text, codes, arith, length, All,
}
use httplib.Bodies.FileBody.{Writer, get}
use httplib.Bodies.FileBody.Reads.{drain}
use httplib.Bodies.FileBody.Ranges.{opened, get-asked}
use httplib.Bodies.FileBody.Pieces.{pieces_of}
use httplib.Bodies.FileBody.Truncated.{get-short_part}
use httplib.Bodies.FileBody.Parts.{in_part, of_ranges, behind, get-part_bytes}

-- Decimals of numbers below ten.
abbrev digit : ℕ → Text
digit n = (48 + n) ∷ []

abbrev eight : Text
eight = codes "abcdefgh"

abbrev asks_middle : Writer
asks_middle = opened ((1, 5) ∷ []) (codes "t") (codes "B") eight 7

get-asked_example :
    (drain (get digit 3) 9 asks_middle ≡ some (codes "bcdef", true))
    × All (λ bytes. length bytes ≤ 3) (pieces_of (get digit 3) 9 asks_middle)
get-asked_example =
    get-asked digit 3 ((1, 5) ∷ []) (codes "t") (codes "B") eight 7 (omega arith) (omega arith)
      (omega arith, omega arith)

-- The second range of `0-3,5-7`: the first has left the file at 3.
get-short_part_example :
    drain
      (get digit 3)
      10
      (in_part (of_ranges (0, 3) (5, 7) [] (codes "t") (codes "B") 8 eight) 1 eight 3 none 7)
    ≡ some ([], false)
get-short_part_example =
    get-short_part digit 3 (0, 3) (5, 7) [] (codes "t") (codes "B") 8 1 5 7 7 3 eight refl
      (omega arith) (omega arith) (omega arith) (omega arith)

abbrev second_part : ℕ → Writer
second_part position =
    in_part (of_ranges (0, 1) (2, 4) [] (codes "t") (codes "B") 8 eight) 1 eight position none 7

get-part_bytes_example :
    (calls : ℕ) × ((rest : ℕ)
      → drain (get digit 3) (calls + rest) (second_part 1)
        ≡ behind (codes "de") (
            drain (get digit 3) rest (
              in_part
                (of_ranges (0, 1) (2, 4) [] (codes "t") (codes "B") 8 eight)
                1
                eight
                5
                (some 4)
                7)))
get-part_bytes_example =
    get-part_bytes digit 3 (0, 1) (2, 4) [] (codes "t") (codes "B") 8 1 2 4 7 1 eight refl
      (omega arith) (omega arith) (omega arith) (omega arith)

two_ranges :
    drain (get digit 3) 9 (opened ((0, 1) ∷ (2, 4) ∷ []) (codes "t") (codes "B") eight 7)
    ≡ some (
      codes "--B\r\nContent-Type: t\r\nContent-Range: bytes 0-1/7\r\n\r\n"
          ++ (codes "a\r\n--B\r\nContent-Type: t\r\nContent-Range: bytes 2-4/7\r\n\r\n"
              ++ codes "de\r\n--B--\r\n"),
      true,
    )
unfolding drain get
two_ranges = refl
