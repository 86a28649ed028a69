-- ===== src/Util/Split.antt =====
-- `util::split` of include/httplib/util/misc.hpp, on positions as in the source. The loop runs on
-- fuel; `none` means that the fuel ran out, which the fuel given by `split`, one more than the
-- length of the text, rules out (`Split/Total`). `std::string_view::npos` is the `none` of `find_from`; the additions to it in
-- the source wrap round to a small number, and both tests behind it then end the loop.
pub mod Total
pub mod Pieces
pub mod Laws
pub mod Lacks
use httplib.Base.{
  ℕ, zero, suc, ◌+◌, ◌-◌, ◌≡◌, refl, Bool, true, false, Option, none, some, List, [], ◌∷◌, ◌++◌,
  leb, ◌==◌, if◌then◌else◌, Text, length, null, drop, find_from, substr, codes,
}
use mathlib.Core.Option
use httplib.Util.Trim.{Trimming}

module _ (boost : Trimming) (str delimiter : Text) where
  pub split_from : ℕ → ℕ → Option (List Text)
  split_from zero pos = none
  split_from (suc fuel) pos = elim (find_from str delimiter pos) [
    | none ↦ some (boost.trim (drop pos str) ∷ [])
    | some pos_found ↦
        let dropped = split_from fuel (pos + length delimiter) in
        let part = boost.trim (substr str pos (pos_found - pos)) in
        let rest = split_from fuel (pos_found + length delimiter) in
        if pos_found == 0
        then dropped
        else if leb (length str) (pos_found + length delimiter)
        then some (part ∷ [])
        else Option.map (λ parts. part ∷ parts) rest
  ]

  unfoldable pub split : List Text
  unfolding split_from
  split =
      if null str
      then []
      else if null delimiter
      then str ∷ []
      else Option.get_or (split_from (suc (length str)) 0) []
