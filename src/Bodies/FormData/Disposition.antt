-- ===== src/Bodies/FormData/Disposition.antt =====
-- `detail::parse_content_disposition` and `detail::split_header_field_value` of
-- lib/body/form_data_body.cpp. The position in the source is kept as the text that follows it. The
-- loop runs on fuel, and `none` means that the fuel ran out, which the fuel given by
-- `parse_content_disposition`, one more than the length of the text, rules out (`Pairs`).
pub mod Pairs
pub mod Lines
use mathlib.Core.Option
use httplib.Base.{
  ℕ, zero, suc, ◌+◌, Bool, true, false, not, ◌&&◌, Option, none, some, List, [], ◌∷◌, ◌++◌, ◌==◌,
  if◌then◌else◌, Text, codes, length, take, drop, null, find,
}
use httplib.Util.Trim.{Trimming, is_space}
use httplib.Util.Split.{split}

-- The quoted value up to its closing quote, and the text from the quote on; `escape` as in the
-- source. The backslashes stay in the value.
unfoldable pub quoted : Bool → Text → Text × Text
quoted escape [] = ([], [])
quoted escape (c ∷ s) =
    let rest = quoted (c == 92 && not escape) s in
    if c == 34 && not escape then ([], c ∷ s) else (c ∷ rest.0, rest.1)

module _ (boost : Trimming) where
  -- A value without quotes ends at the next `;`.
  unfoldable pub plain : Text → Text × Text
  unfolding find
  plain s = elim (find s (codes ";")) [
    | none ↦ (boost.trim s, [])
    | some end ↦ (boost.trim (take end s), drop end s)
  ]

  unfoldable pub value_at : Text → Text × Text
  unfolding quoted plain
  value_at [] = plain []
  value_at (c ∷ s) =
      let inner = quoted false s in if c == 34 then (inner.0, drop 1 inner.1) else plain (c ∷ s)

unfoldable pub skip_semicolon : Text → Text
skip_semicolon [] = []
skip_semicolon (c ∷ s) = if c == 59 then s else c ∷ s

-- `std::isspace` in the classic locale.
unfoldable pub skip_spaces : Text → Text
skip_spaces [] = []
skip_spaces (c ∷ s) = let rest = skip_spaces s in if is_space c then rest else c ∷ s

module _ (boost : Trimming) where
  unfoldable pub parse_from : ℕ → Text → Option (List (Text × Text))
  unfolding find value_at skip_semicolon skip_spaces
  parse_from zero header = none
  parse_from (suc fuel) [] = some []
  parse_from (suc fuel) (c ∷ s) = elim (find (c ∷ s) (codes "=")) [
    | none ↦ some []
    | some eq ↦
        let key = boost.trim (take eq (c ∷ s)) in
        let after = value_at boost (drop (eq + 1) (c ∷ s)) in
        let results = parse_from fuel (skip_spaces (skip_semicolon after.1)) in
        Option.map (λ more. (key, after.0) ∷ more) results
  ]

  unfoldable pub parse_content_disposition : Text → List (Text × Text)
  unfolding parse_from
  parse_content_disposition header = Option.get_or (parse_from (suc (length header)) header) []

  -- `none` stands for the error `unexpected_body`.
  unfoldable pub header_lines : List Text → Option (List (Text × Text))
  unfolding find
  header_lines [] = some []
  header_lines (line ∷ lines) =
      let results = header_lines lines in
      if null line then results else elim (find line (codes ":")) [
        | none ↦ none
        | some pos ↦
            Option.map
              (λ more. (boost.trim (take pos line), boost.trim (drop (pos + 1) line)) ∷ more)
              results
      ]

  unfoldable pub split_header_field_value : Text → Option (List (Text × Text))
  unfolding header_lines split
  split_header_field_value header = header_lines (split boost header (codes "\r\n"))
