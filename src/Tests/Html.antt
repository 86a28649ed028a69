-- ===== src/Tests/Html.antt =====
-- Query parameters and byte ranges.
use httplib.Base.{
  ℕ, ◌≡◌, ◌≢◌, refl, true, false, some, none, List, [], ◌∷◌, ◌++◌, map, Text, codes, arith, All,
  Lacks, if◌then◌else◌, ◌&&◌, ◌||◌, leb, ◌==◌,
}
use mathlib.Core.List.{Perm}
use httplib.Html.QueryParams.{Entries, Joining, decode, encoded_params}
use httplib.Html.QueryParams.RoundTrip.{IsEntry, plus_entry, decode-encoded_params}
use httplib.Html.Ranges.{pos, negsuc, Ranges, range, parsed, parse, parse_element}
use httplib.Html.Ranges.Bounds.{parse_element-suffix}
use httplib.Html.Ranges.Within.{IsWithin, parse-IsWithin}
use httplib.Html.Ranges.Large.{parse_element-large}
use httplib.Tests.Trimming.{trimming}
use httplib.Tests.Parameters.{join_all, newest_first}

abbrev joining : Joining
joining = record {
  join = join_all;
  join_none = λ between. refl;
  join_one = λ s between. refl;
  join_more = λ s t ts between. refl;
}

abbrev two_params : Entries
two_params = (codes "q", codes "a b") ∷ (codes "p", []) ∷ []

written_params : encoded_params joining two_params ≡ codes "q=a+b&p="
unfolding encoded_params httplib.Util.Url.url_encode
written_params = refl

empty_key : decode trimming newest_first (codes "=v") ≡ some ((codes "v", []) ∷ [])
unfolding decode httplib.Util.Split.split httplib.Base.find_from trimming
    httplib.Tests.Trimming.join httplib.Util.Url.url_decode
empty_key = refl

two_params-IsEntry : All IsEntry two_params
two_params-IsEntry = (
  ((λ e. cc), (omega arith, tt), (omega arith, (omega arith, (omega arith, tt)))),
  (((λ e. cc), (omega arith, tt), tt), tt),
)

decode-encoded_params_example :
    (again : Entries) × (decode trimming newest_first (encoded_params joining two_params)
      ≡ some again)
    × Perm again (map plus_entry two_params)
decode-encoded_params_example =
    decode-encoded_params joining trimming newest_first two_params two_params-IsEntry

range_list :
    parse trimming (codes "bytes=0-9, 20-") 100
    ≡ some (parsed ((pos 0, pos 9) ∷ (pos 20, pos 99) ∷ []))
unfolding parse trimming httplib.Tests.Trimming.join httplib.Base.starts_with httplib.Base.find
    httplib.Base.eq_text httplib.Util.Split.split httplib.Base.find_from
range_list = refl

descending_range : parse trimming (codes "bytes=9-3") 100 ≡ some (parsed ((pos 9, pos 3) ∷ []))
unfolding parse trimming httplib.Tests.Trimming.join httplib.Base.starts_with httplib.Base.find
    httplib.Base.eq_text httplib.Util.Split.split httplib.Base.find_from
descending_range = refl

range_gap : parse trimming (codes "bytes=0-1,,3-4") 100 ≡ none
unfolding parse trimming httplib.Tests.Trimming.join httplib.Base.starts_with httplib.Base.find
    httplib.Base.eq_text httplib.Util.Split.split httplib.Base.find_from
range_gap = refl

parse_element-suffix_example :
    parse_element trimming 100 (b'-' ∷ codes "5")
    ≡ parse_element trimming 100 (codes "5" ++ b'-' ∷ [])
parse_element-suffix_example =
    parse_element-suffix trimming 100 (codes "5") (λ e. cc) ((λ e. omega (arith, e)), tt)

abbrev two_parts : Ranges
two_parts = (pos 0, pos 9) ∷ (pos 20, pos 99) ∷ []

parse-IsWithin_example : All (IsWithin 100) two_parts
parse-IsWithin_example =
    parse-IsWithin trimming (codes "bytes=0-9, 20-") 100 two_parts (omega arith) (omega arith)
      range_list

parse_element-large_example :
    parse_element trimming 3000000000 (codes "5" ++ b'-' ∷ [])
    ≡ some (range (pos 5) (negsuc 1294967296))
unfolding httplib.Html.Ranges.digits_from
parse_element-large_example =
    parse_element-large trimming 3000000000 (codes "5") (omega arith) (omega arith) (λ e. cc)
      (refl, tt) (omega arith)
