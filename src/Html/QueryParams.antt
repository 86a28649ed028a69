-- ===== src/Html/QueryParams.antt =====
-- lib/html/query_params.cpp. The `unordered_multimap` is the list of its entries, in the order in
-- which an iterator meets them; which order that is, is left open. `none` stands for an exception, and
-- in `decode` for the read out of range of `url_decode`.
pub mod Safe
pub mod RoundTrip
use httplib.Base.{
  ℕ, ◌≡◌, Bool, true, false, ◌||◌, Option, none, some, List, [], ◌∷◌, ◌++◌, ◌>>=◌, map, Text, codes,
  null, eq_text, if◌then◌else◌,
}
use mathlib.Core.List.{Perm}
use httplib.Util.Trim.{Trimming}
use httplib.Util.Split.{split}
use httplib.Util.Url.{url_decode, url_encode}

abbrev pub Entries : Type 0
Entries = List (Text × Text)

-- What the code relies on of `std::unordered_multimap`: `emplace` adds an entry somewhere, and may move
-- the others.
pub record Hashing : Type 0 where
  pub emplace : Text × Text → Entries → Entries
  pub emplace_perm :
      (item : Text × Text) (params : Entries) → Perm (emplace item params) (item ∷ params)

-- What the code relies on of `boost::join`.
pub record Joining : Type 0 where
  pub join : List Text → Text → Text
  pub join_none : (between : Text) → join [] between ≡ []
  pub join_one : (s between : Text) → join (s ∷ []) between ≡ s
  pub join_more :
      (s t : Text) (ts : List Text) (between : Text)
      → join (s ∷ t ∷ ts) between ≡ s ++ (between ++ join (t ∷ ts) between)

unfoldable pub all : Text → Entries → List Text
all key [] = []
all key ((k, v) ∷ params) = let rest = all key params in if eq_text k key then v ∷ rest else rest

unfoldable pub at_key : Text → Entries → Option Text
at_key key [] = none
at_key key ((k, v) ∷ params) =
    let rest = at_key key params in if eq_text k key then some v else rest

unfoldable pub exists_key : Text → Entries → Bool
unfolding at_key
exists_key key params = elim (at_key key params) [ none ↦ false | some v ↦ true ]

unfoldable pub at_bool : Text → Entries → Option Bool
unfolding at_key
at_bool key params = at_key key params >>= λ v.
    if eq_text v (codes "true") || eq_text v (codes "1")
    then some true
    else if eq_text v (codes "false") || eq_text v (codes "0")
    then some false
    else none

module _ (hashing : Hashing) where
  unfoldable pub add : Text → Text → Entries → Entries
  add key val params = hashing.emplace (key, val) params

  unfoldable pub add_bool : Text → Bool → Entries → Entries
  unfolding add
  add_bool key val params = add key (if val then codes "true" else codes "false") params

  -- The branches on `key_val.size()`.
  unfoldable pub decode_pair : List Text → Entries → Option Entries
  unfolding add
  decode_pair (k ∷ []) params = url_decode k >>= λ key. some (add key [] params)
  decode_pair (k ∷ v ∷ []) params =
      url_decode k >>= λ key. url_decode v >>= λ val. some (add key val params)
  decode_pair key_val params = some params

module _ (boost : Trimming) (hashing : Hashing) where
  unfoldable pub decode_items : List Text → Entries → Option Entries
  unfolding decode_pair
  decode_items [] params = some params
  decode_items (item ∷ items) params =
      decode_pair hashing (split boost item (codes "=")) params >>= λ params'.
      decode_items items params'

  -- The entries before the call are cleared, so they are no argument.
  unfoldable pub decode : Text → Option Entries
  unfolding decode_items
  decode content =
      if null content then some [] else decode_items (split boost content (codes "&")) []

unfoldable pub token : Text × Text → Text
token item = url_encode item.0 ++ (codes "=" ++ url_encode item.1)

unfoldable pub encoded_params : Joining → Entries → Text
unfolding token
encoded_params boost params = boost.join (map token params) (codes "&")
