-- ===== src/Server/Request.antt =====
-- lib/server/request.cpp: what the constructor reads from the target, and the path.
use httplib.Base.{
  ℕ, suc, ◌≡◌, refl, Option, none, some, [], ◌∷◌, ◌++◌, ◌>>=◌, Text, codes, null, find, take, drop,
  length, take-append, Lacks, if◌then◌else◌,
}
use httplib.Util.Trim.{Trimming}
use httplib.Util.Url.{url_decode}
use httplib.Util.Split.{split}
use httplib.Util.Split.Pieces.{find-append}
use httplib.Html.QueryParams.{Entries, Hashing, decode}
use httplib.Server.Router.Match.{Params, find_param, assign}

-- The parts of a request that its constructor reads from `target`, and the bindings of the route.
pub record Request : Type 0 where
  pub target : Text
  pub decoded_path : Text
  pub query_params : Entries
  pub path_params : Params

-- `target().substr(0, pos)` and `target().substr(pos + 1)`; without a question mark the query is not
-- read.
abbrev pub target_parts : Text → Option ℕ → Text × Option Text
target_parts target none = (target, none)
target_parts target (some position) = (take position target, some (drop (suc position) target))

abbrev pub read_query : Trimming → Hashing → Option Text → Option Entries
read_query boost hashing none = some []
read_query boost hashing (some query) = decode boost hashing query

-- The constructor; `none` is the read out of range of `url_decode`.
unfoldable pub request : Trimming → Hashing → Text → Option Request
request boost hashing target =
    let parts : Text × Option Text = target_parts target (find target (codes "?")) in
    url_decode parts.0 >>= λ path. read_query boost hashing parts.1 >>= λ params.
    some (record { target = target; decoded_path = path; query_params = params; path_params = [] })

unfoldable pub path : Request → Text
path req = if null req.decoded_path then req.target else req.decoded_path

-- `path_params_.at(key)` throws (`none`) if there is no such binding.
unfoldable pub path_param : Request → Text → Option Text
path_param req key = find_param key req.path_params

unfoldable pub add_path_param : Text → Text → Request → Request
add_path_param key val req = record req { path_params = assign key val req.path_params }

unfoldable pub set_path_param : Params → Request → Request
set_path_param params req = record req { path_params = params }

-- `forwarded` is the field `X-Forwarded-For`, if it is there; `make_address` of Boost.Asio is a
-- parameter.
unfoldable pub get_client_ip {ℓ} : {A : Type ℓ} → Trimming → (Text → Option A) → A → Option Text → A
get_client_ip boost make_address remote none = remote
get_client_ip boost make_address remote (some forwarded) =
    elim (split boost forwarded (codes ",")) [
      | [] ↦ remote
      | token ∷ tokens ↦ elim (make_address token) [ none ↦ remote | some address ↦ address ]
    ]

drop-behind :
    (before : Text) (c : ℕ) (rest : Text) → drop (suc (length before)) (before ++ c ∷ rest) ≡ rest
drop-behind [] c rest = refl
drop-behind (x ∷ before) c rest = drop-behind before c rest

-- A target with a query is read at its first question mark: what is before it is decoded as the path,
-- what is behind it as parameters, whatever other question marks it has.
pub request-query :
    (boost : Trimming) (hashing : Hashing) (before query decoded : Text) (params : Entries)
    → Lacks b'?' before
    → url_decode before ≡ some decoded
    → decode boost hashing query ≡ some params
    → request boost hashing (before ++ b'?' ∷ query)
      ≡ some (record {
        target = before ++ b'?' ∷ query;
        decoded_path = decoded;
        query_params = params;
        path_params = [];
      })
unfolding request
request-query boost hashing before query decoded params h p q =
    rw
      (
        find-append b'?' before query h,
        take-append before (b'?' ∷ query),
        drop-behind before b'?' query,
        p,
        q,
      )
      refl
