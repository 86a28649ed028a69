-- ===== src/Client/MultiPool.antt =====
-- include/httplib/client/multi_client_pool.hpp. The map of queues is an association list with one
-- entry for a `ConnectionInfo`, compared by its `operator==`; its hash only serves the container.
pub mod History
use httplib.Base.{
  ℕ, suc, ◌+◌, Bool, true, false, ◌&&◌, Option, none, some, List, [], ◌∷◌, ◌++◌, Text, length, ltb,
  ◌==◌, if◌then◌else◌, eq_text,
}
use httplib.Client.Pool.{Client}

pub record ConnectionInfo : Type 0 where
  pub host : Text
  pub port : ℕ
  pub ssl : Bool

abbrev pub eq_bool : Bool → Bool → Bool
eq_bool true b = b
eq_bool false true = false
eq_bool false false = true

unfoldable pub same_info : ConnectionInfo → ConnectionInfo → Bool
same_info a b = eq_text a.host b.host && (a.port == b.port && eq_bool a.ssl b.ssl)

abbrev pub Pools : Type 0
Pools = List (ConnectionInfo × List Client)

-- The queue of an entry, if `count` finds one.
unfoldable pub find_pool : ConnectionInfo → Pools → Option (List Client)
find_pool info [] = none
find_pool info ((i, q) ∷ ps) =
    let rest = find_pool info ps in if same_info i info then some q else rest

-- `pools_[info]` as an expression, which makes an empty queue where there is none.
abbrev pub queue_of : Option (List Client) → List Client
queue_of none = []
queue_of (some q) = q

-- `pools_[info] = q`
unfoldable pub set_pool : ConnectionInfo → List Client → Pools → Pools
set_pool info q [] = (info, q) ∷ []
set_pool info q ((i, r) ∷ ps) =
    let rest = set_pool info q ps in if same_info i info then (i, q) ∷ ps else (i, r) ∷ rest

pub record MultiPool : Type 0 where
  pub pools : Pools
  pub max_size : ℕ
  pub made : ℕ

unfoldable pub multi_http_client_pool : ℕ → MultiPool
multi_http_client_pool max_size = record { pools = []; max_size = max_size; made = 0 }

unfoldable pub acquire : MultiPool → Text → ℕ → Bool → MultiPool × Client
unfolding find_pool set_pool same_info
acquire p host port ssl =
    let info : ConnectionInfo = record { host = host; port = port; ssl = ssl } in
    elim (queue_of (find_pool info p.pools)) [
      | [] ↦ (
        record p { made = suc p.made },
        record { serial = p.made; host = host; port = port; ssl = ssl },
      )
      | conn ∷ rest ↦ (record p { pools = set_pool info rest p.pools }, conn)
    ]

-- `ConnectionInfo info {std::string(conn->host()), conn->port()}`: `ssl` is not given, so it is false.
abbrev pub released_info : Client → ConnectionInfo
released_info conn = record { host = conn.host; port = conn.port; ssl = false }

unfoldable pub release : MultiPool → Client → MultiPool
unfolding find_pool set_pool same_info
release p conn =
    let q = queue_of (find_pool (released_info conn) p.pools) in
    if ltb (length q) p.max_size
    then record p { pools = set_pool (released_info conn) (q ++ conn ∷ []) p.pools }
    else record p { pools = set_pool (released_info conn) q p.pools }
