-- ===== src/Client/Pool.antt =====
-- include/httplib/client/client_pool.hpp. A client is known by a number, with the arguments that it
-- was made with. The destructor of a `ClientHandle` is a call of `release`; the mutex makes each
-- operation one step.
pub mod History
use httplib.Base.{ℕ, suc, ◌+◌, Bool, List, [], ◌∷◌, ◌++◌, Text, length, ltb, if◌then◌else◌}

pub record Client : Type 0 where
  pub serial : ℕ
  pub host : Text
  pub port : ℕ
  pub ssl : Bool

-- `made` counts the clients that the pool has made.
pub record Pool : Type 0 where
  pub pool : List Client
  pub host : Text
  pub port : ℕ
  pub max_size : ℕ
  pub ssl : Bool
  pub made : ℕ

unfoldable pub http_client_pool : Text → ℕ → Bool → ℕ → Pool
http_client_pool host port ssl max_size = record {
  pool = [];
  host = host;
  port = port;
  max_size = max_size;
  ssl = ssl;
  made = 0;
}

-- `std::make_unique<http_client>(ex_, host_, port_, ssl_)`
abbrev pub make_client : Pool → Client
make_client p = record { serial = p.made; host = p.host; port = p.port; ssl = p.ssl }

-- The oldest client of the queue, or a new one.
unfoldable pub acquire : Pool → Pool × Client
acquire p = elim p.pool [
  | [] ↦ (record p { made = suc p.made }, make_client p)
  | conn ∷ rest ↦ (record p { pool = rest }, conn)
]

-- A client that does not fit is dropped.
unfoldable pub release : Pool → Client → Pool
release p conn =
    if ltb (length p.pool) p.max_size then record p { pool = p.pool ++ conn ∷ [] } else p
