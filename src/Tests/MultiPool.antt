-- ===== src/Tests/MultiPool.antt =====
-- The pool of clients for many hosts on a short history.
use httplib.Base.{◌≡◌, refl, true, false, List, [], ◌∷◌, codes, arith}
use httplib.Client.Pool.{Client}
use httplib.Client.MultiPool.{multi_http_client_pool, acquire, release, find_pool}
use httplib.Client.MultiPool.History.{
  Call, acquires, releases, run, IsApt, run-acquire-IsApt, acquire-release,
}

abbrev secure_client : Client
secure_client = record { serial = 0; host = codes "example.org"; port = 443; ssl = true }

abbrev calls : List Call
calls = acquires (codes "example.org") 443 true ∷ releases secure_client ∷ []

run-acquire-IsApt_example :
    IsApt (run (multi_http_client_pool 2) calls) (codes "example.org") 443 true
run-acquire-IsApt_example = run-acquire-IsApt 2 calls (codes "example.org") 443 true

acquire-release_example :
    (acquire (release (multi_http_client_pool 2) secure_client) (codes "example.org") 443 false).1
    ≡ secure_client
unfolding multi_http_client_pool find_pool
acquire-release_example =
    acquire-release (multi_http_client_pool 2) secure_client refl (omega arith)
