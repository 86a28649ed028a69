-- ===== src/Tests/Proxy.antt =====
-- A proxied connection.
use httplib.Base.{◌+◌, ◌≡◌, refl, true, false, some, List, [], ◌∷◌, ◌++◌, codes, length}
use httplib.Server.Session.Proxy.{
  Read, async_resolve, async_connect, to_send, transfer, then_proxy, all_bytes, read_bytes,
  transfer-read_bytes,
}

abbrev two_reads : List Read
two_reads =
    record { bytes = codes "ab"; read_fails = false; write_fails = false }
    ∷ record { bytes = codes "c"; read_fails = false; write_fails = false }
    ∷ []

abbrev last_read : Read
last_read = record { bytes = codes "d"; read_fails = true; write_fails = false }

transfer-read_bytes_example :
    (all_bytes (transfer (two_reads ++ last_read ∷ []) 0).0
      ≡ read_bytes two_reads ++ last_read.bytes)
    × ((transfer (two_reads ++ last_read ∷ []) 0).1 ≡ 0 + length (read_bytes two_reads))
    × ((transfer (two_reads ++ last_read ∷ []) 0).2 ≡ some to_send)
transfer-read_bytes_example =
    transfer-read_bytes two_reads last_read [] 0 ((refl, refl), ((refl, refl), tt)) refl

refused_target :
    then_proxy (codes "h:1") (record { resolves = true; connects = false; answers = true })
    ≡ async_resolve (codes "h") (codes "1") ∷ async_connect ∷ []
unfolding then_proxy
refused_target = refl
