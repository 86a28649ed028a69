-- ===== src/Tests/WebSocket.antt =====
-- A WebSocket connection and a client.
use httplib.Base.{ℕ, ◌≡◌, refl, true, false, some, List, [], ◌∷◌, ◌++◌, inr, ◌⊎◌, codes, map, arith}
use httplib.Server.WebSocket.{
  Round, returned, std_exception, async_accept, open_handler, queue_clear, queue_shutdown,
  close_handler, run, ending_of,
}
use httplib.Server.WebSocket.Calls.{call_of, run-calls}
use httplib.Client.Http.{
  Met, overall, async_send_request_impl, async_send_request, connection_reset, other_error, Failure,
}
use httplib.Client.Http.Watched.{watched, async_send_request_impl-watched}

abbrev two_messages : List Round
two_messages =
    record { message = codes "a"; binary = false; handled = std_exception }
    ∷ record { message = codes "bc"; binary = true; handled = returned }
    ∷ []

run-calls_example :
    run (record {
      has_entry = true;
      handshake_fails = false;
      opened = returned;
      rounds = two_messages;
      read_fails = some returned;
    })
    ≡ (
      async_accept ∷ open_handler ∷ map call_of two_messages
          ++ queue_clear ∷ queue_shutdown ∷ close_handler ∷ [],
      ending_of returned,
    )
run-calls_example = run-calls two_messages returned ((λ e. cc), ((λ e. cc), tt))

abbrev reused : Met
reused = record {
  is_open = true;
  is_address = true;
  writes = 1;
  header_reads = 1;
  body_reads = 1;
  is_head = false;
  answer_keeps_alive = true;
}

async_send_request_impl-watched_example :
    watched false (async_send_request_impl overall reused) ≡ false
async_send_request_impl-watched_example =
    async_send_request_impl-watched overall reused (omega arith)

abbrev reset_first : ℕ ⊎ Failure
reset_first = inr connection_reset

abbrev refused_then : ℕ ⊎ Failure
refused_then = inr (other_error 4)

retried_once : async_send_request true reset_first refused_then ≡ (refused_then, 2, 2)
unfolding async_send_request
retried_once = refl
