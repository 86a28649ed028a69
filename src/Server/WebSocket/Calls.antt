-- ===== src/Server/WebSocket/Calls.antt =====
-- The calls of the handlers of a connection.
use httplib.Base.{
  ◌≡◌, ◌≢◌, refl, ap, ◌∙◌, true, false, some, List, [], ◌∷◌, ◌++◌, map, All, Text, drop, length,
}
use httplib.Server.WebSocket.{
  Handled, returned, std_exception, other_exception, Round, Call, async_accept, open_handler,
  message_handler, queue_clear, queue_shutdown, close_handler, Ending, ending_of, behind_handler,
  read_loop, run,
}

abbrev pub call_of : Round → Call
call_of r = message_handler r.message r.binary

-- The buffer is empty again behind each message.
drop_all : (s : Text) → drop (length s) s ≡ []
drop_all [] = refl
drop_all (x ∷ s) = drop_all s

behind_handler-caught :
    (h : Handled) (call : Call) (rest : List Call × Ending)
    → h ≢ other_exception
    → behind_handler h call rest ≡ (call ∷ rest.0, rest.1)
unfolding behind_handler
behind_handler-caught returned call rest h = refl
behind_handler-caught std_exception call rest h = refl
behind_handler-caught other_exception call rest h = absurd (h refl)

abbrev closing : List Call
closing = queue_clear ∷ queue_shutdown ∷ close_handler ∷ []

read_loop-calls :
    (rounds : List Round) (closed : Handled)
    → All (λ r. r.handled ≢ other_exception) rounds
    → read_loop rounds (some closed) [] ≡ (map call_of rounds ++ closing, ending_of closed)
unfolding read_loop
read_loop-calls [] closed h = refl
read_loop-calls (r ∷ rounds) closed h =
    behind_handler-caught r.handled (call_of r)
      (read_loop rounds (some closed) (drop (length r.message) r.message)) h.0
    ∙ ap
        (λ b.
          (call_of r ∷ (read_loop rounds (some closed) b).0, (read_loop rounds (some closed) b).1))
        (drop_all r.message)
    ∙ ap (λ o. (call_of r ∷ o.0, o.1)) (read_loop-calls rounds closed h.1)

-- A connection with a handler for its path whose handshake succeeds, whose open handler returns and
-- none of whose message handlers throws anything but a `std::exception`: once a read fails, the calls
-- were the open handler, the message handler for each message in order, with that message's bytes
-- alone, then clearing the queue and shutting it down, and last the close handler, once.
pub run-calls :
    (rounds : List Round) (closed : Handled)
    → All (λ r. r.handled ≢ other_exception) rounds
    → run (record {
      has_entry = true;
      handshake_fails = false;
      opened = returned;
      rounds = rounds;
      read_fails = some closed;
    })
      ≡ (async_accept ∷ open_handler ∷ map call_of rounds ++ closing, ending_of closed)
unfolding run
run-calls rounds closed h =
    ap (λ o. (async_accept ∷ open_handler ∷ o.0, o.1)) (read_loop-calls rounds closed h)
