-- ===== src/Server/WebSocket.antt =====
-- `websocket_conn_impl` of lib/server/websocket_conn_impl.cpp: what it puts into its queue, and `run`
-- over the results of what it waits for. Logging is left out.
pub mod Calls
use httplib.Base.{
  Bool, true, false, not, Option, none, some, List, [], ◌∷◌, ◌++◌, Text, drop, length,
  if◌then◌else◌,
}
use httplib.Util.ActionQueue.{Queue, push}

-- The coroutines that are put into the queue.
data Action : Type 0 where
  write : Text → Bool → Action
  ping : Text → Action
  close_stream : Action

-- `is_open` is `ws_.is_open()`.
module _ (is_open : Bool) where
  unfoldable send_message : Text → Bool → Queue Action → Queue Action
  unfolding push
  send_message msg binary q = if not is_open then q else push (write msg binary) q

  unfoldable send_ping : Text → Queue Action → Queue Action
  unfolding push
  send_ping msg q = if not is_open then q else push (ping msg) q

  unfoldable close : Queue Action → Queue Action
  unfolding push
  close q = if not is_open then q else push close_stream q

-- How a handler ends.
pub data Handled : Type 0 where
  returned std_exception other_exception : Handled

-- A message that is read, and how its handler ends.
pub record Round : Type 0 where
  pub message : Text
  pub binary : Bool
  pub handled : Handled

-- What `run` meets: whether there is a handler for the path, an error of the handshake, the end of
-- the open handler, the messages in order, and behind them, should a read fail, the end of the close
-- handler.
pub record Met : Type 0 where
  pub has_entry : Bool
  pub handshake_fails : Bool
  pub opened : Handled
  pub rounds : List Round
  pub read_fails : Option Handled

-- What `run` calls, in order.
pub data Call : Type 0 where
  async_accept open_handler : Call
  message_handler : Text → Bool → Call
  queue_clear queue_shutdown close_handler : Call

-- How it ends: it waits for a message, it returns, or an exception leaves it.
pub data Ending : Type 0 where
  waiting ended thrown : Ending

-- Only a `std::exception` is caught.
unfoldable pub ending_of : Handled → Ending
ending_of returned = ended
ending_of std_exception = ended
ending_of other_exception = thrown

-- A call of the message handler, and what follows should its exception be caught or not come.
unfoldable pub behind_handler : Handled → Call → List Call × Ending → List Call × Ending
behind_handler returned call rest = (call ∷ rest.0, rest.1)
behind_handler std_exception call rest = (call ∷ rest.0, rest.1)
behind_handler other_exception call rest = (call ∷ [], thrown)

unfoldable pub read_loop : List Round → Option Handled → Text → List Call × Ending
unfolding ending_of behind_handler
read_loop [] none buffer = ([], waiting)
read_loop [] (some handled) buffer =
    (queue_clear ∷ queue_shutdown ∷ close_handler ∷ [], ending_of handled)
read_loop (r ∷ rounds) read_fails buffer =
    let filled = buffer ++ r.message in
    behind_handler r.handled (message_handler filled r.binary)
      (read_loop rounds read_fails (drop (length r.message) filled))

unfoldable after_open : Handled → Met → List Call × Ending
unfolding read_loop
after_open returned met = read_loop met.rounds met.read_fails []
after_open std_exception met = ([], ended)
after_open other_exception met = ([], thrown)

unfoldable pub run : Met → List Call × Ending
unfolding after_open
run met =
    let opened = after_open met.opened met in
    if not met.has_entry
    then ([], ended)
    else if met.handshake_fails
    then (async_accept ∷ [], ended)
    else (async_accept ∷ open_handler ∷ opened.0, opened.1)
