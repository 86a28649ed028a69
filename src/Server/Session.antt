-- ===== src/Server/Session.antt =====
-- lib/server/session.cpp: the loop of `http_task` over the requests of a connection. What the
-- stream, the parser and the handlers do is given, for each request, as their results
-- (`Exchange`); the model says which of them are used, in what order, and what is sent.
pub mod Watching
pub mod Deadlines
pub mod Answers
pub mod Tasks
pub mod Proxy
use httplib.Base.{
  ℕ, Bool, true, false, ◌&&◌, Option, none, some, List, [], ◌∷◌, ◌++◌, Text, codes, ◌==◌,
  if◌then◌else◌,
}
use httplib.Server.Response.{
  Calls, empty_body, reset_content, set_empty_content, set_string_content, status_not_found,
}
use httplib.Server.Response.Effects.{Message, replay}
use httplib.Server.Router.{Verb, get, head, trace, connect, options, other}

-- What the task does to its stream and whose code it runs, in order: deadlines for reading and
-- writing, reads and writes, the three calls of the router, and the handler of a stream.
-- `sends status` begins an `async_write`.
pub data Event : Type 0 where
  arm_read arm_write disarm : Event
  read_header read_body : Event
  runs_pre runs_proc runs_post asks_chunk : Event
  sends : ℕ → Event
  write_some write_chunk write_last : Event
  close : Event

-- What is read of a header: the encoding is what `server_apply_encoding` chooses for its field
-- `Accept-Encoding`, if it is there and leads to one.
pub record Header : Type 0 where
  pub method : Verb
  pub is_upgrade : Bool
  pub expects_continue : Bool
  pub keep_alive : Bool
  pub encoding : Option Text

-- One round of the handler of a stream: its error, how much it left in the buffer, whether that
-- could be written, whether there is more, and whether the last chunk could be written.
pub record Chunk : Type 0 where
  pub failed : Bool
  pub size : ℕ
  pub written : Bool
  pub has_more : Bool
  pub last_written : Bool

-- The results of an `async_write`: of each `async_write_some`, and of the handler of the stream.
pub record Writes : Type 0 where
  pub serialized : List Bool
  pub chunks : List Chunk

pub data Thrown : Type 0 where
  exception : Text → Thrown
  unknown : Thrown

-- What a call of the router does to the response, and whether it throws then.
pub record Ran (J : Type 0) : Type 0 where
  pub calls : Calls J
  pub thrown : Option Thrown

-- All that one round of the loop may meet. The header is absent if reading it failed; `body_reads`
-- are the results of `async_read_some` until the parser is done.
pub record Exchange (J : Type 0) : Type 0 where
  pub header : Option Header
  pub accepts : Bool
  pub pre : Ran J
  pub continue_writes : Writes
  pub body_reads : List Bool
  pub proc : Ran J
  pub post : Ran J
  pub writes : Writes

-- The task goes on to wait, ends, or makes place for another one.
pub data Ending : Type 0 where
  waiting ended becomes_proxy becomes_websocket : Ending

abbrev pub status_continue : ℕ
status_continue = 100

abbrev pub status_internal_server_error : ℕ
status_internal_server_error = 500

unfoldable pub is_head : Verb → Bool
is_head head = true
is_head method = false

unfoldable pub is_connect : Verb → Bool
is_connect connect = true
is_connect method = false

-- The message as it is given to the serializer.
pub record Outgoing (J : Type 0) : Type 0 where
  pub message : Message J
  pub chunked : Bool
  pub content_encoding : Option Text

unfoldable pub send_serialized : List Bool → List Event × Bool
send_serialized [] = (disarm ∷ [], true)
send_serialized (true ∷ ws) =
    let rest = send_serialized ws in (arm_write ∷ write_some ∷ rest.0, rest.1)
send_serialized (false ∷ ws) = (arm_write ∷ write_some ∷ disarm ∷ [], false)

-- The last chunk, if there is no more.
unfoldable pub after_chunk : Chunk → List Event × Option Bool → List Event × Option Bool
after_chunk c rest =
    if c.has_more then rest else (arm_write ∷ write_last ∷ disarm ∷ [], some c.last_written)

unfoldable pub write_buffer : Chunk → List Event × Option Bool → List Event × Option Bool
unfolding after_chunk
write_buffer c rest =
    if c.size == 0
    then after_chunk c rest
    else if c.written
    then (arm_write ∷ write_chunk ∷ disarm ∷ (after_chunk c rest).0, (after_chunk c rest).1)
    else (arm_write ∷ write_chunk ∷ disarm ∷ [], some false)

-- `none`: the handler has not answered yet.
unfoldable pub send_chunks : List Chunk → List Event × Option Bool
unfolding write_buffer
send_chunks [] = (asks_chunk ∷ [], none)
send_chunks (c ∷ cs) =
    let rest = send_chunks cs in
    if c.failed
    then (asks_chunk ∷ [], some false)
    else (asks_chunk ∷ (write_buffer c rest).0, (write_buffer c rest).1)

unfoldable pub read_body_from : List Bool → List Event × Bool
read_body_from [] = (disarm ∷ [], true)
read_body_from (true ∷ rs) = let rest = read_body_from rs in (arm_read ∷ read_body ∷ rest.0, rest.1)
read_body_from (false ∷ rs) = (arm_read ∷ read_body ∷ disarm ∷ [], false)

module _ {J : Type 0} (prepare_payload : Message J → Message J) where
  abbrev pub with_length : Message J → Message J
  with_length m = elim m.length [ none ↦ prepare_payload m | some n ↦ m ]

  abbrev pub encoded : Option Text → Message J → Outgoing J
  encoded none m = record { message = m; chunked = false; content_encoding = none }
  encoded (some e) m = record { message = m; chunked = true; content_encoding = some e }

  unfoldable pub framed : Option Text → Message J → Outgoing J
  framed encoding m =
      if m.streams
      then record { message = m; chunked = true; content_encoding = none }
      else encoded encoding (with_length m)

  -- The first part of `async_write`: what the serializer is given.
  unfoldable pub outgoing : Header → Message J → Outgoing J
  unfolding framed reset_content is_head
  outgoing h m =
      let f = framed h.encoding m in
      if is_head h.method then record f { message = replay f.message reset_content } else f

  -- The result is absent if the handler of a stream has not answered yet.
  unfoldable pub async_write : Header → Message J → Writes → List Event × Option Bool
  unfolding outgoing send_serialized send_chunks
  async_write h m w =
      let sent = send_serialized w.serialized in
      let chunks = send_chunks w.chunks in
      if sent.1
      then (if (outgoing h m).message.streams
          then (sends m.status ∷ (sent.0 ++ chunks.0), chunks.1)
          else (sends m.status ∷ sent.0, some true))
      else (sends m.status ∷ sent.0, some false)

module _ {J : Type 0} where
  -- `response resp(header.version(), header.keep_alive())`
  abbrev pub fresh : Bool → Message J
  fresh keep_alive = record {
    status = status_not_found;
    length = none;
    content = empty_body;
    streams = false;
    keeps_alive = keep_alive;
  }

  unfoldable pub continue_response : Message J
  unfolding set_empty_content
  continue_response = replay (fresh true) (set_empty_content status_continue)

  -- The `catch` clauses.
  unfoldable pub caught : Thrown → Message J → Message J
  unfolding set_string_content
  caught (exception what) m =
      replay m (set_string_content what (codes "text/plain") status_internal_server_error)
  caught unknown m = replay m (
      set_string_content (codes "unknown exception") (codes "text/plain")
        status_internal_server_error)

  -- A call of the router in the `try` block, and what is done if it returns.
  abbrev pub try_then :
      Event
      → Ran J
      → Message J
      → (Message J → List Event × Option (Message J))
      → List Event × Option (Message J)
  try_then e r m next = elim r.thrown [
    | none ↦ (e ∷ (next (replay m r.calls)).0, (next (replay m r.calls)).1)
    | some t ↦ (e ∷ [], some (caught t (replay m r.calls)))
  ]

  unfoldable pub run_post : Exchange J → Message J → List Event × Option (Message J)
  unfolding caught
  run_post x m = try_then runs_post x.post m (λ m'. ([], some m'))

  -- The body and `proc_routing`; no message if the connection is given up.
  unfoldable pub run_proc : Exchange J → Message J → List Event × Option (Message J)
  unfolding caught read_body_from run_post
  run_proc x m =
      let body = read_body_from x.body_reads in
      let ran = try_then runs_proc x.proc m (run_post x) in
      if body.1 then (body.0 ++ ran.0, ran.1) else (body.0, none)

module _ {J : Type 0} (prepare_payload : Message J → Message J) where
  -- `100-continue`; the last value says whether the answer is still being written, which cannot be
  -- for an answer that is no stream.
  unfoldable pub run_accepted : Header → Exchange J → Message J → List Event × Option (Message J)
  unfolding run_proc async_write continue_response
  run_accepted h x m =
      let first = async_write prepare_payload h continue_response x.continue_writes in
      let ran = run_proc x m in
      if h.expects_continue
      then (elim first.1 [ some true ↦ (first.0 ++ ran.0, ran.1) | _ ↦ (first.0, none) ])
      else ran

  -- The `try` block with its `catch` clauses.
  unfoldable pub handle : Header → Exchange J → List Event × Option (Message J)
  unfolding run_accepted run_post caught
  handle h x =
      try_then runs_pre x.pre (fresh h.keep_alive)
        (λ m. if x.accepts then run_accepted h x m else run_post x m)

  -- The answer to a request. No ending: the loop goes on.
  unfoldable pub answer : Header → Exchange J → Message J → List Event × Option Ending
  unfolding async_write
  answer h x m =
      let written = async_write prepare_payload h m x.writes in
      elim written.1 [
        | none ↦ (written.0, some waiting)
        | some false ↦ (written.0, some ended)
        | some true ↦
            if m.keeps_alive then (written.0, none) else (written.0 ++ close ∷ [], some ended)
      ]

  unfoldable pub respond_to : Header → Exchange J → List Event × Option Ending
  unfolding handle answer
  respond_to h x =
      let handled = handle h x in
      elim handled.1 [
        | none ↦ (handled.0, some ended)
        | some m ↦ (handled.0 ++ (answer h x m).0, (answer h x m).1)
      ]

  -- One round of the loop.
  unfoldable pub round : Exchange J → List Event × Option Ending
  unfolding respond_to is_connect
  round x = elim x.header [
    | none ↦ (arm_read ∷ read_header ∷ disarm ∷ [], some ended)
    | some h ↦
        if is_connect h.method
        then (arm_read ∷ read_header ∷ disarm ∷ [], some becomes_proxy)
        else if h.is_upgrade
        then (arm_read ∷ read_header ∷ disarm ∷ [], some becomes_websocket)
        else (arm_read ∷ read_header ∷ disarm ∷ (respond_to h x).0, (respond_to h x).1)
  ]

  -- `http_task::then`, for the rounds that the list gives; then the next header is waited for.
  unfoldable pub then_http : List (Exchange J) → List Event × Ending
  unfolding round
  then_http [] = (arm_read ∷ read_header ∷ [], waiting)
  then_http (x ∷ xs) =
      let rest = then_http xs in
      elim (round x).1 [ none ↦ ((round x).0 ++ rest.0, rest.1) | some end ↦ ((round x).0, end) ]
