-- ===== src/Server/Accepting.antt =====
-- lib/server/server_impl.cpp: accepting connections and the set of sessions. The coroutines
-- `handle_accept` are numbered in the order in which they are spawned; what is done under
-- `session_mutex_` is one step.
pub mod Sessions
pub mod Aborts
pub mod Loop
use httplib.Base.{
  ℕ, suc, Bool, true, false, ◌||◌, Option, none, some, List, [], ◌∷◌, ◌++◌, ◌==◌, if◌then◌else◌,
  length, get_elem?, set, map, ◌⊎◌, inl, inr,
}

-- The errors of an accept or of a timer: the two that `co_accept` looks for, and all others.
pub data Error : Type 0 where
  too_many_files_open too_many_files_open_in_system : Error
  other : ℕ → Error

unfoldable pub is_too_many : Error → Bool
is_too_many too_many_files_open = true
is_too_many too_many_files_open_in_system = true
is_too_many (other code) = false

-- What a round of the loop of `co_accept` meets: a socket or an error, and how the wait for the
-- retry ends, should there be one.
pub record Met {ℓ} (S : Type ℓ) : Type ℓ where
  pub accepted : S ⊎ Error
  pub retried : Option Error

-- The sockets for which `handle_accept` is spawned, in order, and the error returned; `none` while
-- the loop still waits.
unfoldable pub co_accept {ℓ} : {S : Type ℓ} → List (Met S) → List S × Option Error
unfolding is_too_many
co_accept [] = ([], none)
co_accept (m ∷ met) =
    let rest = co_accept met in
    elim m.accepted [
      | inl sock ↦ (sock ∷ rest.0, rest.1)
      | inr error ↦
          if is_too_many error
          then (elim m.retried [ none ↦ rest | some retry_error ↦ ([], some retry_error) ])
          else ([], some error)
    ]

-- The result of `co_run` from the results of the loops, which it waits for; `none` is no error.
unfoldable first_error : List (Option Error) → Option Error
first_error [] = none
first_error (none ∷ results) = first_error results
first_error (some error ∷ results) = some error

-- Where `handle_accept` stands: before its session is in the set, behind the insertion, in `run`,
-- behind the block of `try`, and at its end.
pub data Phase : Type 0 where
  spawned listed running ended over : Phase

-- How `run` ends: it returns, or throws a `std::exception` or anything else.
pub data Ending : Type 0 where
  returned threw threw_unknown : Ending

pub record Conn : Type 0 where
  pub phase : Phase
  pub aborted : Bool

pub record Server : Type 0 where
  acceptor_open : Bool
  pub session_map : List ℕ
  pub conns : List Conn

abbrev pub new_server : Server
new_server = record { acceptor_open = true; session_map = []; conns = [] }

unfoldable pub has : ℕ → List ℕ → Bool
has i [] = false
has i (j ∷ ids) = let rest = has i ids in if i == j then true else rest

unfoldable pub insert_id : ℕ → List ℕ → List ℕ
unfolding has
insert_id i ids = if has i ids then ids else i ∷ ids

unfoldable pub erase_id : ℕ → List ℕ → List ℕ
erase_id i [] = []
erase_id i (j ∷ ids) = let rest = erase_id i ids in if i == j then rest else j ∷ rest

-- `abort` of a session.
unfoldable pub abort_conn : Option Conn → List Conn → ℕ → List Conn
abort_conn none conns i = conns
abort_conn (some conn) conns i = set conns i (record { phase = conn.phase; aborted = true })

-- The loops over the set that call `abort`.
unfoldable pub abort_all : List ℕ → List Conn → List Conn
unfolding abort_conn
abort_all [] conns = conns
abort_all (i ∷ ids) conns = abort_all ids (abort_conn (get_elem? conns i) conns i)

-- The steps of `handle_accept`: the insertion under the lock, the start of `run`, its end, and the
-- erasure under the lock.
pub data Move : Type 0 where
  enter begin : Move
  finish : Ending → Move
  leave : Move

-- Where the coroutine goes on when `run` ends. What no clause caught would end the coroutine.
unfoldable pub behind_run : Ending → Phase
behind_run returned = ended
behind_run threw = ended
behind_run threw_unknown = ended

-- The phase behind a step, where that step is the next one.
unfoldable pub next_phase : Move → Phase → Option Phase
unfolding behind_run
next_phase enter spawned = some listed
next_phase begin listed = some running
next_phase (finish ending) running = some (behind_run ending)
next_phase leave ended = some over
next_phase move phase = none

-- What a step does to the set of sessions.
unfoldable pub listing : Move → ℕ → List ℕ → List ℕ
unfolding insert_id erase_id
listing enter i ids = insert_id i ids
listing begin i ids = ids
listing (finish ending) i ids = ids
listing leave i ids = erase_id i ids

-- What a server goes through: an accepted socket is handed to `handle_accept`, one of these
-- coroutines makes a step, `stop`, and the end of all loops in `co_run`.
pub data Event : Type 0 where
  connect : Event
  moves : Move → ℕ → Event
  stop : Event
  all_ended : Event

unfoldable pub to_phase : Option Phase → Move → Conn → ℕ → Server → Server
unfolding listing
to_phase none move conn i s = s
to_phase (some phase) move conn i s = record {
  acceptor_open = s.acceptor_open;
  session_map = listing move i s.session_map;
  conns = set s.conns i (record { phase = phase; aborted = conn.aborted });
}

-- A step of the coroutine `i`; one that is not next for it is no step.
unfoldable pub move_conn : Option Conn → Move → ℕ → Server → Server
unfolding to_phase next_phase
move_conn none move i s = s
move_conn (some conn) move i s = to_phase (next_phase move conn.phase) move conn i s

unfoldable pub step : Event → Server → Server
unfolding abort_all move_conn
step connect s = record {
  acceptor_open = s.acceptor_open;
  session_map = s.session_map;
  conns = s.conns ++ record { phase = spawned; aborted = false } ∷ [];
}
step (moves move i) s = move_conn (get_elem? s.conns i) move i s
step stop s = record {
  acceptor_open = false;
  session_map = s.session_map;
  conns = abort_all s.session_map s.conns;
}
step all_ended s = record {
  acceptor_open = s.acceptor_open;
  session_map = s.session_map;
  conns = abort_all s.session_map s.conns;
}

unfoldable pub run : List Event → Server → Server
unfolding step
run [] s = s
run (e ∷ events) s = run events (step e s)
