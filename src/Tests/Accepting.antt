-- ===== src/Tests/Accepting.antt =====
-- Accepting connections, and their sessions.
use httplib.Base.{
  ℕ, ◌≡◌, refl, true, false, some, none, List, [], ◌∷◌, ◌++◌, inl, inr, get_elem?, All,
}
use httplib.Server.Accepting.{
  Met, other, too_many_files_open, co_accept, Event, connect, moves, enter, begin, finish, leave,
  returned, threw, threw_unknown, stop, run, step, new_server, running,
}
use httplib.Server.Accepting.Sessions.{in_set, is_aborted, IsOver, run-session_map}
use httplib.Server.Accepting.Aborts.{stop-IsAborted}
use httplib.Server.Accepting.Loop.{fails, co_accept-append}

abbrev two_sockets : List (Met ℕ)
two_sockets =
    record { accepted = inl 5; retried = none }
    ∷ record { accepted = inr too_many_files_open; retried = none }
    ∷ record { accepted = inl 6; retried = none }
    ∷ []

two_accepted : co_accept (two_sockets ++ fails 9 none ∷ []) ≡ (5 ∷ 6 ∷ [], some (other 9))
unfolding httplib.Server.Accepting.is_too_many
two_accepted = co_accept-append two_sockets [] 9 none (tt, ((refl, refl), (tt, tt)))

-- Three sessions, the runs of which end in the three ways.
abbrev three_sessions : List Event
three_sessions =
    connect
    ∷ connect
    ∷ connect
    ∷ moves enter 1
    ∷ moves enter 0
    ∷ moves begin 0
    ∷ moves begin 1
    ∷ moves (finish threw_unknown) 1
    ∷ moves enter 2
    ∷ moves leave 1
    ∷ moves begin 2
    ∷ moves (finish returned) 2
    ∷ moves (finish threw) 0
    ∷ moves leave 0
    ∷ moves leave 2
    ∷ []

three-IsOver : All IsOver (run three_sessions new_server).conns
unfolding run
three-IsOver = (refl, (refl, (refl, tt)))

run-session_map_example : (run three_sessions new_server).session_map ≡ []
run-session_map_example = run-session_map three_sessions three-IsOver

abbrev one_session : List Event
one_session = connect ∷ moves enter 0 ∷ moves begin 0 ∷ []

one_runs : in_set (get_elem? (run one_session new_server).conns 0) ≡ true
unfolding run
one_runs = refl

stop-IsAborted_example :
    is_aborted
      (get_elem? (run (moves leave 0 ∷ []) (step stop (run one_session new_server))).conns 0)
    ≡ true
stop-IsAborted_example = stop-IsAborted one_session (moves leave 0 ∷ []) 0 one_runs

-- A session that enters after `stop` runs on.
late_session :
    (run (connect ∷ stop ∷ moves enter 0 ∷ moves begin 0 ∷ []) new_server).conns
    ≡ record { phase = running; aborted = false } ∷ []
unfolding run
late_session = refl
