-- ===== src/Server/Accepting/Aborts.antt =====
-- The aborts of sessions, over all that a server may go through.
use native.Mathlib.Decide.{ℕ_discrete}
use httplib.Base.{
  ℕ, zero, suc, ◌≡◌, refl, sym, ap, ◌∙◌, true, false, none, some, List, [], ◌∷◌, ◌++◌, arith, inl,
  inr, get_elem?, set, Option-cases,
}
use httplib.Server.Accepting.{
  Phase, spawned, Conn, Server, new_server, has, abort_conn, abort_all, Event, connect, moves, stop,
  all_ended, next_phase, to_phase, move_conn, step, run,
}
use httplib.Server.Accepting.Sessions.{
  in_set, is_aborted, get_elem?-set_same, get_elem?-set_other, test-set, in_set-abort_conn,
  run-HoldsListed,
}

-- An abort is not taken back.
is_aborted-abort_conn :
    (conns : List Conn) (i j : ℕ)
    → is_aborted (get_elem? conns j) ≡ true
    → is_aborted (get_elem? (abort_conn (get_elem? conns i) conns i) j) ≡ true
unfolding abort_conn
is_aborted-abort_conn conns i j h = elim (Option-cases (get_elem? conns i)) [
  | inl e ↦ rw e h
  | inr (conn, e) ↦
      let v : Conn = record { phase = conn.phase; aborted = true } in
      rw e (elim (ℕ_discrete j i) [
        | yes k ↦ rw k (ap is_aborted (get_elem?-set_same conns i conn v e))
        | no k ↦ ap is_aborted (get_elem?-set_other conns i j v k) ∙ h
      ])
]

is_aborted-abort_all :
    (ids : List ℕ) (conns : List Conn) (j : ℕ)
    → is_aborted (get_elem? conns j) ≡ true
    → is_aborted (get_elem? (abort_all ids conns) j) ≡ true
unfolding abort_all
is_aborted-abort_all [] conns j h = h
is_aborted-abort_all (i ∷ ids) conns j h =
    is_aborted-abort_all ids (abort_conn (get_elem? conns i) conns i) j
      (is_aborted-abort_conn conns i j h)

aborted_now :
    (conns : List Conn) (j : ℕ)
    → in_set (get_elem? conns j) ≡ true
    → is_aborted (get_elem? (abort_conn (get_elem? conns j) conns j) j) ≡ true
unfolding abort_conn
aborted_now conns j h = elim (Option-cases (get_elem? conns j)) [
  | inl e ↦ absurd (none_there (sym (ap in_set e) ∙ h))
  | inr (conn, e) ↦
      let v : Conn = record { phase = conn.phase; aborted = true } in
      rw e (ap is_aborted (get_elem?-set_same conns j conn v e))
]
  where
    none_there : in_set none ≡ true → ⊥
    none_there e = cc

abort_all-aborts :
    (ids : List ℕ) (conns : List Conn) (j : ℕ)
    → has j ids ≡ true
    → in_set (get_elem? conns j) ≡ true
    → is_aborted (get_elem? (abort_all ids conns) j) ≡ true
unfolding abort_all has
abort_all-aborts [] conns j h r = cc
abort_all-aborts (i ∷ ids) conns j h r = elim (ℕ_discrete j i) [
  | yes e ↦
      is_aborted-abort_all ids (abort_conn (get_elem? conns i) conns i) j
        (rw (← e) (aborted_now conns j r))
  | no e ↦
      abort_all-aborts ids (abort_conn (get_elem? conns i) conns i) j (ground (arith, e))
        (in_set-abort_conn conns i j ∙ r)
]

is_aborted-append :
    (conns : List Conn) (c : Conn) (j : ℕ)
    → is_aborted (get_elem? conns j) ≡ true
    → is_aborted (get_elem? (conns ++ c ∷ []) j) ≡ true
is_aborted-append [] c j h = cc
is_aborted-append (conn ∷ conns) c zero h = h
is_aborted-append (conn ∷ conns) c (suc j) h = is_aborted-append conns c j h

abbrev IsAborted : ℕ → Server → Type 0
IsAborted j s = is_aborted (get_elem? s.conns j) ≡ true

-- A new phase leaves the mark of an abort.
IsAborted-phase :
    (conns : List Conn) (i j : ℕ) (conn : Conn) (p : Phase)
    → get_elem? conns i ≡ some conn
    → is_aborted (get_elem? conns j) ≡ true
    → is_aborted (get_elem? (set conns i (record { phase = p; aborted = conn.aborted })) j) ≡ true
IsAborted-phase conns i j conn p e h =
    test-set is_aborted conns i j conn (record { phase = p; aborted = conn.aborted }) e refl ∙ h

step-IsAborted : (e : Event) (s : Server) (j : ℕ) → IsAborted j s → IsAborted j (step e s)
unfolding step move_conn to_phase
step-IsAborted connect s j h =
    is_aborted-append s.conns (record { phase = spawned; aborted = false }) j h
step-IsAborted (moves move i) s j h = elim (Option-cases (get_elem? s.conns i)) [
  | inl e ↦ rw e h
  | inr (conn, e) ↦ rw e (elim (Option-cases (next_phase move conn.phase)) [
    | inl no_step ↦ rw no_step h
    | inr (q, step_to) ↦ rw step_to (IsAborted-phase s.conns i j conn q e h)
  ])
]
step-IsAborted stop s j h = is_aborted-abort_all s.session_map s.conns j h
step-IsAborted all_ended s j h = is_aborted-abort_all s.session_map s.conns j h

run-IsAborted :
    (events : List Event) (s : Server) (j : ℕ) → IsAborted j s → IsAborted j (run events s)
unfolding run
run-IsAborted [] s j h = h
run-IsAborted (e ∷ events) s j h = run-IsAborted events (step e s) j (step-IsAborted e s j h)

-- Every session that is between its insertion into the set and its erasure when `stop` is called,
-- the time in which its `run` is awaited included, has been aborted, whatever the server went through
-- before and goes through afterwards.
pub stop-IsAborted :
    (before after : List Event) (i : ℕ)
    → in_set (get_elem? (run before new_server).conns i) ≡ true
    → is_aborted (get_elem? (run after (step stop (run before new_server))).conns i) ≡ true
unfolding step
stop-IsAborted before after i h =
    let s = run before new_server in
    run-IsAborted after (step stop s) i
      (abort_all-aborts s.session_map s.conns i (run-HoldsListed before i ∙ h) h)
