-- ===== src/Server/Accepting/Sessions.antt =====
-- The set of sessions, over all that a server may go through.
use native.Mathlib.Decide.{ℕ_discrete}
use httplib.Base.{
  All, ==_refl, ==_ne, ℕ, zero, suc, ◌≡◌, ◌≢◌, refl, sym, ap, ◌∙◌, Bool, true, false, Option, none,
  some, List, [], ◌∷◌, ◌++◌, arith, ◌==◌, if◌then◌else◌, inl, inr, get_elem?, set, Bool-cases,
  Option-cases,
}
use httplib.Server.Accepting.{
  Phase, spawned, listed, running, ended, over, returned, threw, threw_unknown, Conn, Server,
  new_server, has, insert_id, erase_id, abort_conn, abort_all, Move, enter, begin, finish, leave,
  behind_run, next_phase, listing, to_phase, move_conn, Event, connect, moves, stop, all_ended,
  step, run,
}

-- From behind the insertion up to the erasure.
abbrev pub is_listed : Phase → Bool
is_listed spawned = false
is_listed listed = true
is_listed running = true
is_listed ended = true
is_listed over = false

abbrev pub in_set : Option Conn → Bool
in_set none = false
in_set (some conn) = is_listed conn.phase

abbrev pub is_aborted : Option Conn → Bool
is_aborted none = false
is_aborted (some conn) = conn.aborted

has-insert_id :
    (j i : ℕ) (ids : List ℕ) → has j (insert_id i ids) ≡ (if j == i then true else has j ids)
unfolding insert_id has
has-insert_id j i ids = elim (Bool-cases (has i ids)) [
  | inl e ↦ ground (arith, e)
  | inr e ↦ ground (arith, e)
]

has-erase_id :
    (j i : ℕ) (ids : List ℕ) → has j (erase_id i ids) ≡ (if j == i then false else has j ids)
unfolding erase_id has
has-erase_id j i [] = ground arith
has-erase_id j i (k ∷ ids) = ground (arith, has-erase_id j i ids)

module _ {A : Type 0} where
  pub get_elem?-set_same :
      (xs : List A) (i : ℕ) (x v : A) → get_elem? xs i ≡ some x → get_elem? (set xs i v) i ≡ some v
  get_elem?-set_same [] i x v h = cc
  get_elem?-set_same (y ∷ xs) zero x v h = refl
  get_elem?-set_same (y ∷ xs) (suc i) x v h = get_elem?-set_same xs i x v h

  pub get_elem?-set_other :
      (xs : List A) (i j : ℕ) (v : A) → j ≢ i → get_elem? (set xs i v) j ≡ get_elem? xs j
  get_elem?-set_other [] i j v h = refl
  get_elem?-set_other (y ∷ xs) zero zero v h = absurd (h refl)
  get_elem?-set_other (y ∷ xs) zero (suc j) v h = refl
  get_elem?-set_other (y ∷ xs) (suc i) zero v h = refl
  get_elem?-set_other (y ∷ xs) (suc i) (suc j) v h =
      get_elem?-set_other xs i j v (λ e. h (ap suc e))

  get_elem?-set_if :
      (xs : List A) (i j : ℕ) (x v : A)
      → get_elem? xs i ≡ some x
      → get_elem? (set xs i v) j ≡ (if j == i then some v else get_elem? xs j)
  get_elem?-set_if xs i j x v h = elim (ℕ_discrete j i) [
    | yes e ↦ rw (e, ==_refl i) (get_elem?-set_same xs i x v h)
    | no e ↦ rw (==_ne j i e) (get_elem?-set_other xs i j v e)
  ]

-- Replacing a connection by one that a test does not tell from it changes no test.
pub test-set :
    (test : Option Conn → Bool) (conns : List Conn) (i j : ℕ) (conn v : Conn)
    → get_elem? conns i ≡ some conn
    → test (some v) ≡ test (some conn)
    → test (get_elem? (set conns i v) j) ≡ test (get_elem? conns j)
test-set test conns i j conn v h same = elim (ℕ_discrete j i) [
  | yes e ↦ rw e (ap test (get_elem?-set_same conns i conn v h) ∙ same ∙ ap test (sym h))
  | no e ↦ ap test (get_elem?-set_other conns i j v e)
]

-- The set holds the sessions that have been put there and not been taken out.
abbrev HoldsListed : Server → Type 0
HoldsListed s = (i : ℕ) → has i s.session_map ≡ in_set (get_elem? s.conns i)

pub in_set-abort_conn :
    (conns : List Conn) (i j : ℕ)
    → in_set (get_elem? (abort_conn (get_elem? conns i) conns i) j) ≡ in_set (get_elem? conns j)
unfolding abort_conn
in_set-abort_conn conns i j = elim (Option-cases (get_elem? conns i)) [
  | inl e ↦ rw e refl
  | inr (conn, e) ↦
      rw e (test-set in_set conns i j conn (record { phase = conn.phase; aborted = true }) e refl)
]

in_set-abort_all :
    (ids : List ℕ) (conns : List Conn) (j : ℕ)
    → in_set (get_elem? (abort_all ids conns) j) ≡ in_set (get_elem? conns j)
unfolding abort_all
in_set-abort_all [] conns j = refl
in_set-abort_all (i ∷ ids) conns j =
    in_set-abort_all ids (abort_conn (get_elem? conns i) conns i) j ∙ in_set-abort_conn conns i j

in_set-append :
    (conns : List Conn) (j : ℕ)
    → in_set (get_elem? (conns ++ record { phase = spawned; aborted = false } ∷ []) j)
      ≡ in_set (get_elem? conns j)
in_set-append [] zero = refl
in_set-append [] (suc j) = refl
in_set-append (conn ∷ conns) zero = refl
in_set-append (conn ∷ conns) (suc j) = in_set-append conns j

listing-same :
    (move : Move) (p q : Phase) (i : ℕ) (ids : List ℕ)
    → next_phase move p ≡ some q
    → has i ids ≡ is_listed p
    → has i (listing move i ids) ≡ is_listed q
unfolding next_phase listing behind_run
listing-same enter spawned listed i ids h k = has-insert_id i i ids ∙ rw (==_refl i) refl
listing-same begin listed running i ids h k = k
listing-same (finish returned) running ended i ids h k = k
listing-same (finish threw) running ended i ids h k = k
listing-same (finish threw_unknown) running ended i ids h k = k
listing-same leave ended over i ids h k = has-erase_id i i ids ∙ rw (==_refl i) refl
listing-same move p q i ids h k = cc

listing-other :
    (move : Move) (i j : ℕ) (ids : List ℕ) → j ≢ i → has j (listing move i ids) ≡ has j ids
unfolding listing
listing-other enter i j ids h = has-insert_id j i ids ∙ rw (==_ne j i h) refl
listing-other begin i j ids h = refl
listing-other (finish ending) i j ids h = refl
listing-other leave i j ids h = has-erase_id j i ids ∙ rw (==_ne j i h) refl

move-HoldsListed :
    (move : Move) (i : ℕ) (s : Server)
    → HoldsListed s
    → HoldsListed (move_conn (get_elem? s.conns i) move i s)
unfolding move_conn to_phase
move-HoldsListed move i s h j = elim (Option-cases (get_elem? s.conns i)) [
  | inl none_there ↦ rw none_there (h j)
  | inr (conn, there) ↦ rw there (elim (Option-cases (next_phase move conn.phase)) [
    | inl no_step ↦ rw no_step (h j)
    | inr (q, step_to) ↦
        let v : Conn = record { phase = q; aborted = conn.aborted } in
        rw step_to (elim (ℕ_discrete j i) [
          | yes same ↦ rw same (
              listing-same move conn.phase q i s.session_map step_to (h i ∙ ap in_set there)
              ∙ sym (ap in_set (get_elem?-set_same s.conns i conn v there)))
          | no apart ↦
              listing-other move i j s.session_map apart
              ∙ h j
              ∙ sym (ap in_set (get_elem?-set_other s.conns i j v apart))
        ])
  ])
]

step-HoldsListed : (e : Event) (s : Server) → HoldsListed s → HoldsListed (step e s)
unfolding step
step-HoldsListed connect s h j = h j ∙ sym (in_set-append s.conns j)
step-HoldsListed (moves move i) s h j = move-HoldsListed move i s h j
step-HoldsListed stop s h j = h j ∙ sym (in_set-abort_all s.session_map s.conns j)
step-HoldsListed all_ended s h j = h j ∙ sym (in_set-abort_all s.session_map s.conns j)

run_from-HoldsListed :
    (events : List Event) (s : Server) → HoldsListed s → HoldsListed (run events s)
unfolding run
run_from-HoldsListed [] s h = h
run_from-HoldsListed (e ∷ events) s h =
    run_from-HoldsListed events (step e s) (step-HoldsListed e s h)

pub run-HoldsListed : (events : List Event) → HoldsListed (run events new_server)
unfolding has
run-HoldsListed events = run_from-HoldsListed events new_server (λ j. refl)

abbrev pub IsOver : Conn → Type 0
IsOver conn = conn.phase ≡ over

in_set-over : (conns : List Conn) (i : ℕ) → All IsOver conns → in_set (get_elem? conns i) ≡ false
in_set-over [] i h = refl
in_set-over (conn ∷ conns) zero h = ap is_listed h.0
in_set-over (conn ∷ conns) (suc i) h = in_set-over conns i h.1

has-none : (ids : List ℕ) → ((i : ℕ) → has i ids ≡ false) → ids ≡ []
unfolding has
has-none [] h = refl
has-none (i ∷ ids) h = absurd (listed_first (sym (rw (==_refl i) refl) ∙ h i))
  where
    listed_first : true ≡ false → ⊥
    listed_first e = cc

-- Whatever a server goes through, once every `handle_accept` that was spawned is at its end the set
-- of sessions is empty, whether `run` returned or threw a `std::exception` or anything else.
pub run-session_map :
    (events : List Event)
    → All IsOver (run events new_server).conns
    → (run events new_server).session_map ≡ []
run-session_map events h =
    let s = run events new_server in
    has-none s.session_map (λ i. run-HoldsListed events i ∙ in_set-over s.conns i h)
