-- ===== src/Server/Session/Tasks.antt =====
-- The tasks of a session (lib/server/session.cpp): `session::run` and the `then` of each task, with
-- the results of detection, handshake and the loop of `http_task` given.
use httplib.Base.{
  ℕ, zero, suc, ◌-◌, ◌≤◌, ◌<◌, ◌≡◌, refl, ap, Bool, true, false, Option, none, some, List, [], ◌∷◌,
  length, if◌then◌else◌, arith, inl, inr, Bool-cases,
}
use httplib.Server.Session.{Ending, waiting, ended, becomes_proxy, becomes_websocket}

pub data Task : Type 0 where
  detect_ssl_task ssl_handshake_task http_task websocket_task http_proxy_task : Task

-- What a task meets: whether the server has an `ssl_context`, the result of `async_detect_ssl`, of
-- the handshake, how the loop of `http_task` ends, and whether `abort` was called meanwhile.
pub record Met : Type 0 where
  pub has_ssl_context : Bool
  pub is_ssl : Option Bool
  pub handshake : Bool
  pub ending : Ending
  pub aborted : Bool

-- `then` of a task that ends; `none` is a null pointer.
unfoldable pub next_task : Task → Met → Option Task
next_task detect_ssl_task met =
    if met.has_ssl_context
    then (elim met.is_ssl [
      | none ↦ none
      | some ssl ↦ if ssl then some ssl_handshake_task else some http_task
    ])
    else some http_task
next_task ssl_handshake_task met = if met.handshake then some http_task else none
next_task http_task met = elim met.ending [
  | becomes_proxy ↦ some http_proxy_task
  | becomes_websocket ↦ some websocket_task
  | _ ↦ none
]
next_task websocket_task met = none
next_task http_proxy_task met = none

-- `run`, on fuel: the tasks that are run, where `met k` is what the task behind `k` others meets.
unfoldable pub run_tasks : ℕ → (ℕ → Met) → ℕ → Option Task → Option (List Task)
unfolding next_task
run_tasks zero met k task = none
run_tasks (suc fuel) met k none = some []
run_tasks (suc fuel) met k (some t) =
    let later = run_tasks fuel met (suc k) (next_task t (met k)) in
    if (met k).aborted then some (t ∷ []) else elim later [ none ↦ none | some ts ↦ some (t ∷ ts) ]

abbrev rank : Task → ℕ
rank detect_ssl_task = 0
rank ssl_handshake_task = 1
rank http_task = 2
rank websocket_task = 3
rank http_proxy_task = 3

abbrev Ascends : Task → Option Task → Type 0
Ascends t none = Unit {0}
Ascends t (some u) = rank t < rank u

next_task-Ascends : (t : Task) (met : Met) → Ascends t (next_task t met)
unfolding next_task
next_task-Ascends detect_ssl_task met = elim (Bool-cases met.has_ssl_context) [
  | inl e ↦ rw (e, next_task) (by_detection met.is_ssl)
  | inr e ↦ rw (e, next_task) (omega arith)
]
  where
    by_detection :
        (o : Option Bool)
        → Ascends detect_ssl_task (elim o as (λ x. Option Task) [
          | none ↦ none
          | some ssl ↦ if ssl then some ssl_handshake_task else some http_task
        ])
    by_detection none = tt
    by_detection (some true) = omega arith
    by_detection (some false) = omega arith
next_task-Ascends ssl_handshake_task met = elim (Bool-cases met.handshake) [
  | inl e ↦ rw (e, next_task) (omega arith)
  | inr e ↦ rw (e, next_task) tt
]
next_task-Ascends http_task met = by_ending met.ending
  where
    by_ending :
        (end : Ending)
        → Ascends http_task (elim end as (λ x. Option Task) [
          | becomes_proxy ↦ some http_proxy_task
          | becomes_websocket ↦ some websocket_task
          | _ ↦ none
        ])
    by_ending waiting = tt
    by_ending ended = tt
    by_ending becomes_proxy = omega arith
    by_ending becomes_websocket = omega arith
next_task-Ascends websocket_task met = tt
next_task-Ascends http_proxy_task met = tt

abbrev left : Option Task → ℕ
left none = 0
left (some t) = 4 - rank t

rank_bound : (t : Task) → rank t < 4
rank_bound detect_ssl_task = omega arith
rank_bound ssl_handshake_task = omega arith
rank_bound http_task = omega arith
rank_bound websocket_task = omega arith
rank_bound http_proxy_task = omega arith

left-next : (t : Task) (o : Option Task) → Ascends t o → suc (left o) ≤ left (some t)
left-next t none h = omega (arith, rank_bound t)
left-next t (some u) h = omega (arith, h, rank_bound u)

-- That `run` comes to an end with at most `bound` tasks.
abbrev pub Ends : ℕ → Option (List Task) → Type 0
Ends bound o = (ts : List Task) × (o ≡ some ts) × (length ts ≤ bound)

abbrev tasks_of : Option (List Task) → List Task
tasks_of none = []
tasks_of (some ts) = ts

one_more :
    (t : Task) (n bound : ℕ) (aborted : Bool) (o : Option (List Task))
    → Ends n o
    → suc n ≤ bound
    → Ends bound
        (if aborted then some (t ∷ []) else elim o [ none ↦ none | some ts ↦ some (t ∷ ts) ])
one_more t n bound true o later h = (t ∷ [], refl, omega (arith, h))
one_more t n bound false none later h = cc later.1
one_more t n bound false (some ts) later h =
    (t ∷ ts, refl, ground (arith, later.2, h, ap (λ o. length (tasks_of o)) later.1))

Ends-run_tasks :
    (fuel : ℕ) (met : ℕ → Met) (k : ℕ) (o : Option Task)
    → left o < fuel
    → Ends (left o) (run_tasks fuel met k o)
unfolding run_tasks
Ends-run_tasks zero met k o h = absurd (omega (arith, h))
Ends-run_tasks (suc fuel) met k none h = ([], refl, omega arith)
Ends-run_tasks (suc fuel) met k (some t) h =
    let step = left-next t (next_task t (met k)) (next_task-Ascends t (met k)) in
    one_more t (left (next_task t (met k))) (left (some t)) (met k).aborted
      (run_tasks fuel met (suc k) (next_task t (met k)))
      (Ends-run_tasks fuel met (suc k) (next_task t (met k)) (omega (arith, step, h))) step

-- Whatever its tasks meet, a session comes to an end once they do, after at most four of them.
pub run_tasks-Ends : (met : ℕ → Met) → Ends 4 (run_tasks 5 met 0 (some detect_ssl_task))
run_tasks-Ends met = Ends-run_tasks 5 met 0 (some detect_ssl_task) (omega arith)
