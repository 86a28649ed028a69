-- ===== src/Util/ActionQueue.antt =====
-- `action_queue::impl` of lib/util/action_queue_impl.hpp. The coroutine `perform` is a part of the
-- state: absent, between two actions, or in one. What holds the mutex is one step.
pub mod History
use httplib.Base.{ℕ, Bool, true, false, ◌&&◌, ◌||◌, not, List, [], ◌∷◌, ◌++◌, if◌then◌else◌, null}

-- `perform`; the Boolean is whether its cancellation state is cancelled.
pub data Runner {ℓ} (A : Type ℓ) : Type ℓ where
  absent : Runner A
  resting : Bool → Runner A
  busy : Bool → A → Runner A

-- `started` are the actions that were begun, in order; `kept` those that were taken into the queue
-- and not cleared from it.
pub record Queue {ℓ} (A : Type ℓ) : Type ℓ where
  pub que : List A
  pub running : Bool
  pub shutdowning : Bool
  pub runner : Runner A
  pub started : List A
  pub kept : List A

module _ {ℓ} {A : Type ℓ} where
  abbrev pub new_queue : Queue A
  new_queue = record {
    que = [];
    running = false;
    shutdowning = false;
    runner = absent;
    started = [];
    kept = [];
  }

  -- `co_spawn` with a slot that nothing has been emitted to.
  abbrev pub spawn_if_idle : Bool → Runner A → Runner A
  spawn_if_idle true r = r
  spawn_if_idle false r = resting false

  unfoldable pub push : A → Queue A → Queue A
  push handler q = if q.shutdowning then q else record q {
    que = q.que ++ handler ∷ [];
    running = true;
    runner = spawn_if_idle q.running q.runner;
    kept = q.kept ++ handler ∷ [];
  }

  unfoldable pub clear : Queue A → Queue A
  clear q = record q { que = []; kept = q.started }

  -- `cs_.emit`
  abbrev pub cancelled_by : Bool → Runner A → Runner A
  cancelled_by signal absent = absent
  cancelled_by signal (resting c) = resting (c || signal)
  cancelled_by signal (busy c a) = busy (c || signal) a

  -- `async_shutdown`, up to its wait for the timer.
  unfoldable pub async_shutdown : Bool → Queue A → Queue A
  async_shutdown cancel_signal q =
      if not q.running && q.shutdowning
      then q
      else record q { shutdowning = true; runner = cancelled_by cancel_signal q.runner }

  -- One round of `perform` up to the call of the handler.
  unfoldable pub take_next : Bool → List A → Queue A → Queue A
  take_next true que q = record q { running = false; runner = absent }
  take_next false [] q = record q { running = false; runner = absent }
  take_next false (handler ∷ que) q = record q {
    que = que;
    runner = busy false handler;
    started = q.started ++ handler ∷ [];
  }

  -- `perform` goes on where it is: behind a handler that returned, it is between two.
  unfoldable pub perform : Runner A → Queue A → Queue A
  unfolding take_next
  perform absent q = q
  perform (resting c) q = take_next c q.que q
  perform (busy c a) q = record q { runner = resting c }

  -- The handler that runs throws: `perform` ends by the exception.
  unfoldable pub fault : Runner A → Queue A → Queue A
  fault (busy c a) q = record q { runner = absent }
  fault r q = q
