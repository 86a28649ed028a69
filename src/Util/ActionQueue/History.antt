-- ===== src/Util/ActionQueue/History.antt =====
-- What happens in a queue of actions (lib/util/action_queue_impl.hpp), over any sequence of steps.
use httplib.Base.{
  ◌≡◌, refl, sym, ap, ◌∙◌, Bool, true, false, ◌&&◌, not, List, [], ◌∷◌, ◌++◌, append_assoc,
  append-nil, inl, inr, Bool-cases,
}
use httplib.Util.ActionQueue.{
  Runner, absent, resting, busy, Queue, new_queue, push, clear, cancelled_by, async_shutdown,
  take_next, perform, fault,
}

-- A step of a caller, of `perform`, or of a handler that throws.
pub data Event {ℓ} (A : Type ℓ) : Type ℓ where
  pushes : A → Event A
  clears : Event A
  shuts_down : Bool → Event A
  performs : Event A
  throws : Event A

module _ {ℓ} {A : Type ℓ} where
  abbrev pub step : Queue A → Event A → Queue A
  step q (pushes a) = push a q
  step q clears = clear q
  step q (shuts_down signal) = async_shutdown signal q
  step q performs = perform q.runner q
  step q throws = fault q.runner q

  abbrev pub run : Queue A → List (Event A) → Queue A
  run q [] = q
  run q (e ∷ es) = run (step q e) es

  abbrev InOrder : Queue A → Type ℓ
  InOrder q = q.started ++ q.que ≡ q.kept

  take_next-InOrder :
      (c : Bool) (que : List A) (q : Queue A)
      → q.started ++ que ≡ q.kept
      → q.que ≡ que
      → InOrder (take_next c que q)
  unfolding take_next
  take_next-InOrder true que q h e = ap (λ r. q.started ++ r) e ∙ h
  take_next-InOrder false [] q h e = ap (λ r. q.started ++ r) e ∙ h
  take_next-InOrder false (a ∷ que) q h e = append_assoc q.started (a ∷ []) que ∙ h

  perform-InOrder : (r : Runner A) (q : Queue A) → InOrder q → InOrder (perform r q)
  unfolding perform
  perform-InOrder absent q h = h
  perform-InOrder (resting c) q h = take_next-InOrder c q.que q h refl
  perform-InOrder (busy c a) q h = h

  step-InOrder : (q : Queue A) (e : Event A) → InOrder q → InOrder (step q e)
  unfolding push clear async_shutdown fault
  step-InOrder q (pushes a) h = elim (Bool-cases q.shutdowning) [
    | inl e ↦ rw e h
    | inr e ↦ rw e (sym (append_assoc q.started q.que (a ∷ [])) ∙ ap (λ l. l ++ a ∷ []) h)
  ]
  step-InOrder q clears h = append-nil q.started
  step-InOrder q (shuts_down signal) h = elim (Bool-cases (not q.running && q.shutdowning)) [
    | inl e ↦ rw e h
    | inr e ↦ rw e h
  ]
  step-InOrder q performs h = perform-InOrder q.runner q h
  step-InOrder q throws h = by_runner q.runner
    where
      by_runner : (r : Runner A) → InOrder (fault r q)
      by_runner absent = h
      by_runner (resting c) = h
      by_runner (busy c a) = h

  run-InOrder : (q : Queue A) (es : List (Event A)) → InOrder q → InOrder (run q es)
  run-InOrder q [] h = h
  run-InOrder q (e ∷ es) h = run-InOrder (step q e) es (step-InOrder q e h)

  -- Over any sequence of steps, the actions that were begun, followed by those that wait, are the
  -- actions that were taken in and not cleared, each once and in the order of the pushes.
  pub run-started :
      (es : List (Event A))
      → (run new_queue es).started ++ (run new_queue es).que ≡ (run new_queue es).kept
  run-started es = run-InOrder new_queue es refl

  -- No `perform` is there, but `running` says that one is.
  pub record IsStuck (begun : List A) (q : Queue A) : Type ℓ where
    pub marked : q.running ≡ true
    pub nobody : q.runner ≡ absent
    pub same : q.started ≡ begun

  step-IsStuck :
      (begun : List A) (q : Queue A) (e : Event A) → IsStuck begun q → IsStuck begun (step q e)
  unfolding push clear async_shutdown fault perform
  step-IsStuck begun q (pushes a) s = elim (Bool-cases q.shutdowning) [
    | inl e ↦ rw e (record { marked = s.marked; nobody = s.nobody; same = s.same })
    | inr e ↦ rw (e, push) (record { marked = refl; nobody = rw s.marked s.nobody; same = s.same })
  ]
  step-IsStuck begun q clears s = record { marked = s.marked; nobody = s.nobody; same = s.same }
  step-IsStuck begun q (shuts_down signal) s = elim (Bool-cases (not q.running && q.shutdowning)) [
    | inl e ↦ rw e (record { marked = s.marked; nobody = s.nobody; same = s.same })
    | inr e ↦
        rw (e, async_shutdown)
          (record { marked = s.marked; nobody = ap (cancelled_by signal) s.nobody; same = s.same })
  ]
  step-IsStuck begun q performs s =
      rw (s.nobody, perform) (record { marked = s.marked; nobody = refl; same = s.same })
  step-IsStuck begun q throws s =
      rw (s.nobody, fault) (record { marked = s.marked; nobody = refl; same = s.same })

  run-IsStuck :
      (begun : List A) (q : Queue A) (es : List (Event A))
      → IsStuck begun q
      → IsStuck begun (run q es)
  run-IsStuck begun q [] s = s
  run-IsStuck begun q (e ∷ es) s = run-IsStuck begun (step q e) es (step-IsStuck begun q e s)

  -- If an action throws while `perform` runs it, then no further action is ever begun, whatever is
  -- pushed, cleared or shut down later.
  pub throws-stops :
      (q : Queue A) (c : Bool) (a : A) (es : List (Event A))
      → q.running ≡ true
      → q.runner ≡ busy c a
      → (run (step q throws) es).started ≡ q.started
  unfolding fault
  throws-stops q c a es h k = (run-IsStuck q.started (step q throws) es stuck).same
    where
      stuck : IsStuck q.started (step q throws)
      stuck = rw (k, fault) (record { marked = h; nobody = refl; same = refl })
