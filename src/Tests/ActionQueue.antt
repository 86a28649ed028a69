-- ===== src/Tests/ActionQueue.antt =====
-- A queue of actions on short histories.
use httplib.Base.{ℕ, ◌≡◌, refl, false, List, [], ◌∷◌, ◌++◌}
use httplib.Util.ActionQueue.{Queue, busy, new_queue}
use httplib.Util.ActionQueue.History.{
  Event, pushes, performs, throws, step, run, run-started, throws-stops,
}

abbrev events : List (Event ℕ)
events = pushes 1 ∷ pushes 2 ∷ performs ∷ []

run-started_example :
    (run new_queue events).started ++ (run new_queue events).que ≡ (run new_queue events).kept
run-started_example = run-started events

throws-stops_example :
    (run (step (run new_queue events) throws) (pushes 3 ∷ performs ∷ [])).started
    ≡ (run new_queue events).started
unfolding httplib.Util.ActionQueue.perform httplib.Util.ActionQueue.push
throws-stops_example =
    throws-stops (run new_queue events) false 1 (pushes 3 ∷ performs ∷ []) refl refl
