-- ===== src/Server/Router/Routing/Dispatch.antt =====
-- What the router answers, in terms of the candidates of the path.
use httplib.Base.{ℕ, ◌≡◌, refl, Bool, true, false, Option, none, some, List, [], ◌∷◌, Text}
use httplib.Util.Trim.{Trimming}
use httplib.Server.Response.{Calls, keep_alive, Format}
use httplib.Server.Router.{Verb, other, Node, payload, Regex}
use httplib.Server.Router.Match.{Params, match_nodes}
use httplib.Server.Router.Match.Candidates.{candidates, first, match_nodes-first}
use httplib.Server.Router.Routing.{
  split_segments, find_handler, Names, Routed, run_handler, respond, allows_of, has_method, start,
  found_handler, refusal, proc_routing, pre_routing, pre_routing_search,
}
use httplib.Server.Router.Routing.Handlers.{asked-none}

module _ {H W : Type 0} where
  -- The nodes that a path can lead to, the preferred ones first.
  abbrev pub reached : Regex → Trimming → Node H W → Text → List (Node H W)
  reached re boost root path = candidates re (split_segments boost path) root

module _ {J : Type 0} (names : Names) (format : Format) (server : Text) {H W : Type 0} (re : Regex)
    (boost : Trimming) where
  abbrev route : Node H W → Verb → Text → Routed J H
  route = proc_routing names format server re boost

  -- A request is given to the handler for its method of the first candidate that has one.
  pub proc_routing-found :
      (root : Node H W) (method : Verb) (path : Text) (n : Node H W) (h : H)
      → first (has_method method) (reached re boost root path) ≡ some n
      → find_handler method (payload n).handlers ≡ some h
      → (params : Params) × (route root method path ≡ run_handler h params)
  unfolding proc_routing found_handler
  proc_routing-found root method path n h e k =
      let r = match_nodes re (has_method method) (split_segments boost path) root start in
      let hit =
        (match_nodes-first (has_method method) re (split_segments boost path) root start).0 in
      (r.state.params, rw (hit, e, proc_routing, found_handler, k) refl)

  -- If no candidate has a handler for the method, the answer is a refusal with the methods of all
  -- candidates.
  pub proc_routing-refused :
      (root : Node H W) (method : Verb) (path : Text)
      → first (has_method method) (reached re boost root path) ≡ none
      → route root method path
        ≡ respond (refusal names format server (allows_of names (reached re boost root path) []))
  unfolding proc_routing found_handler
  proc_routing-refused root method path e =
      let law = match_nodes-first (has_method method) re (split_segments boost path) root start in
      rw
        (
          law.0,
          e,
          proc_routing,
          found_handler,
          law.1,
          asked-none (has_method method) (reached re boost root path) e,
        )
        refl

  -- For a method that the switch of `pre_routing` does not name: the request is taken beforehand
  -- exactly if routing it will run a handler, and else the same answer is given, with the
  -- connection closed.
  pub pre_routing-proc_routing :
      (root : Node H W) (m : ℕ) (path : Text)
      → pre_routing names format server re boost root (other m) path
        ≡ (elim (route root (other m) path) [
          | run_handler h params ↦ (true, [])
          | respond calls ↦ (false, keep_alive false ∷ calls)
        ])
  unfolding pre_routing pre_routing_search proc_routing
  pre_routing-proc_routing root m path =
      by_handler
        (found_handler (other m)
          (match_nodes re (has_method (other m)) (split_segments boost path) root start).found)
        (match_nodes re (has_method (other m)) (split_segments boost path) root start).state.params
        (refusal names format server (
          allows_of names
            (match_nodes re (has_method (other m)) (split_segments boost path) root
              start).state.visited
            []))
    where
      by_handler :
          (o : Option H) (params : Params) (calls : Calls J)
          → (elim o as (λ x. Bool × Calls J) [
            | some h ↦ (true, [])
            | none ↦ (false, keep_alive false ∷ calls)
          ])
            ≡ (elim (elim o as (λ x. Routed J H) [
              | some h ↦ run_handler h params
              | none ↦ respond calls
            ])
                as (λ x. Bool × Calls J) [
                  | run_handler h ps ↦ (true, [])
                  | respond cs ↦ (false, keep_alive false ∷ cs)
                ])
      by_handler none params calls = refl
      by_handler (some h) params calls = refl
