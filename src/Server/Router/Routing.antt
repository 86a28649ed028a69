-- ===== src/Server/Router/Routing.antt =====
-- lib/server/router_impl.cpp: setting handlers, and routing a request. What a handler does is not
-- part of the router: `proc_routing` says which handler it runs, with which parameters.
pub mod Handlers
pub mod Dispatch
pub mod Registration
pub mod Refusal
use httplib.Base.{
  ℕ, ltb, Bool, true, false, ◌&&◌, ◌||◌, Option, none, some, List, [], ◌∷◌, ◌++◌, Text, codes, ◌==◌,
  if◌then◌else◌, eq_text, less_text, ends_with, null,
}
use httplib.Util.Trim.{Trimming}
use httplib.Util.Split.{split}
use httplib.Server.Response.{
  Calls, keep_alive, set, Format, set_error_content, status_not_found, status_method_not_allowed,
}
use httplib.Server.Router.{
  Verb, get, head, trace, connect, options, other, Payload, Node, payload, Regex,
}
use httplib.Server.Router.Insert.{insert}
use httplib.Server.Router.Match.{Params, State, match_nodes}

-- `detail::split_segments`
unfoldable pub split_segments : Trimming → Text → List Text
split_segments boost path =
    if ends_with path (codes "/")
    then split boost path (codes "/") ++ [] ∷ []
    else split boost path (codes "/")

abbrev pub eq_verb : Verb → Verb → Bool
eq_verb get get = true
eq_verb head head = true
eq_verb trace trace = true
eq_verb connect connect = true
eq_verb options options = true
eq_verb (other m) (other n) = m == n
eq_verb _ _ = false

module _ {H : Type 0} where
  unfoldable pub find_handler : Verb → List (Verb × H) → Option H
  find_handler v [] = none
  find_handler v ((w, h) ∷ hs) =
      let rest = find_handler v hs in if eq_verb w v then some h else rest

  -- `handlers[method] = handler`
  unfoldable pub assign_handler : Verb → H → List (Verb × H) → List (Verb × H)
  assign_handler v h [] = (v, h) ∷ []
  assign_handler v h ((w, g) ∷ hs) =
      let rest = assign_handler v h hs in if eq_verb w v then (w, h) ∷ hs else (w, g) ∷ rest

-- `std::set<std::string>::insert`
unfoldable pub set_insert : Text → List Text → List Text
set_insert s [] = s ∷ []
set_insert s (t ∷ ts) =
    let rest = set_insert s ts in
    if eq_text s t then t ∷ ts else if less_text s t then s ∷ t ∷ ts else t ∷ rest

-- What the code relies on of Boost: `http::to_string` of a method and `boost::join`.
pub record Names : Type 0 where
  pub to_string : Verb → Text
  pub join : List Text → Text → Text

module _ {H W : Type 0} (re : Regex) (boost : Trimming) where
  unfoldable pub set_http_handler_impl : Verb → Text → H → Node H W → Node H W × Bool
  unfolding assign_handler split_segments
  set_http_handler_impl method path handler root =
      insert re (λ p. record p { handlers = assign_handler method handler p.handlers })
        (split_segments boost path) root

  unfoldable pub set_ws_handler_impl : Text → W → Node H W → Node H W × Bool
  unfolding split_segments
  set_ws_handler_impl path ws root =
      insert re (λ p. record p { ws_handler = some ws }) (split_segments boost path) root

pub data Routed (J H : Type 0) : Type 0 where
  run_handler : H → Params → Routed J H
  respond : Calls J → Routed J H

module _ {H : Type 0} where
  -- The match handler of `proc_routing` puts the methods of each node it is called at into a set.
  unfoldable pub allow_methods : Names → List (Verb × H) → List Text → List Text
  unfolding set_insert
  allow_methods names [] allows = allows
  allow_methods names ((v, h) ∷ hs) allows =
      allow_methods names hs (set_insert (names.to_string v) allows)

module _ {H W : Type 0} where
  unfoldable pub allows_of : Names → List (Node H W) → List Text → List Text
  unfolding allow_methods
  allows_of names [] allows = allows
  allows_of names (n ∷ ns) allows =
      allows_of names ns (allow_methods names (payload n).handlers allows)

  -- `node->handlers.find(req.method()) != node->handlers.end()`
  unfoldable pub has_method : Verb → Node H W → Bool
  unfolding find_handler
  has_method method n = elim (find_handler method (payload n).handlers) [
    | none ↦ false
    | some h ↦ true
  ]

  unfoldable pub has_ws_handler : Node H W → Bool
  has_ws_handler n = elim (payload n).ws_handler [ none ↦ false | some w ↦ true ]

  abbrev pub start : State H W
  start = record { params = []; visited = [] }

  -- The handler that the search ends at.
  unfoldable pub found_handler : Verb → Option (Node H W) → Option H
  unfolding find_handler
  found_handler method none = none
  found_handler method (some n) = find_handler method (payload n).handlers

module _ {J : Type 0} (names : Names) (format : Format) (server : Text) where
  -- What is answered to a request that no handler takes.
  unfoldable pub refusal : List Text → Calls J
  refusal [] = set_error_content format server status_not_found
  refusal (a ∷ allows) =
      set (codes "Allow") (names.join (a ∷ allows) (codes ","))
      ∷ set_error_content format server status_method_not_allowed

  module _ {H W : Type 0} (re : Regex) (boost : Trimming) (root : Node H W) where
    unfoldable pub proc_routing : Verb → Text → Routed J H
    unfolding found_handler has_method split_segments allows_of refusal
    proc_routing method path =
        let r = match_nodes re (has_method method) (split_segments boost path) root start in
        elim (found_handler method r.found) [
          | some h ↦ run_handler h r.state.params
          | none ↦ respond (refusal (allows_of names r.state.visited []))
        ]

    -- The `default` of the switch.
    unfoldable pub pre_routing_search : Verb → Text → Bool × Calls J
    unfolding found_handler has_method split_segments allows_of refusal
    pre_routing_search method path =
        let r = match_nodes re (has_method method) (split_segments boost path) root start in
        elim (found_handler method r.found) [
          | some h ↦ (true, [])
          | none ↦ (false, keep_alive false ∷ refusal (allows_of names r.state.visited []))
        ]

    -- Whether the request is taken, and what is answered if it is not.
    unfoldable pub pre_routing : Verb → Text → Bool × Calls J
    unfolding pre_routing_search
    pre_routing get path = (true, [])
    pre_routing head path = (true, [])
    pre_routing trace path = (true, [])
    pre_routing connect path = (true, [])
    pre_routing options path = (true, [])
    pre_routing (other m) path = pre_routing_search (other m) path

module _ {H W : Type 0} (re : Regex) (boost : Trimming) (root : Node H W) where
  abbrev ws_of : Option (Node H W) → Option W
  ws_of none = none
  ws_of (some n) = (payload n).ws_handler

  unfoldable pub query_ws_handler : Text → Option W
  unfolding has_ws_handler split_segments
  query_ws_handler path =
      ws_of (match_nodes re has_ws_handler (split_segments boost path) root start).found

-- The handlers that `post_routing` runs, in order, at the status that the response has.
unfoldable pub post_routing {ℓ} : {H : Type ℓ} → Option H → Option H → ℕ → List H
post_routing not_found_handler post_handler status =
    (elim not_found_handler [
      | none ↦ []
      | some h ↦ if status == status_not_found then h ∷ [] else []
    ])
    ++ (elim post_handler [ none ↦ [] | some h ↦ h ∷ [] ])
