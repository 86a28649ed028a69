-- ===== src/Server/Router/Match.antt =====
-- `router_impl::match_nodes` of lib/server/router_impl.cpp. The map of path parameters and the log of
-- the nodes at which the match handler was called (the handlers of the source collect methods
-- there) are passed along as a state. The segments are those from `index` on.
pub mod Candidates
use httplib.Base.{
  ℕ, Bool, true, false, Option, none, some, List, [], ◌∷◌, ◌++◌, Text, codes, if◌then◌else◌,
  eq_text, null,
}
use httplib.Server.Router.{
  Node, node, Table, none_left, entry, Nodes, nil, cons, Wildcard, null_child, child, label, Regex,
}

-- `std::unordered_map<std::string, std::string>`, one entry for a key.
abbrev pub Params : Type 0
Params = List (Text × Text)

unfoldable pub erase : Text → Params → Params
erase k [] = []
erase k ((j, v) ∷ ps) = let rest = erase k ps in if eq_text j k then rest else (j, v) ∷ rest

-- `params[k] = v`
unfoldable pub assign : Text → Text → Params → Params
unfolding erase
assign k v ps = (k, v) ∷ erase k ps

unfoldable pub find_param : Text → Params → Option Text
find_param k [] = none
find_param k ((j, v) ∷ ps) = let rest = find_param k ps in if eq_text j k then some v else rest

-- The rest of the path under a wildcard: `rest += "/"` only behind a text that is not empty.
unfoldable pub rest_from : Text → List Text → Text
rest_from rest [] = rest
rest_from rest (seg ∷ segments) =
    rest_from ((if null rest then [] else rest ++ codes "/") ++ seg) segments

pub record State (H W : Type 0) : Type 0 where
  pub params : Params
  pub visited : List (Node H W)

-- `const Node*` and the state behind the call.
pub record Search (H W : Type 0) : Type 0 where
  pub found : Option (Node H W)
  pub state : State H W

abbrev pub Step : Type 0 → Type 0 → Type 0
Step H W = Node H W → State H W → Search H W

module _ {H W : Type 0} where
  unfoldable pub find_static : Text → Table H W → Option (Node H W)
  find_static seg none_left = none
  find_static seg (entry k n t) =
      let later = find_static seg t in if eq_text k seg then some n else later

  -- `index == segments.size()`: the handler decides.
  unfoldable pub at_end : (Node H W → Bool) → Step H W
  at_end handler n s =
      let s' : State H W = record { params = s.params; visited = s.visited ++ n ∷ [] } in
      if handler n
      then record { found = some n; state = s' }
      else record { found = none; state = s' }

  -- A search that goes on with another where it found nothing.
  abbrev pub or_else : Search H W → (State H W → Search H W) → Search H W
  or_else r next = elim r.found [ none ↦ next r.state | some n ↦ r ]

  -- A child that binds a parameter: the binding is erased if the child leads nowhere.
  unfoldable pub try_binding : Step H W → Text → Text → Node H W → State H W → Search H W
  unfolding assign erase
  try_binding go name value n s =
      let r = go n (record s { params = assign name value s.params }) in
      elim r.found [
        | none ↦ record {
          found = none;
          state = record { params = erase name r.state.params; visited = r.state.visited };
        }
        | some m ↦ r
      ]

  unfoldable pub try_regexes : Regex → Step H W → Text → Nodes H W → State H W → Search H W
  unfolding try_binding
  try_regexes re go seg nil s = record { found = none; state = s }
  try_regexes re go seg (cons n ns) s =
      let rest = λ (s' : State H W). try_regexes re go seg ns s' in
      if re.regex_match (label n).regex seg
      then or_else (try_binding go (label n).param_name seg n s) rest
      else rest s

  unfoldable pub try_params : Step H W → Text → Nodes H W → State H W → Search H W
  unfolding try_binding
  try_params go seg nil s = record { found = none; state = s }
  try_params go seg (cons n ns) s =
      or_else (try_binding go (label n).param_name seg n s) (λ s'. try_params go seg ns s')

  unfoldable pub try_wildcard : (Node H W → Bool) → Text → Wildcard H W → State H W → Search H W
  unfolding try_binding at_end
  try_wildcard handler rest null_child s = record { found = none; state = s }
  try_wildcard handler rest (child n) s = try_binding (at_end handler) (codes "*") rest n s

  unfoldable pub try_static : Step H W → Option (Node H W) → State H W → Search H W
  try_static go none s = record { found = none; state = s }
  try_static go (some n) s = go n s

  unfoldable pub match_segment : Regex → (Node H W → Bool) → Step H W → Text → List Text → Step H W
  unfolding find_static try_static try_regexes try_params try_wildcard rest_from
  match_segment re handler go seg segments (node l p statics params regexes wildcard) s =
      or_else (try_static go (find_static seg statics) s) (λ s₁.
        or_else (try_regexes re go seg regexes s₁) (λ s₂.
          or_else (try_params go seg params s₂)
            (λ s₃. try_wildcard handler (rest_from [] (seg ∷ segments)) wildcard s₃)))

  unfoldable pub match_nodes : Regex → (Node H W → Bool) → List Text → Step H W
  unfolding match_segment at_end
  match_nodes re handler [] n s = at_end handler n s
  match_nodes re handler (seg ∷ segments) n s =
      match_segment re handler (match_nodes re handler segments) seg segments n s
