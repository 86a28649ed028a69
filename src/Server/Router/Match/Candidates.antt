-- ===== src/Server/Router/Match/Candidates.antt =====
-- The nodes that a path can lead to, in the order in which the search prefers them, as a list with
-- no state; the search is the first of them that the handler accepts.
use httplib.Base.{
  ◌≡◌, refl, sym, ap, ◌∙◌, Bool, Option, none, some, List, [], ◌∷◌, ◌++◌, append_assoc, append-nil,
  Text, if◌then◌else◌, inl, inr, Bool-cases, Option-cases, arith, codes,
}
use httplib.Server.Router.{Node, node, Nodes, nil, cons, Wildcard, null_child, child, label, Regex}
use httplib.Server.Router.Match.{
  State, Search, Step, assign, find_static, at_end, or_else, try_binding, try_regexes, try_params,
  try_wildcard, try_static, match_segment, match_nodes, rest_from,
}

module _ {H W : Type 0} where
  unfoldable pub regex_candidates :
      Regex → (Node H W → List (Node H W)) → Text → Nodes H W → List (Node H W)
  regex_candidates re go seg nil = []
  regex_candidates re go seg (cons n ns) =
      (if re.regex_match (label n).regex seg then go n else []) ++ regex_candidates re go seg ns

  unfoldable pub param_candidates : (Node H W → List (Node H W)) → Nodes H W → List (Node H W)
  param_candidates go nil = []
  param_candidates go (cons n ns) = go n ++ param_candidates go ns

  abbrev pub wildcard_candidates : Wildcard H W → List (Node H W)
  wildcard_candidates null_child = []
  wildcard_candidates (child n) = n ∷ []

  abbrev pub static_candidates : (Node H W → List (Node H W)) → Option (Node H W) → List (Node H W)
  static_candidates go none = []
  static_candidates go (some n) = go n

  -- A static child first, then those of a matching regular expression, then the parameters, and the
  -- wildcard last.
  unfoldable pub candidates : Regex → List Text → Node H W → List (Node H W)
  unfolding regex_candidates param_candidates find_static
  candidates re [] n = n ∷ []
  candidates re (seg ∷ segments) (node l p statics params regexes wildcard) =
      static_candidates (candidates re segments) (find_static seg statics)
      ++ (regex_candidates re (candidates re segments) seg regexes
          ++ (param_candidates (candidates re segments) params ++ wildcard_candidates wildcard))

  -- The first that the handler accepts, and those at which it was asked.
  unfoldable pub first : (Node H W → Bool) → List (Node H W) → Option (Node H W)
  first handler [] = none
  first handler (n ∷ ns) = if handler n then some n else first handler ns

  unfoldable pub asked : (Node H W → Bool) → List (Node H W) → List (Node H W)
  asked handler [] = []
  asked handler (n ∷ ns) = n ∷ (if handler n then [] else asked handler ns)

  module _ (handler : Node H W → Bool) where
    -- A search that looks through a list of nodes.
    record LooksThrough (r : Search H W) (s : State H W) (ns : List (Node H W)) : Type 0 where
      found : r.found ≡ first handler ns
      visited : r.state.visited ≡ s.visited ++ asked handler ns

    first-append :
        (ms ns : List (Node H W))
        → first handler (ms ++ ns)
          ≡ (elim (first handler ms) [ none ↦ first handler ns | some n ↦ some n ])
    unfolding first
    first-append [] ns = refl
    first-append (m ∷ ms) ns = ground (arith, first-append ms ns)

    asked-append :
        (ms ns : List (Node H W))
        → asked handler (ms ++ ns) ≡ (elim (first handler ms) [
          | none ↦ asked handler ms ++ asked handler ns
          | some n ↦ asked handler ms
        ])
    unfolding first asked
    asked-append [] ns = refl
    asked-append (m ∷ ms) ns = ground (arith, asked-append ms ns)

    LooksThrough-at_end :
        (n : Node H W) (s : State H W) → LooksThrough (at_end handler n s) s (n ∷ [])
    unfolding at_end first asked
    LooksThrough-at_end n s = elim (Bool-cases (handler n)) [
      | inl e ↦ record { found = rw e refl; visited = rw e refl }
      | inr e ↦ record { found = rw e refl; visited = rw e refl }
    ]

    LooksThrough-nil : (s : State H W) → LooksThrough (record { found = none; state = s }) s []
    unfolding first asked
    LooksThrough-nil s = record { found = refl; visited = sym (append-nil s.visited) }

    LooksThrough-or_else :
        (r : Search H W) (s : State H W) (next : State H W → Search H W) (ms ns : List (Node H W))
        → LooksThrough r s ms
        → ((s' : State H W) → LooksThrough (next s') s' ns)
        → LooksThrough (or_else r next) s (ms ++ ns)
    LooksThrough-or_else r s next ms ns here later = elim (Option-cases r.found) [
      | inl e ↦
          let missed : first handler ms ≡ none = sym here.found ∙ e in
          record {
            found = rw e ((later r.state).found ∙ sym (first-append ms ns ∙ rw missed refl));
            visited = rw e (
                (later r.state).visited
                ∙ rw (here.visited, append_assoc)
                    (ap (λ xs. s.visited ++ xs) (sym (asked-append ms ns ∙ rw missed refl))));
          }
      | inr (n, e) ↦
          let hit : first handler ms ≡ some n = sym here.found ∙ e in
          record {
            found = rw e (sym (first-append ms ns ∙ rw hit refl));
            visited = rw e (
                here.visited ∙ ap (λ xs. s.visited ++ xs) (sym (asked-append ms ns ∙ rw hit refl)));
          }
    ]

    LooksThrough-try_binding :
        (go : Step H W) (name value : Text) (n : Node H W) (s : State H W) (ns : List (Node H W))
        → ((s' : State H W) → LooksThrough (go n s') s' ns)
        → LooksThrough (try_binding go name value n s) s ns
    unfolding try_binding
    LooksThrough-try_binding go name value n s ns ih =
        let bound : State H W = record s { params = assign name value s.params } in
        let r = go n bound in
        elim (Option-cases r.found) [
          | inl e ↦ record {
            found = rw (e, try_binding) (sym e ∙ (ih bound).found);
            visited = rw (e, try_binding) (ih bound).visited;
          }
          | inr (m, e) ↦ record {
            found = rw (e, try_binding) (ih bound).found;
            visited = rw (e, try_binding) (ih bound).visited;
          }
        ]

    module _ (re : Regex) (go : Step H W) (onward : Node H W → List (Node H W))
        (ih : (n : Node H W) (s : State H W) → LooksThrough (go n s) s (onward n)) where
      LooksThrough-try_static :
          (o : Option (Node H W)) (s : State H W)
          → LooksThrough (try_static go o s) s (static_candidates onward o)
      unfolding try_static
      LooksThrough-try_static none s = LooksThrough-nil s
      LooksThrough-try_static (some n) s = ih n s

      LooksThrough-try_params :
          (seg : Text) (ns : Nodes H W) (s : State H W)
          → LooksThrough (try_params go seg ns s) s (param_candidates onward ns)
      unfolding try_params param_candidates
      LooksThrough-try_params seg nil s = LooksThrough-nil s
      LooksThrough-try_params seg (cons n ns) s =
          LooksThrough-or_else (try_binding go (label n).param_name seg n s) s
            (λ s'. try_params go seg ns s') (onward n) (param_candidates onward ns)
            (LooksThrough-try_binding go (label n).param_name seg n s (onward n) (ih n))
            (LooksThrough-try_params seg ns)

      LooksThrough-try_regexes :
          (seg : Text) (ns : Nodes H W) (s : State H W)
          → LooksThrough (try_regexes re go seg ns s) s (regex_candidates re onward seg ns)
      unfolding try_regexes regex_candidates
      LooksThrough-try_regexes seg nil s = LooksThrough-nil s
      LooksThrough-try_regexes seg (cons n ns) s =
          elim (Bool-cases (re.regex_match (label n).regex seg)) [
            | inl e ↦ rw e (
                LooksThrough-or_else (try_binding go (label n).param_name seg n s) s
                  (λ s'. try_regexes re go seg ns s') (onward n) (regex_candidates re onward seg ns)
                  (LooksThrough-try_binding go (label n).param_name seg n s (onward n) (ih n))
                  (LooksThrough-try_regexes seg ns))
            | inr e ↦ rw e (LooksThrough-try_regexes seg ns s)
          ]

    LooksThrough-try_wildcard :
        (rest : Text) (w : Wildcard H W) (s : State H W)
        → LooksThrough (try_wildcard handler rest w s) s (wildcard_candidates w)
    unfolding try_wildcard
    LooksThrough-try_wildcard rest null_child s = LooksThrough-nil s
    LooksThrough-try_wildcard rest (child n) s =
        LooksThrough-try_binding (at_end handler) (codes "*") rest n s (n ∷ [])
          (LooksThrough-at_end n)

    match_segment-LooksThrough :
        (re : Regex) (seg : Text) (segments : List Text)
        → ((n : Node H W) (s : State H W)
            → LooksThrough (match_nodes re handler segments n s) s (candidates re segments n))
        → (n : Node H W) (s : State H W)
        → LooksThrough
            (match_nodes re handler (seg ∷ segments) n s)
            s
            (candidates re (seg ∷ segments) n)
    unfolding match_nodes match_segment candidates
    match_segment-LooksThrough re seg segments ih (node l p statics params regexes wildcard) s =
        LooksThrough-or_else _ s _ _ _ (LooksThrough-try_static re go onward ih _ s) (λ s₁.
          LooksThrough-or_else _ s₁ _ _ _ (LooksThrough-try_regexes re go onward ih seg regexes s₁)
            (λ s₂.
              LooksThrough-or_else _ s₂ _ _ _
                (LooksThrough-try_params re go onward ih seg params s₂)
                (λ s₃. LooksThrough-try_wildcard (rest_from [] (seg ∷ segments)) wildcard s₃)))
      where
        go : Step H W
        go = match_nodes re handler segments

        onward : Node H W → List (Node H W)
        onward = candidates re segments

    match_nodes-LooksThrough :
        (re : Regex) (segments : List Text) (n : Node H W) (s : State H W)
        → LooksThrough (match_nodes re handler segments n s) s (candidates re segments n)
    match_nodes-LooksThrough re [] n s = unfold match_nodes candidates in LooksThrough-at_end n s
    match_nodes-LooksThrough re (seg ∷ segments) n s =
        match_segment-LooksThrough re seg segments (match_nodes-LooksThrough re segments) n s

    -- The search finds the first candidate that its handler accepts, and asks the handler at the
    -- candidates up to that one, in their order.
    pub match_nodes-first :
        (re : Regex) (segments : List Text) (n : Node H W) (s : State H W)
        → ((match_nodes re handler segments n s).found ≡ first handler (candidates re segments n))
          × ((match_nodes re handler segments n s).state.visited
              ≡ s.visited ++ asked handler (candidates re segments n))
    match_nodes-first re segments n s =
        let l = match_nodes-LooksThrough re segments n s in (l.found, l.visited)
