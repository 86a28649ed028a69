-- ===== src/Server/Router/Insert/Static.antt =====
-- What the insertion of a route does to the nodes that static segments lead to.
use httplib.Base.{
  ◌≡◌, ◌≢◌, refl, sym, ap, subst, ◌∙◌, Bool, true, false, Option, none, some, List, [], ◌∷◌, ◌++◌,
  Text, codes, if◌then◌else◌, eq_text, eq_text_refl, eq_of_eq_text, eq_text_ne, null, All, inl, inr,
  Bool-cases,
}
use httplib.Server.Router.{
  Label, Payload, Node, node, Table, none_left, entry, Nodes, Wildcard, payload, leaf, Regex,
}
use httplib.Server.Router.Insert.{
  is_param, is_regex, static_label, insert_table, insert_segment, insert,
}
use httplib.Server.Router.Match.{find_static}
use httplib.Server.Router.Match.Candidates.{
  candidates, regex_candidates, param_candidates, wildcard_candidates,
}

-- A segment that stands for itself.
pub record IsStatic (seg : Text) : Type 0 where
  pub not_param : is_param seg ≡ false
  pub not_regex : is_regex seg ≡ false
  pub not_wildcard : eq_text seg (codes "*") ≡ false

module _ {H W : Type 0} where
  abbrev pub no_payload : Payload H W
  no_payload = record { handlers = []; ws_handler = none }

  -- What the node at the end of static segments carries.
  unfoldable pub static_payload : List Text → Node H W → Payload H W
  unfolding find_static
  static_payload [] n = payload n
  static_payload (seg ∷ segments) (node l p statics params regexes wildcard) =
      elim (find_static seg statics) [ none ↦ no_payload | some n ↦ static_payload segments n ]

  abbrev pub or_leaf : Text → Option (Node H W) → Node H W
  or_leaf seg none = leaf (static_label seg)
  or_leaf seg (some n) = n

  module _ (go : Node H W → Node H W × Bool) where
    pub find_static-insert_table :
        (seg : Text) (t : Table H W)
        → find_static seg (insert_table go seg t).0 ≡ some (go (or_leaf seg (find_static seg t))).0
    unfolding find_static insert_table
    find_static-insert_table seg none_left = rw (eq_text_refl seg) refl
    find_static-insert_table seg (entry k n t) = elim (Bool-cases (eq_text k seg)) [
      | inl e ↦ rw e (rw e refl)
      | inr e ↦ rw e (rw e (find_static-insert_table seg t))
    ]

    insert_table-done :
        (seg : Text) (t : Table H W)
        → (insert_table go seg t).1 ≡ (go (or_leaf seg (find_static seg t))).1
    unfolding find_static insert_table
    insert_table-done seg none_left = refl
    insert_table-done seg (entry k n t) = elim (Bool-cases (eq_text k seg)) [
      | inl e ↦ rw e refl
      | inr e ↦ rw e (insert_table-done seg t)
    ]

    pub find_static-insert_table_ne :
        (seg other : Text) (t : Table H W)
        → seg ≢ other
        → find_static other (insert_table go seg t).0 ≡ find_static other t
    unfolding find_static insert_table
    find_static-insert_table_ne seg other none_left h = rw (eq_text_ne seg other h) refl
    find_static-insert_table_ne seg other (entry k n t) h = elim (Bool-cases (eq_text k seg)) [
      | inl e ↦ rw (e, eq_text_ne k other (λ q. h (sym (eq_of_eq_text k seg e) ∙ q))) refl
      | inr e ↦ rw e (
          ap (λ x. if eq_text k other then some n else x)
            (find_static-insert_table_ne seg other t h))
    ]

  -- What a level of `insert` does at a static segment.
  pub insert_segment-static :
      (re : Regex) (go : Node H W → Node H W × Bool) (seg : Text) (last : Bool)
      → IsStatic seg
      → (l : Label) (p : Payload H W) (statics : Table H W) (params regexes : Nodes H W)
        (wildcard : Wildcard H W)
      → insert_segment re go seg last (node l p statics params regexes wildcard) ≡ (
        node l p (insert_table go seg statics).0 params regexes wildcard,
        (insert_table go seg statics).1,
      )
  unfolding insert_segment
  insert_segment-static re go seg true st l p statics params regexes wildcard =
      rw (st.not_wildcard, st.not_param, st.not_regex) refl
  insert_segment-static re go seg false st l p statics params regexes wildcard =
      rw (st.not_param, st.not_regex) refl

  static_payload-leaf :
      (segments : List Text) (l : Label)
      → static_payload segments (leaf {H = H} {W = W} l) ≡ no_payload
  unfolding static_payload
  static_payload-leaf [] l = refl
  static_payload-leaf (seg ∷ segments) l = refl

  -- The first candidate of a tree.
  pub record LeadsTo (re : Regex) (segments : List Text) (n : Node H W) (p : Payload H W)
      : Type 0 where
    pub node_found : Node H W
    pub others : List (Node H W)
    pub first_candidate : candidates re segments n ≡ node_found ∷ others
    pub carries : payload node_found ≡ p

  pub LeadsTo-static :
      (re : Regex) (seg : Text) (segments : List Text) (l : Label) (p : Payload H W)
      (statics : Table H W) (params regexes : Nodes H W) (wildcard : Wildcard H W) (c : Node H W)
      {q : Payload H W}
      → find_static seg statics ≡ some c
      → LeadsTo re segments c q
      → LeadsTo re (seg ∷ segments) (node l p statics params regexes wildcard) q
  unfolding candidates
  LeadsTo-static re seg segments l p statics params regexes wildcard c e d = record {
    node_found = d.node_found;
    others =
        d.others
        ++ (regex_candidates re (candidates re segments) seg regexes
            ++ (param_candidates (candidates re segments) params ++ wildcard_candidates wildcard));
    first_candidate = rw (e, d.first_candidate) refl;
    carries = d.carries;
  }

  pub static_payload-or_leaf :
      (seg : Text) (segments : List Text) (o : Option (Node H W))
      → static_payload segments (or_leaf seg o)
        ≡ (elim o [ none ↦ no_payload | some n ↦ static_payload segments n ])
  static_payload-or_leaf seg segments none = static_payload-leaf segments (static_label seg)
  static_payload-or_leaf seg segments (some n) = refl

  -- Inserting a route of static segments succeeds, and the path of the same segments then leads
  -- first of all to a node whose payload has been written to.
  pub insert-static :
      (re : Regex) (write : Payload H W → Payload H W) (segments : List Text) (n : Node H W)
      → All IsStatic segments
      → ((insert re write segments n).1 ≡ true)
        × LeadsTo re segments (insert re write segments n).0 (write (static_payload segments n))
  unfolding insert static_payload candidates
  insert-static re write [] (node l p statics params regexes wildcard) h =
      (refl, record { node_found = _; others = []; first_candidate = refl; carries = refl })
  insert-static re write (seg ∷ segments) (node l p statics params regexes wildcard) h =
      let go = insert re write segments in
      let c = or_leaf seg (find_static seg statics) in
      let ih = insert-static re write segments c h.1 in
      rw (insert_segment-static re go seg (null segments) h.0 l p statics params regexes wildcard) (
        insert_table-done go seg statics ∙ ih.0,
        subst
            (λ q.
              LeadsTo re (seg ∷ segments)
                (node l p (insert_table go seg statics).0 params regexes wildcard) (write q))
            (static_payload-or_leaf seg segments (find_static seg statics))
            (LeadsTo-static re seg segments l p (insert_table go seg statics).0 params regexes
              wildcard (go c).0 (find_static-insert_table go seg statics) ih.1),
      )
