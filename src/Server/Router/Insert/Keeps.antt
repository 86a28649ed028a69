-- ===== src/Server/Router/Insert/Keeps.antt =====
-- What the insertion of a route (`router_impl::insert` of lib/server/router_impl.cpp) leaves as it was,
-- and what it writes.
use httplib.Base.{
  ◌≡◌, ◌≢◌, refl, ap, ◌∙◌, Bool, true, false, ◌&&◌, ◌||◌, ◌⊎◌, Option, none, some, List, [], ◌∷◌,
  Text, codes, eq_text, eq_of_eq_text, ne_of_eq_text, null, All, inl, inr, Bool-cases,
}
use httplib.Server.Router.{Label, Payload, Node, node, Table, Nodes, Wildcard, Regex}
use httplib.Server.Router.Insert.{
  has_key, param_label, regex_label, insert_nodes, insert_wildcard, is_param, is_regex,
  insert_table, insert_segment, insert,
}
use httplib.Server.Router.Match.{find_static}
use httplib.Server.Router.Insert.Static.{
  or_leaf, find_static-insert_table, find_static-insert_table_ne, static_payload-or_leaf,
  insert_segment-static, static_payload, no_payload, IsStatic,
}

module _ {H W : Type 0} where
  -- Whatever the segment, a level of `insert` leaves the label and the payload of its node, and its
  -- static children but for an insertion of the segment.
  record Keeps (p : Payload H W) (go : Node H W → Node H W × Bool) (seg : Text)
      (statics : Table H W) (n : Node H W) : Type 0 where
    l : Label
    statics' : Table H W
    params : Nodes H W
    regexes : Nodes H W
    wildcard : Wildcard H W
    shape : n ≡ node l p statics' params regexes wildcard
    children : (statics' ≡ statics) ⊎ (statics' ≡ (insert_table go seg statics).0)

  Keeps-static :
      {p : Payload H W} {go : Node H W → Node H W × Bool} {seg : Text} {statics : Table H W}
      {n : Node H W} (l : Label) (params regexes : Nodes H W) (wildcard : Wildcard H W)
      → n ≡ node l p statics params regexes wildcard
      → Keeps p go seg statics n
  Keeps-static {statics = t} l params regexes wildcard e = record {
    l = l;
    statics' = t;
    params = params;
    regexes = regexes;
    wildcard = wildcard;
    shape = e;
    children = inl refl;
  }

  insert_segment-Keeps :
      (re : Regex) (go : Node H W → Node H W × Bool) (seg : Text) (last : Bool) (l : Label)
      (p : Payload H W) (statics : Table H W) (params regexes : Nodes H W) (wildcard : Wildcard H W)
      → Keeps p go seg statics
          (insert_segment re go seg last (node l p statics params regexes wildcard)).0
  unfolding insert_segment
  insert_segment-Keeps re go seg last l p statics params regexes wildcard =
      elim (Bool-cases (last && eq_text seg (codes "*"))) [
        | inl e ↦ Keeps-static l params regexes (insert_wildcard go seg wildcard).0 (rw e refl)
        | inr e ↦ elim (Bool-cases (is_param seg)) [
          | inl f ↦
              Keeps-static l (insert_nodes go (param_label seg) params).0 regexes wildcard
                (rw (e, f) refl)
          | inr f ↦ elim (Bool-cases (is_regex seg)) [
            | inl g ↦
                elim (Bool-cases (has_key seg regexes || re.compiles (regex_label seg).regex)) [
                  | inl k ↦
                      Keeps-static l params (insert_nodes go (regex_label seg) regexes).0 wildcard
                        (rw (e, f, g, k) refl)
                  | inr k ↦ Keeps-static l params regexes wildcard (rw (e, f, g, k) refl)
                ]
            | inr g ↦ record {
              l = l;
              statics' = (insert_table go seg statics).0;
              params = params;
              regexes = regexes;
              wildcard = wildcard;
              shape = rw (e, f, g) refl;
              children = inr refl;
            }
          ]
        ]
      ]

  abbrev payload_below : List Text → Option (Node H W) → Payload H W
  payload_below segments none = no_payload
  payload_below segments (some n) = static_payload segments n

  -- The insertion of a route, of whatever segments, changes nothing of what a different path of
  -- static nodes carries.
  pub insert-keeps :
      (re : Regex) (write : Payload H W → Payload H W) (segments path : List Text) (n : Node H W)
      → segments ≢ path
      → static_payload path (insert re write segments n).0 ≡ static_payload path n
  unfolding insert static_payload
  insert-keeps re write [] [] n h = absurd (h refl)
  insert-keeps re write [] (o ∷ path) (node l p statics params regexes wildcard) h = refl
  insert-keeps re write (seg ∷ segments) [] (node l p statics params regexes wildcard) h =
      rw
        (insert_segment-Keeps re (insert re write segments) seg (null segments) l p statics params
          regexes wildcard).shape
        refl
  insert-keeps re write (seg ∷ segments) (o ∷ path) (node l p statics params regexes wildcard) h =
      let go = insert re write segments in
      let k = insert_segment-Keeps re go seg (null segments) l p statics params regexes wildcard in
      rw k.shape (elim k.children [
        | inl same ↦ ap (λ t. payload_below path (find_static o t)) same
        | inr inserted ↦
            ap (λ t. payload_below path (find_static o t)) inserted
            ∙ below (eq_text seg o) refl (λ (e : segments ≢ path).
              insert-keeps re write segments path (or_leaf seg (find_static seg statics)) e)
      ])
    where
      below :
          (b : Bool)
          → eq_text seg o ≡ b
          → ((segments ≢ path)
              → static_payload path
                  (insert re write segments (or_leaf seg (find_static seg statics))).0
                ≡ static_payload path (or_leaf seg (find_static seg statics)))
          → payload_below path
              (find_static o (insert_table (insert re write segments) seg statics).0)
            ≡ payload_below path (find_static o statics)
      below true e ih =
          let q : seg ≡ o = eq_of_eq_text seg o e in
          rw (← q) (
            ap (payload_below path)
              (find_static-insert_table (insert re write segments) seg statics)
            ∙ ih (λ r. h (cc))
            ∙ static_payload-or_leaf seg path (find_static seg statics))
      below false e ih = ap (payload_below path) (
          find_static-insert_table_ne (insert re write segments) seg o statics
            (ne_of_eq_text seg o e))

  -- The path of the inserted segments itself carries what was written.
  pub insert-written :
      (re : Regex) (write : Payload H W → Payload H W) (segments : List Text) (n : Node H W)
      → All IsStatic segments
      → static_payload segments (insert re write segments n).0 ≡ write (static_payload segments n)
  unfolding insert static_payload
  insert-written re write [] (node l p statics params regexes wildcard) h = refl
  insert-written re write (seg ∷ segments) (node l p statics params regexes wildcard) h =
      let go = insert re write segments in
      rw (insert_segment-static re go seg (null segments) h.0 l p statics params regexes wildcard) (
        ap (payload_below segments) (find_static-insert_table go seg statics)
        ∙ insert-written re write segments (or_leaf seg (find_static seg statics)) h.1
        ∙ ap write (static_payload-or_leaf seg segments (find_static seg statics)))
