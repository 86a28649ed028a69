-- ===== src/Server/Router/Insert.antt =====
-- `router_impl::insert` of lib/server/router_impl.cpp. The source returns a pointer into the tree
-- and writes through it; here the write is a function on the payload that the pointer's node has,
-- and the new tree is returned. The flag is false if `std::regex` threw: then nothing is written,
-- and the nodes that were made on the way stay.
pub mod Static
pub mod Keeps
use httplib.Base.{
  ℕ, suc, zero, ◌+◌, ◌-◌, Bool, true, false, ◌&&◌, ◌||◌, not, Option, none, some, List, [], ◌∷◌,
  Text, codes, ◌==◌, if◌then◌else◌, eq_text, starts_with, null, find, substr, length, drop, take,
}
use httplib.Server.Router.{
  NodeType, static_node, param_node, regex_node, wildcard_node, Label, Payload, Node, node, Table,
  none_left, entry, Nodes, nil, cons, Wildcard, null_child, child, label, leaf, Regex,
}

-- `seg.back() == c` of a text that is not empty.
unfoldable pub back_is : ℕ → Text → Bool
back_is c [] = false
back_is c (x ∷ []) = x == c
back_is c (x ∷ y ∷ s) = back_is c (y ∷ s)

unfoldable pub is_param : Text → Bool
is_param seg = not (null seg) && starts_with seg (codes ":")

unfoldable pub is_regex : Text → Bool
unfolding back_is
is_regex seg = not (null seg) && (starts_with seg (codes "{") && back_is b'}' seg)

abbrev pub static_label : Text → Label
static_label seg = record { key = seg; param_name = []; regex = []; type = static_node }

abbrev pub wildcard_label : Text → Label
wildcard_label seg = record { key = seg; param_name = []; regex = []; type = wildcard_node }

-- `seg.substr(1)`
abbrev pub param_label : Text → Label
param_label seg = record { key = seg; param_name = drop 1 seg; regex = []; type = param_node }

-- `inside.substr(0, pos)` and `inside.substr(pos + 1)`; with no colon `pos` is `npos`, and both are
-- the whole of `inside`.
abbrev pub regex_parts : Text → Option ℕ → Text × Text
regex_parts inside none = (inside, inside)
regex_parts inside (some pos) = (take pos inside, drop (pos + 1) inside)

unfoldable pub regex_label : Text → Label
regex_label seg =
    let inside : Text = substr seg 1 (length seg - 2) in
    let parts : Text × Text = regex_parts inside (find inside (codes ":")) in
    record { key = seg; param_name = parts.0; regex = parts.1; type = regex_node }

module _ {H W : Type 0} where
  -- `std::ranges::find_if` on the key, and the recursive call on what it finds or on the node that
  -- is pushed behind the others.
  unfoldable pub insert_nodes : (Node H W → Node H W × Bool) → Label → Nodes H W → Nodes H W × Bool
  insert_nodes go l nil = let r = go (leaf l) in (cons r.0 nil, r.1)
  insert_nodes go l (cons n ns) =
      let here = go n in
      let later = insert_nodes go l ns in
      if eq_text (label n).key l.key then (cons here.0 ns, here.1) else (cons n later.0, later.1)

  -- Whether a node of the key is there: no regular expression is compiled for it then.
  unfoldable pub has_key : Text → Nodes H W → Bool
  has_key key nil = false
  has_key key (cons n ns) =
      let later = has_key key ns in if eq_text (label n).key key then true else later

  -- `try_emplace`, and the recursive call on the entry.
  unfoldable pub insert_table : (Node H W → Node H W × Bool) → Text → Table H W → Table H W × Bool
  insert_table go seg none_left =
      let r = go (leaf (static_label seg)) in (entry seg r.0 none_left, r.1)
  insert_table go seg (entry k n t) =
      let here = go n in
      let later = insert_table go seg t in
      if eq_text k seg then (entry k here.0 t, here.1) else (entry k n later.0, later.1)

  abbrev pub insert_wildcard :
      (Node H W → Node H W × Bool) → Text → Wildcard H W → Wildcard H W × Bool
  insert_wildcard go seg null_child = let r = go (leaf (wildcard_label seg)) in (child r.0, r.1)
  insert_wildcard go seg (child n) = let r = go n in (child r.0, r.1)

  -- One level of `insert`: the recursive call is `go`, and `last` says that this is the last segment.
  unfoldable pub insert_segment :
      Regex → (Node H W → Node H W × Bool) → Text → Bool → Node H W → Node H W × Bool
  unfolding insert_nodes has_key insert_table is_param is_regex regex_label
  insert_segment re go seg last (node l p statics params regexes wildcard) =
      if last && eq_text seg (codes "*")
      then (let r = insert_wildcard go seg wildcard in (node l p statics params regexes r.0, r.1))
      else if is_param seg
      then (let r = insert_nodes go (param_label seg) params in
          (node l p statics r.0 regexes wildcard, r.1))
      else if is_regex seg
      then (if has_key seg regexes || re.compiles (regex_label seg).regex
          then (let r = insert_nodes go (regex_label seg) regexes in
              (node l p statics params r.0 wildcard, r.1))
          else (node l p statics params regexes wildcard, false))
      else (let r = insert_table go seg statics in (node l p r.0 params regexes wildcard, r.1))

  -- The segments are those from `index` on.
  unfoldable pub insert :
      Regex → (Payload H W → Payload H W) → List Text → Node H W → Node H W × Bool
  unfolding insert_segment
  insert re write [] (node l p statics params regexes wildcard) =
      (node l (write p) statics params regexes wildcard, true)
  insert re write (seg ∷ segments) n =
      insert_segment re (insert re write segments) seg (null segments) n
