-- ===== src/Server/Router.antt =====
-- lib/server/router_impl.h: the tree of routes, a `Node` for each segment. What a node carries, its
-- handlers, is a record apart from the tree, so that operations on it stay short. `std::regex` is
-- a parameter of the operations (`Regex`).
pub mod Insert
pub mod Match
pub mod Routing
use httplib.Base.{
  ℕ, Bool, true, false, Option, none, some, List, [], ◌∷◌, Text, ◌==◌, if◌then◌else◌,
}

-- `boost::beast::http::verb`: the methods that the router tells apart, and the others by number.
pub data Verb : Type 0 where
  get head trace connect options : Verb
  other : ℕ → Verb

pub data NodeType : Type 0 where
  static_node param_node regex_node wildcard_node : NodeType

pub record Label : Type 0 where
  pub key : Text
  pub param_name : Text
  -- the text that `regex` was made from
  pub regex : Text
  pub type : NodeType

-- `handlers` and `ws_handler`. An `unordered_map` is an association list with one entry for a key.
pub record Payload (H W : Type 0) : Type 0 where
  pub handlers : List (Verb × H)
  pub ws_handler : Option W

mutual
  pub data Node (H W : Type 0) : Type 0 where
    node : Label → Payload H W → Table H W → Nodes H W → Nodes H W → Wildcard H W → Node H W

  -- `static_children`
  pub data Table (H W : Type 0) : Type 0 where
    none_left : Table H W
    entry : Text → Node H W → Table H W → Table H W

  -- `param_children` and `regex_children`
  pub data Nodes (H W : Type 0) : Type 0 where
    nil : Nodes H W
    cons : Node H W → Nodes H W → Nodes H W

  -- `wildcard_children`, null or a node
  pub data Wildcard (H W : Type 0) : Type 0 where
    null_child : Wildcard H W
    child : Node H W → Wildcard H W

module _ {H W : Type 0} where
  abbrev pub label : Node H W → Label
  label (node l p s m r w) = l

  abbrev pub payload : Node H W → Payload H W
  payload (node l p s m r w) = p

  -- A node without children, as `std::make_unique<Node>()` and the assignments behind it make it.
  abbrev pub leaf : Label → Node H W
  leaf l = node l (record { handlers = []; ws_handler = none }) none_left nil nil null_child

abbrev pub root_label : Label
root_label = record { key = []; param_name = []; regex = []; type = static_node }

-- What the code relies on of `std::regex`: a pattern compiles or its constructor throws, and
-- `std::regex_match` is a test of a text against a pattern that compiles.
pub record Regex : Type 0 where
  pub compiles : Text → Bool
  pub regex_match : Text → Text → Bool
