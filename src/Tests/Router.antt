-- ===== src/Tests/Router.antt =====
-- A small tree of routes: what is found in it, and what is answered.
use httplib.Base.{
  ℕ, ◌≡◌, ◌≢◌, refl, Bool, true, false, Option, none, some, List, [], ◌∷◌, ◌++◌, Text, codes, All,
  ◌⊎◌, inl, inr, arith,
}
use httplib.Server.Response.{keep_alive}
use httplib.Server.Router.{
  Verb, get, other, Payload, Node, node, none_left, nil, null_child, param_node, payload, leaf,
  root_label,
}
use httplib.Server.Router.Insert.{insert}
use httplib.Server.Router.Insert.Static.{IsStatic, static_payload}
use httplib.Server.Router.Insert.Keeps.{insert-keeps}
use httplib.Server.Router.Match.{Params, match_nodes}
use httplib.Server.Router.Match.Candidates.{candidates, first, asked, match_nodes-first}
use httplib.Server.Router.Routing.{
  Routed, run_handler, respond, split_segments, has_method, start, proc_routing, pre_routing,
  set_http_handler_impl,
}
use httplib.Server.Router.Routing.Dispatch.{reached, proc_routing-found, pre_routing-proc_routing}
use httplib.Server.Router.Routing.Registration.{Registration, register_all, registered_route}
use httplib.Server.Router.Routing.Refusal.{HasNoHandler, NotFound, NotAllowed, proc_routing-answers}
use httplib.Tests.Trimming.{trimming}
use httplib.Tests.Parameters.{literal, two_reasons, names}

abbrev me : Registration ℕ
me = record { method = get; path = codes "/user/me"; handler = 1 }

abbrev by_id : Registration ℕ
by_id = record { method = other 3; path = codes "/user/:id"; handler = 2 }

abbrev empty_tree : Node ℕ ℕ
empty_tree = leaf root_label

abbrev tree : Node ℕ ℕ
tree = register_all literal trimming (me ∷ by_id ∷ []) empty_tree

abbrev route : Verb → Text → Routed ℕ ℕ
route = proc_routing names two_reasons (codes "httplib") literal trimming tree

binds_id : route (other 3) (codes "/user/7") ≡ run_handler 2 ((codes "id", codes "7") ∷ [])
unfolding proc_routing match_nodes httplib.Base.ends_with httplib.Util.Split.split
    httplib.Base.find_from set_http_handler_impl insert trimming httplib.Tests.Trimming.join
binds_id = refl

-- A path that a static node leads to is found there even if it has no handler for the method,
-- as the search goes on.
falls_back : route (other 3) (codes "/user/me") ≡ run_handler 2 ((codes "id", codes "me") ∷ [])
unfolding proc_routing match_nodes httplib.Base.ends_with httplib.Util.Split.split
    httplib.Base.find_from set_http_handler_impl insert trimming httplib.Tests.Trimming.join
falls_back = refl

me_IsStatic : All IsStatic (split_segments trimming me.path)
unfolding split_segments httplib.Base.ends_with httplib.Util.Split.split httplib.Base.find_from
    httplib.Server.Router.Insert.is_param trimming httplib.Tests.Trimming.join
    httplib.Server.Router.Insert.is_regex
me_IsStatic = (
  record { not_param = refl; not_regex = refl; not_wildcard = refl },
  (record { not_param = refl; not_regex = refl; not_wildcard = refl }, tt),
)

registered_route_example : (params : Params) × (route get (codes "/user/me") ≡ run_handler 1 params)
registered_route_example =
    registered_route literal trimming names two_reasons (codes "httplib") me empty_tree (by_id ∷ [])
      me_IsStatic (inl (λ e. cc), tt)

insert-keeps_example :
    static_payload (codes "user" ∷ []) (insert literal (λ p. p) (codes "*" ∷ []) tree).0
    ≡ static_payload (codes "user" ∷ []) tree
insert-keeps_example =
    insert-keeps literal (λ p. p) (codes "*" ∷ []) (codes "user" ∷ []) tree (λ e. cc)

user_7 : List Text
user_7 = codes "user" ∷ codes "7" ∷ []

match_nodes-first_example :
    ((match_nodes literal (has_method (other 3)) user_7 tree start).found
      ≡ first (has_method (other 3)) (candidates literal user_7 tree))
    × ((match_nodes literal (has_method (other 3)) user_7 tree start).state.visited
        ≡ [] ++ asked (has_method (other 3)) (candidates literal user_7 tree))
match_nodes-first_example = match_nodes-first (has_method (other 3)) literal user_7 tree start

abbrev id_node : Node ℕ ℕ
id_node =
    node (record { key = codes ":id"; param_name = codes "id"; regex = []; type = param_node })
      (record { handlers = (other 3, 2) ∷ []; ws_handler = none }) none_left nil nil null_child

proc_routing-found_example :
    (params : Params) × (route (other 3) (codes "/user/7") ≡ run_handler 2 params)
unfolding first candidates split_segments httplib.Base.ends_with httplib.Util.Split.split
    httplib.Base.find_from set_http_handler_impl insert trimming httplib.Tests.Trimming.join
    has_method
proc_routing-found_example =
    proc_routing-found names two_reasons (codes "httplib") literal trimming tree (other 3)
      (codes "/user/7") id_node 2 refl refl

proc_routing-answers_example :
    (All HasNoHandler (reached literal trimming tree (codes "/user/7"))
      × NotFound ℕ names two_reasons (codes "httplib") literal trimming tree get (codes "/user/7"))
    ⊎ NotAllowed ℕ names two_reasons (codes "httplib") literal trimming tree get (codes "/user/7")
unfolding first candidates split_segments httplib.Base.ends_with httplib.Util.Split.split
    httplib.Base.find_from set_http_handler_impl insert trimming httplib.Tests.Trimming.join
    has_method
proc_routing-answers_example =
    proc_routing-answers ℕ names two_reasons (codes "httplib") literal trimming tree get
      (codes "/user/7") refl

pre_routing-proc_routing_example :
    pre_routing names two_reasons
      (codes "httplib")
      literal
      trimming
      tree
      (other 3)
      (codes "/user/7")
    ≡ (elim (route (other 3) (codes "/user/7")) [
      | run_handler h params ↦ (true, [])
      | respond calls ↦ (false, keep_alive false ∷ calls)
    ])
pre_routing-proc_routing_example =
    pre_routing-proc_routing names two_reasons (codes "httplib") literal trimming tree 3
      (codes "/user/7")
