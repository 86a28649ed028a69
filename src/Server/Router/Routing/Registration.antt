-- ===== src/Server/Router/Routing/Registration.antt =====
-- A handler that is registered for a path of static segments takes the requests for it, whatever
-- else is registered.
use httplib.Base.{
  ◌≡◌, ◌≢◌, ◌⊎◌, refl, sym, ap, subst, ◌∙◌, Option, some, List, [], ◌∷◌, Text, All, inl, inr,
  Option-cases,
}
use native.Mathlib.Decide.{ℕ_discrete}
use httplib.Util.Trim.{Trimming}
use httplib.Server.Response.{Format}
use httplib.Server.Router.{Verb, Payload, Node, node, payload, Regex}
use httplib.Server.Router.Insert.{insert}
use httplib.Server.Router.Insert.Static.{IsStatic, static_payload, LeadsTo, LeadsTo-static}
use httplib.Server.Router.Insert.Keeps.{insert-keeps, insert-written}
use httplib.Server.Router.Match.{Params, find_static}
use httplib.Server.Router.Match.Candidates.{candidates}
use httplib.Server.Router.Routing.{
  split_segments, find_handler, assign_handler, Names, set_http_handler_impl, run_handler,
  proc_routing,
}
use httplib.Server.Router.Routing.Handlers.{
  find_handler-assign_handler, find_handler-assign_handler_ne, first-found,
}
use httplib.Server.Router.Routing.Dispatch.{proc_routing-found}

module _ {H W : Type 0} where
  -- Static segments under which a handler is registered lead first of all to its node.
  static-LeadsTo :
      (re : Regex) (segments : List Text) (n : Node H W) (method : Verb) (h : H)
      → find_handler method (static_payload segments n).handlers ≡ some h
      → LeadsTo re segments n (static_payload segments n)
  unfolding static_payload
  static-LeadsTo re [] (node l p statics params regexes wildcard) method h e =
      unfold candidates in
      record { node_found = _; others = []; first_candidate = refl; carries = refl }
  static-LeadsTo re (seg ∷ segments) (node l p statics params regexes wildcard) method h e =
      elim (Option-cases (find_static seg statics)) [
        | inl k ↦ absurd (no_handler (rw (k, static_payload) at e))
        | inr (c, k) ↦
            rw (k, static_payload)
              (LeadsTo-static re seg segments l p statics params regexes wildcard c k
                (static-LeadsTo re segments c method h (rw (k, static_payload) at e)))
      ]
    where
      no_handler : find_handler {H = H} method [] ≡ some h → ⊥
      no_handler q = unfold find_handler in cc q

-- One call of `set_http_handler`.
pub record Registration (H : Type 0) : Type 0 where
  pub method : Verb
  pub path : Text
  pub handler : H

module _ {H : Type 0} (boost : Trimming) where
  -- The registrations are for different methods or different segments.
  abbrev pub Differs : Registration H → Registration H → Type 0
  Differs r q = (r.method ≢ q.method) ⊎ (split_segments boost r.path ≢ split_segments boost q.path)

module _ {H W : Type 0} (re : Regex) (boost : Trimming) where
  abbrev pub register : Registration H → Node H W → Node H W
  register r root = (set_http_handler_impl re boost r.method r.path r.handler root).0

  abbrev pub register_all : List (Registration H) → Node H W → Node H W
  register_all [] root = root
  register_all (r ∷ rs) root = register_all rs (register r root)

  -- The handler that the static nodes of a registration's path carry for its method.
  abbrev registered : Registration H → Node H W → Option H
  registered r root =
      find_handler r.method (static_payload (split_segments boost r.path) root).handlers

  register-registered :
      (r : Registration H) (root : Node H W)
      → All IsStatic (split_segments boost r.path)
      → registered r (register r root) ≡ some r.handler
  unfolding set_http_handler_impl
  register-registered r root h =
      ap (λ (p : Payload H W). find_handler r.method p.handlers)
        (insert-written re _ (split_segments boost r.path) root h)
      ∙ find_handler-assign_handler r.method r.handler _

  register-keeps_segments :
      (r q : Registration H) (root : Node H W)
      → split_segments boost q.path ≢ split_segments boost r.path
      → registered r (register q root) ≡ registered r root
  unfolding set_http_handler_impl
  register-keeps_segments r q root h =
      ap (λ (p : Payload H W). find_handler r.method p.handlers)
        (insert-keeps re _ (split_segments boost q.path) (split_segments boost r.path) root h)

  register-keeps_method :
      (r q : Registration H) (root : Node H W)
      → All IsStatic (split_segments boost r.path)
      → split_segments boost q.path ≡ split_segments boost r.path
      → q.method ≢ r.method
      → registered r (register q root) ≡ registered r root
  unfolding set_http_handler_impl
  register-keeps_method r q root st same h =
      subst
        (λ segs.
          find_handler r.method
            (static_payload (split_segments boost r.path)
              (insert re (λ p. record p { handlers = assign_handler q.method q.handler p.handlers })
                segs root).0).handlers
          ≡ registered r root)
        (sym same)
        (ap (λ (p : Payload H W). find_handler r.method p.handlers)
            (insert-written re _ (split_segments boost r.path) root st)
          ∙ find_handler-assign_handler_ne q.method r.method q.handler _ h)

  register-keeps :
      (r q : Registration H) (root : Node H W)
      → All IsStatic (split_segments boost r.path)
      → Differs boost q r
      → registered r (register q root) ≡ registered r root
  register-keeps r q root st d =
      elim (list_dec (split_segments boost q.path) (split_segments boost r.path)) [
        | yes same ↦ elim d [
          | inl h ↦ register-keeps_method r q root st same h
          | inr h ↦ absurd (h same)
        ]
        | no h ↦ register-keeps_segments r q root h
      ]
    where
      list_dec : Discrete (List Text)
      list_dec = hlevel ℕ_discrete

  register_all-keeps :
      (r : Registration H) (later : List (Registration H)) (root : Node H W)
      → All IsStatic (split_segments boost r.path)
      → All (λ q. Differs boost q r) later
      → registered r (register_all later root) ≡ registered r root
  register_all-keeps r [] root st d = refl
  register_all-keeps r (q ∷ later) root st d =
      register_all-keeps r later (register q root) st d.1 ∙ register-keeps r q root st d.0

  -- A handler that is registered for a path whose segments are all static is run for every
  -- request for that path with its method, with whatever routes the tree held before and whatever
  -- is registered later for other methods or other segments.
  pub registered_route :
      {J : Type 0} (names : Names) (format : Format) (server : Text) (r : Registration H)
      (root : Node H W) (later : List (Registration H))
      → All IsStatic (split_segments boost r.path)
      → All (λ q. Differs boost q r) later
      → (params : Params) × (proc_routing {J = J} names format server re boost
            (register_all later (register r root))
            r.method
            r.path
          ≡ run_handler r.handler params)
  registered_route names format server r root later st d =
      let tree = register_all later (register r root) in
      let there : registered r tree ≡ some r.handler =
        register_all-keeps r later (register r root) st d ∙ register-registered r root st in
      let lead = static-LeadsTo re (split_segments boost r.path) tree r.method r.handler there in
      let carried : find_handler r.method (payload lead.node_found).handlers ≡ some r.handler =
        ap (λ (p : Payload H W). find_handler r.method p.handlers) lead.carries ∙ there in
      proc_routing-found names format server re boost tree r.method r.path lead.node_found r.handler
        (first-found r.method (candidates re (split_segments boost r.path) tree) lead.node_found
          lead.others r.handler lead.first_candidate carried)
        carried
