-- ===== src/Server/Session/Answers.antt =====
-- What `http_task` (lib/server/session.cpp) does with a request that the router refuses before its
-- body is read, and with one whose handler throws.
use httplib.Base.{
  ◌≡◌, ◌≢◌, refl, ap, ◌∙◌, Bool, true, false, Option, none, some, List, [], ◌∷◌, ◌++◌, Text,
  if◌then◌else◌, inl, inr, Bool-cases, Option-cases,
}
use httplib.Util.Trim.{Trimming}
use httplib.Server.Response.{
  Calls, keep_alive, Format, set_error_content, set_string_content, set_empty_content,
  reset_content,
}
use httplib.Server.Response.Effects.{Message, replay}
use httplib.Server.Router.{Verb, get, head, trace, connect, options, other, Node, Regex}
use httplib.Server.Router.Routing.{Names, pre_routing, pre_routing_search, refusal, found_handler}
use httplib.Server.Session.{
  Event, runs_pre, runs_post, read_body, Header, Writes, Thrown, exception, unknown, Ran, Exchange,
  Ending, waiting, ended, fresh, caught, try_then, run_post, handle, answer, respond_to,
  async_write, run_proc, outgoing, framed, encoded, continue_response, is_head,
}

module _ {J : Type 0} where
  -- A call that cannot make the connection stay.
  abbrev pub Closes : Calls J → Type 0
  Closes calls = (m : Message J) → m.keeps_alive ≡ false → (replay m calls).keeps_alive ≡ false

  caught-keeps_alive : (t : Thrown) (m : Message J) → (caught t m).keeps_alive ≡ m.keeps_alive
  unfolding caught set_string_content reset_content
  caught-keeps_alive (exception what) m = refl
  caught-keeps_alive unknown m = refl

  run_post-Closes :
      (x : Exchange J) (m : Message J)
      → Closes x.post.calls
      → m.keeps_alive ≡ false
      → (m' : Message J) × (run_post x m ≡ (runs_post ∷ [], some m')) × (m'.keeps_alive ≡ false)
  unfolding run_post
  run_post-Closes x m c k = elim (Option-cases x.post.thrown) [
    | inl e ↦ (replay m x.post.calls, rw (e, run_post) refl, c m k)
    | inr (t, e) ↦ (
      caught t (replay m x.post.calls),
      rw (e, run_post) refl,
      caught-keeps_alive t (replay m x.post.calls) ∙ c m k,
    )
  ]

module _ {J H W : Type 0} (names : Names) (format : Format) (server : Text) (re : Regex)
    (boost : Trimming) (root : Node H W) where
  refusal-keeps_alive :
      (allows : List Text) (m : Message J)
      → (replay m (refusal names format server allows)).keeps_alive ≡ m.keeps_alive
  unfolding refusal set_error_content set_string_content reset_content
  refusal-keeps_alive [] m = refl
  refusal-keeps_alive (a ∷ allows) m = refl

  abbrev Shut : Bool × Calls J → Type 0
  Shut r = (m : Message J) → r.0 ≡ false → (replay m r.1).keeps_alive ≡ false

  pre_routing_search-Shut :
      (method : Verb) (path : Text)
      → Shut (pre_routing_search names format server re boost root method path)
  unfolding pre_routing_search
  pre_routing_search-Shut method path = by_handler (found_handler method _) _
    where
      by_handler :
          (o : Option H) (allows : List Text)
          → Shut (elim o as (λ x. Bool × Calls J) [
            | some h ↦ (true, [])
            | none ↦ (false, keep_alive false ∷ refusal names format server allows)
          ])
      by_handler (some h) allows m e = cc
      by_handler none allows m e = refusal-keeps_alive allows (record m { keeps_alive = false })

  pre_routing-Shut :
      (method : Verb) (path : Text)
      → Shut (pre_routing names format server re boost root method path)
  unfolding pre_routing
  pre_routing-Shut get path m e = cc
  pre_routing-Shut head path m e = cc
  pre_routing-Shut trace path m e = cc
  pre_routing-Shut connect path m e = cc
  pre_routing-Shut options path m e = cc
  pre_routing-Shut (other n) path m e = pre_routing_search-Shut (other n) path m e

  module _ (prepare_payload : Message J → Message J) where
    answer-closes :
        (h : Header) (x : Exchange J) (m : Message J)
        → m.keeps_alive ≡ false
        → (answer prepare_payload h x m).1 ≢ none
    unfolding answer
    answer-closes h x m k = by_result m.keeps_alive k (async_write prepare_payload h m x.writes)
      where
        by_result :
            (b : Bool)
            → b ≡ false
            → (w : List Event × Option Bool)
            → (elim w.1 as (λ o. List Event × Option Ending) [
              | none ↦ (w.0, some waiting)
              | some false ↦ (w.0, some ended)
              | some true ↦
                  if b then (w.0, none) else (w.0 ++ httplib.Server.Session.close ∷ [], some ended)
            ]).1
              ≢ none
        by_result true q w e = cc
        by_result false q (es, none) e = cc
        by_result false q (es, some false) e = cc
        by_result false q (es, some true) e = cc

    abbrev asked : Header → Text → Bool × Calls J
    asked h path = pre_routing names format server re boost root h.method path

    -- If the router refuses a request by `pre_routing`, then its body is not read, only the two calls
    -- of the router are made, and whether they throw or not the connection does not take another
    -- request, so that the bytes of the body are not read as one. The condition is that the handlers
    -- that run behind the routing do not ask for the connection to be kept.
    pub refused-Closes :
        (h : Header) (x : Exchange J) (path : Text)
        → x.accepts ≡ (asked h path).0
        → x.pre.calls ≡ (asked h path).1
        → x.pre.thrown ≡ none
        → (asked h path).0 ≡ false
        → Closes x.post.calls
        → ((handle prepare_payload h x).0 ≡ runs_pre ∷ runs_post ∷ [])
          × ((respond_to prepare_payload h x).1 ≢ none)
    unfolding handle respond_to
    refused-Closes h x path a p t r c =
        let start : Message J = replay (fresh h.keep_alive) (asked h path).1 in
        let post =
          run_post-Closes x start c (pre_routing-Shut h.method path (fresh h.keep_alive) r) in
        closed post.0 post.1 post.2
      where
        closed :
            (m : Message J)
            → run_post x (replay (fresh h.keep_alive) (asked h path).1) ≡ (runs_post ∷ [], some m)
            → m.keeps_alive ≡ false
            → ((handle prepare_payload h x).0 ≡ runs_pre ∷ runs_post ∷ [])
              × ((respond_to prepare_payload h x).1 ≢ none)
        closed m e k =
            let refused : x.accepts ≡ false = a ∙ r in
            let handled : handle prepare_payload h x ≡ (runs_pre ∷ runs_post ∷ [], some m) =
              rw (handle, t, refused, p, e) refl in
            (
              ap (λ (w : List Event × Option (Message J)). w.0) handled,
              rw (respond_to, handled) (answer-closes h x m k),
            )

module _ {J : Type 0} (prepare_payload : Message J → Message J) where
  -- The answer `100 Continue` is framed as any other: if the server can apply an encoding that the
  -- request accepts, then it is sent as a chunked message with that encoding, although its content
  -- is empty and an answer of that status has none.
  pub continue_is_chunked :
      (h : Header) (e : Text)
      → h.encoding ≡ some e
      → ((outgoing prepare_payload h continue_response).message.status ≡ 100)
        × ((outgoing prepare_payload h continue_response).chunked ≡ true)
        × ((outgoing prepare_payload h continue_response).content_encoding ≡ some e)
  unfolding outgoing framed continue_response is_head set_empty_content reset_content
  continue_is_chunked h e k = elim (Bool-cases (is_head h.method)) [
    | inl b ↦ rw (outgoing, framed, k, b) (refl, refl, refl)
    | inr b ↦ rw (outgoing, framed, k, b) (refl, refl, refl)
  ]
