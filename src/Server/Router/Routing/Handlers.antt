-- ===== src/Server/Router/Routing/Handlers.antt =====
-- The handlers of a node, and the first node that has one for a method.
use httplib.Base.{
  ◌≡◌, ◌≢◌, refl, sym, ap, ◌∙◌, Bool, true, Option, none, some, List, [], ◌∷◌, if◌then◌else◌, inl,
  inr, Bool-cases, Option-cases, arith,
}
use httplib.Server.Router.{Verb, get, head, trace, connect, options, other, Node, payload}
use httplib.Server.Router.Match.Candidates.{first, asked}
use httplib.Server.Router.Routing.{eq_verb, find_handler, assign_handler, has_method, found_handler}

pub eq_verb_refl : (v : Verb) → eq_verb v v ≡ true
eq_verb_refl get = refl
eq_verb_refl head = refl
eq_verb_refl trace = refl
eq_verb_refl connect = refl
eq_verb_refl options = refl
eq_verb_refl (other m) = ground arith

pub find_handler-assign_handler :
    {H : Type 0} (v : Verb) (h : H) (hs : List (Verb × H))
    → find_handler v (assign_handler v h hs) ≡ some h
unfolding find_handler assign_handler
find_handler-assign_handler v h [] = rw (eq_verb_refl v) refl
find_handler-assign_handler v h ((w, g) ∷ hs) = elim (Bool-cases (eq_verb w v)) [
  | inl e ↦ rw e (rw e refl)
  | inr e ↦ rw e (rw e (find_handler-assign_handler v h hs))
]

pub asked-none :
    {H W : Type 0} (accepts : Node H W → Bool) (ns : List (Node H W))
    → first accepts ns ≡ none
    → asked accepts ns ≡ ns
unfolding first asked
asked-none accepts [] h = refl
asked-none accepts (n ∷ ns) h = elim (Bool-cases (accepts n)) [
  | inl e ↦ absurd (ground (arith, e))
  | inr e ↦ rw e (ap (λ xs. n ∷ xs) (asked-none accepts ns (rw e at h)))
]

pub eq_verb_iff : (v w : Verb) → eq_verb v w ≡ true → v ≡ w
eq_verb_iff get get h = refl
eq_verb_iff head head h = refl
eq_verb_iff trace trace h = refl
eq_verb_iff connect connect h = refl
eq_verb_iff options options h = refl
eq_verb_iff (other m) (other n) h = ground arith
eq_verb_iff _ _ h = cc

pub find_handler-assign_handler_ne :
    {H : Type 0} (v w : Verb) (h : H) (hs : List (Verb × H))
    → v ≢ w
    → find_handler w (assign_handler v h hs) ≡ find_handler w hs
unfolding find_handler assign_handler
find_handler-assign_handler_ne v w h [] k = elim (Bool-cases (eq_verb v w)) [
  | inl e ↦ absurd (k (eq_verb_iff v w e))
  | inr e ↦ rw e refl
]
find_handler-assign_handler_ne v w h ((u, g) ∷ hs) k = elim (Bool-cases (eq_verb u v)) [
  | inl e ↦ elim (Bool-cases (eq_verb u w)) [
    | inl f ↦ absurd (k (sym (eq_verb_iff u v e) ∙ eq_verb_iff u w f))
    | inr f ↦ rw (e, f) refl
  ]
  | inr e ↦ rw e (
      ap (λ (o : Option _). if eq_verb u w then some g else o)
        (find_handler-assign_handler_ne v w h hs k))
]

module _ {H W : Type 0} where
  abbrev HasNone : Node H W → Type 0
  HasNone n = (payload n).handlers ≡ []

  pub first-found :
      (method : Verb) (ns : List (Node H W)) (m : Node H W) (others : List (Node H W)) (h : H)
      → ns ≡ m ∷ others
      → find_handler method (payload m).handlers ≡ some h
      → first (has_method method) ns ≡ some m
  unfolding first has_method
  first-found method ns m others h e k = rw (e, first, has_method, k) refl

  pub first-has_method :
      (method : Verb) (ns : List (Node H W)) (n : Node H W)
      → first (has_method method) ns ≡ some n
      → (h : H) × (find_handler method (payload n).handlers ≡ some h)
  unfolding first has_method
  first-has_method method [] n e = cc
  first-has_method method (m ∷ ns) n e =
      elim (Option-cases (find_handler method (payload m).handlers)) [
        | inl k ↦ first-has_method method ns n (rw (k, first, has_method) at e)
        | inr (h, k) ↦ let same : m ≡ n = cc (rw (k, first, has_method) at e) in (h, rw (← same) k)
      ]

  pub found_handler-first :
      (method : Verb) (ns : List (Node H W)) (h : H)
      → found_handler method (first (has_method method) ns) ≡ some h
      → (n : Node H W) × (first (has_method method) ns ≡ some n)
        × (find_handler method (payload n).handlers ≡ some h)
  unfolding found_handler
  found_handler-first method ns h e = elim (Option-cases (first (has_method method) ns)) [
    | inl k ↦ absurd (no_value (rw k at e))
    | inr (n, k) ↦ (n, k, rw k at e)
  ]
    where
      no_value : ◌≡◌ {A = Option H} none (some h) → ⊥
      no_value q = cc
