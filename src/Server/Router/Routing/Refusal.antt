-- ===== src/Server/Router/Routing/Refusal.antt =====
-- The refusals of the router: 404 where no candidate has a handler, else 405 with the methods of the
-- candidates in the field `Allow`.
use httplib.Base.{
  less_text, ◌≡◌, ◌≢◌, ◌⊎◌, refl, sym, ap, ◌∙◌, Bool, true, false, ◌||◌, none, List, [], ◌∷◌, Text,
  codes, eq_text, eq_of_eq_text, All, inl, inr, Bool-cases, arith,
}
use httplib.Util.Trim.{Trimming}
use httplib.Server.Response.{
  set, Format, set_error_content, status_not_found, status_method_not_allowed,
}
use httplib.Server.Router.{Verb, Node, payload, Regex}
use httplib.Server.Router.Match.Candidates.{first}
use httplib.Server.Router.Routing.{
  set_insert, Names, respond, allow_methods, allows_of, has_method, refusal, proc_routing,
}
use httplib.Server.Router.Routing.Dispatch.{reached, proc_routing-refused}

-- Whether a text is in a set, or is the name of a method that has a handler.
unfoldable pub member : Text → List Text → Bool
member t [] = false
member t (s ∷ ts) = eq_text s t || member t ts

unfoldable pub offers {ℓ} : {H : Type ℓ} → Names → Text → List (Verb × H) → Bool
offers names t [] = false
offers names t ((v, h) ∷ hs) = eq_text (names.to_string v) t || offers names t hs

or_twice : (a b : Bool) → (a || b) ≡ (a || (a || b))
or_twice true b = refl
or_twice false b = refl

or_swap : (a b c : Bool) → (a || (b || c)) ≡ (b || (a || c))
or_swap true true c = refl
or_swap true false c = refl
or_swap false true c = refl
or_swap false false c = refl

or_regroup : (a b c : Bool) → (b || (a || c)) ≡ ((a || b) || c)
or_regroup true true c = refl
or_regroup true false c = refl
or_regroup false true c = refl
or_regroup false false c = refl

or_nil : (a : Bool) → (a || false) ≡ a
or_nil true = refl
or_nil false = refl

member-set_insert :
    (t s : Text) (ts : List Text) → member t (set_insert s ts) ≡ (eq_text s t || member t ts)
unfolding member set_insert
member-set_insert t s [] = refl
member-set_insert t s (r ∷ ts) = elim (Bool-cases (eq_text s r)) [
  | inl e ↦ rw (e, ← eq_of_eq_text s r e) (or_twice (eq_text s t) (member t ts))
  | inr e ↦ elim (Bool-cases (less_text s r)) [
    | inl k ↦ rw (e, k) refl
    | inr k ↦
        rw (e, k)
          (ap (λ b. eq_text r t || b) (member-set_insert t s ts)
            ∙ or_swap (eq_text r t) (eq_text s t) (member t ts))
  ]
]

member-allow_methods :
    {H : Type 0} (names : Names) (t : Text) (hs : List (Verb × H)) (allows : List Text)
    → member t (allow_methods names hs allows) ≡ (offers names t hs || member t allows)
unfolding allow_methods offers
member-allow_methods names t [] allows = refl
member-allow_methods names t ((v, h) ∷ hs) allows =
    member-allow_methods names t hs (set_insert (names.to_string v) allows)
    ∙ ap (λ b. offers names t hs || b) (member-set_insert t (names.to_string v) allows)
    ∙ or_regroup (eq_text (names.to_string v) t) (offers names t hs) (member t allows)

set_insert-ne : (s : Text) (ts : List Text) → set_insert s ts ≢ []
unfolding set_insert
set_insert-ne s [] e = cc
set_insert-ne s (t ∷ ts) e = ground arith

allow_methods-nil :
    {H : Type 0} (names : Names) (hs : List (Verb × H)) (allows : List Text)
    → allow_methods names hs allows ≡ []
    → (hs ≡ []) × (allows ≡ [])
unfolding allow_methods
allow_methods-nil names [] allows e = (refl, e)
allow_methods-nil names ((v, h) ∷ hs) allows e = absurd (
    set_insert-ne (names.to_string v) allows
      (allow_methods-nil names hs (set_insert (names.to_string v) allows) e).1)

module _ {H W : Type 0} where
  -- Whether some node has a handler for a method of that name.
  abbrev pub some_offers : Names → Text → List (Node H W) → Bool
  some_offers names t [] = false
  some_offers names t (n ∷ ns) = offers names t (payload n).handlers || some_offers names t ns

  member-allows_of :
      (names : Names) (t : Text) (ns : List (Node H W)) (allows : List Text)
      → member t (allows_of names ns allows) ≡ (some_offers names t ns || member t allows)
  unfolding allows_of
  member-allows_of names t [] allows = refl
  member-allows_of names t (n ∷ ns) allows =
      member-allows_of names t ns (allow_methods names (payload n).handlers allows)
      ∙ ap (λ b. some_offers names t ns || b)
          (member-allow_methods names t (payload n).handlers allows)
      ∙ or_regroup (offers names t (payload n).handlers) (some_offers names t ns) (member t allows)

  abbrev pub HasNoHandler : Node H W → Type 0
  HasNoHandler n = (payload n).handlers ≡ []

  allows_of-nil :
      (names : Names) (ns : List (Node H W)) (allows : List Text)
      → allows_of names ns allows ≡ []
      → All HasNoHandler ns × (allows ≡ [])
  unfolding allows_of
  allows_of-nil names [] allows e = (tt, e)
  allows_of-nil names (n ∷ ns) allows e =
      let later = allows_of-nil names ns (allow_methods names (payload n).handlers allows) e in
      let here = allow_methods-nil names (payload n).handlers allows later.1 in
      ((here.0, later.0), here.1)

module _ (J : Type 0) (names : Names) (format : Format) (server : Text) {H W : Type 0} (re : Regex)
    (boost : Trimming) (root : Node H W) where
  abbrev pub NotFound : Verb → Text → Type 0
  NotFound method path =
      proc_routing {J = J} names format server re boost root method path
      ≡ respond (set_error_content format server status_not_found)

  -- The answer with the field `Allow` over the texts of a set, which is not empty and holds just the
  -- methods that some candidate offers.
  pub record NotAllowed (method : Verb) (path : Text) : Type 0 where
    pub allowed : Text
    pub others : List Text
    pub answer :
        proc_routing {J = J} names format server re boost root method path
        ≡ respond (
            set (codes "Allow") (names.join (allowed ∷ others) (codes ","))
            ∷ set_error_content format server status_method_not_allowed)
    pub exact :
        (t : Text) → member t (allowed ∷ others) ≡ some_offers names t (reached re boost root path)

  -- A request for which no candidate has a handler is answered by 404 if no candidate has any
  -- handler at all, and otherwise by 405 with exactly the methods that the candidates offer.
  pub proc_routing-answers :
      (method : Verb) (path : Text)
      → first (has_method method) (reached re boost root path) ≡ none
      → (All HasNoHandler (reached re boost root path) × NotFound method path)
        ⊎ NotAllowed method path
  unfolding member
  proc_routing-answers method path e = by_set (allows_of names (reached re boost root path) []) refl
    where
      refused :
          (s : List Text)
          → allows_of names (reached re boost root path) [] ≡ s
          → proc_routing {J = J} names format server re boost root method path
            ≡ respond (refusal names format server s)
      refused s k =
          proc_routing-refused names format server re boost root method path e
          ∙ ap (λ x. respond (refusal names format server x)) k

      by_set :
          (s : List Text)
          → allows_of names (reached re boost root path) [] ≡ s
          → (All HasNoHandler (reached re boost root path) × NotFound method path)
            ⊎ NotAllowed method path
      by_set [] k = inl ((allows_of-nil names _ [] k).0, unfold refusal in refused [] k)
      by_set (a ∷ as') k = inr (record {
        allowed = a;
        others = as';
        answer = unfold refusal in refused (a ∷ as') k;
        exact = λ t.
            ap (member t) (sym k)
            ∙ member-allows_of names t (reached re boost root path) []
            ∙ or_nil (some_offers names t (reached re boost root path));
      })
