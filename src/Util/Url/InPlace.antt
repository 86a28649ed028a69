-- ===== src/Util/Url/InPlace.antt =====
-- `url_decode` works in place: its loop over one buffer computes the reference.
use httplib.Base.{
  ℕ, zero, suc, ◌+◌, ◌≤◌, ◌<◌, ◌≡◌, ◌≢◌, refl, sym, ap, subst, ◌∙◌, false, Option, none, some, [],
  ◌∷◌, ◌++◌, append_assoc, append-nil, fun_ext, arith, ◌==◌, ==_ne, lt→ltb, ◌>>=◌, Text, length,
  length-append, take, take-append, set, length-set, set-append, get_elem?-append,
}
use native.Mathlib.Decide.{ℕ_discrete}
use httplib.Util.Url.{char_at, escaped_at, decode_from, url_decode}
use httplib.Util.Url.Reference.{unescape, decoded}

char_at-append : (xs ys : Text) (i : ℕ) → char_at (xs ++ ys) (length xs + i) ≡ char_at ys i
unfolding char_at
char_at-append xs ys i = ground (arith, get_elem?-append xs ys i, length-append xs ys)

-- One round of the loop on each of its branches.
module _ (fuel r w : ℕ) (str : Text) where
  round_end : length str ≤ r → decode_from (suc fuel) r w str ≡ some (take w str)
  unfolding decode_from
  round_end h = ground arith

  module _ (inside : r < length str) where
    round_plain :
        (c : ℕ)
        → char_at str r ≡ some c
        → c ≢ b'%'
        → decode_from (suc fuel) r w str ≡ decode_from fuel (suc r) (suc w) (set str w c)
    unfolding decode_from
    round_plain c e k = rw (lt→ltb _ _ inside, e, ==_ne c b'%' k, decode_from) refl

    round_escape :
        (o : Option ℕ)
        → char_at str r ≡ some b'%'
        → escaped_at str r ≡ o
        → decode_from (suc fuel) r w str
          ≡ (o >>= λ v. decode_from fuel (r + 3) (suc w) (set str w v))
    unfolding decode_from
    round_escape o e k = rw (lt→ltb _ _ inside, e, k, decode_from) refl

-- A write behind `out` puts a byte at its end; what is left of the bytes that were read, `junk`,
-- moves on by one.
module _ (out : Text) (c : ℕ) (more rest : Text) (v : ℕ) where
  abbrev Moved : Text → Type 0
  Moved junk =
      (junk' : Text) × (length junk' ≡ length junk + length more)
      × (set (out ++ (junk ++ (c ∷ (more ++ rest)))) (length out) v
          ≡ (out ++ v ∷ []) ++ (junk' ++ rest))

  write_moves : (junk : Text) → Moved junk
  write_moves [] = (
    more,
    omega arith,
    set-append out c (more ++ rest) v ∙ sym (append_assoc out (v ∷ []) (more ++ rest)),
  )
  write_moves (j ∷ junk) = (
    junk ++ (c ∷ more),
    omega (arith, length-append junk (c ∷ more)),
    set-append out j (junk ++ (c ∷ (more ++ rest))) v ∙ simp append_assoc,
  )

-- The state of the loop: what is written, what was read and not yet overwritten, what is to come.
record State (r w : ℕ) (str out junk rest : Text) : Type 0 where
  reading : r ≡ length out + length junk
  writing : w ≡ length out
  whole : str ≡ out ++ (junk ++ rest)

State-reads :
    {r w : ℕ} {str out junk rest : Text} (i : ℕ)
    → State r w str out junk rest
    → char_at str (r + i) ≡ char_at rest i
State-reads {out = out} {junk = junk} {rest = rest} i st =
    rw (st.whole, st.reading, ← append_assoc out junk rest, ← length-append out junk)
      (char_at-append (out ++ junk) rest i)

-- The byte that is read next.
State-next :
    {r w : ℕ} {str out junk rest : Text} (c : ℕ)
    → State r w str out junk (c ∷ rest)
    → char_at str r ≡ some c
unfolding char_at
State-next {r} {str = str} c st =
    ap (char_at str) {y = r + 0} (omega arith) ∙ State-reads 0 st ∙ ground arith

State-length :
    {r w : ℕ} {str out junk rest : Text}
    → State r w str out junk rest
    → length str ≡ r + length rest
State-length {out = out} {junk = junk} {rest = rest} st =
    rw st.whole
      (omega (arith, length-append out (junk ++ rest), length-append junk rest, st.reading))

abbrev Decodes : ℕ → ℕ → ℕ → Text → Text → Text → Type 0
Decodes fuel r w str out rest = decode_from fuel r w str ≡ (decoded rest >>= λ t. some (out ++ t))

abbrev Hypothesis : ℕ → Type 0
Hypothesis fuel =
    (r w : ℕ) (str out junk rest : Text)
    → State r w str out junk rest
    → length rest < fuel
    → Decodes fuel r w str out rest

-- A byte is written, and the loop goes on behind the bytes that were read for it.
goes_on :
    (fuel : ℕ) (r w : ℕ) (str out junk : Text) (c : ℕ) (more rest : Text) (v r' : ℕ)
    → Hypothesis fuel
    → State r w str out junk (c ∷ (more ++ rest))
    → length rest < fuel
    → r' ≡ r + 1 + length more
    → decode_from fuel r' (suc w) (set str w v) ≡ (decoded rest >>= λ t. some (out ++ (v ∷ t)))
goes_on fuel r w str out junk c more rest v r' ih st h e =
    let (junk', long, moved) = write_moves out c more rest v junk in
    let st' : State r' (suc w) (set str w v) (out ++ v ∷ []) junk' rest = record {
      reading = omega (arith, length-append out (v ∷ []), st.reading);
      writing = omega (arith, length-append out (v ∷ []), st.writing);
      whole = rw (st.whole, st.writing) moved;
    } in
    ih r' (suc w) (set str w v) (out ++ v ∷ []) junk' rest st' h
    ∙ ap (λ f. decoded rest >>= f) (fun_ext (λ t. ap some (append_assoc out (v ∷ []) t)))

pub decoded-plain :
    (c : ℕ) (s : Text) → c ≢ b'%' → decoded (c ∷ s) ≡ (decoded s >>= λ t. some (c ∷ t))
unfolding decoded
decoded-plain c [] h = rw (==_ne c b'%' h) refl
decoded-plain c (x ∷ []) h = rw (==_ne c b'%' h) refl
decoded-plain c (x ∷ y ∷ s) h = rw (==_ne c b'%' h) refl

bind_assoc :
    {A B C : Type 0} (m : Option A) (f : A → B) (g : B → Option C)
    → ((m >>= λ a. some (f a)) >>= g) ≡ (m >>= λ a. g (f a))
bind_assoc none f g = refl
bind_assoc (some a) f g = refl

-- The escape behind a `%`.
State-escaped :
    {r w : ℕ} {str out junk rest : Text} (o : Option ℕ)
    → State r w str out junk (b'%' ∷ rest)
    → (char_at (b'%' ∷ rest) 1 >>= λ h. char_at (b'%' ∷ rest) 2 >>= λ l. some (unescape h l)) ≡ o
    → escaped_at str r ≡ o
unfolding escaped_at
State-escaped {r} {str = str} o st e = rw (State-reads 1 st, State-reads 2 st) e

char_at_escape :
    (c x y : ℕ) (s : Text)
    → (char_at (c ∷ x ∷ y ∷ s) 1 >>= λ h. char_at (c ∷ x ∷ y ∷ s) 2 >>= λ l. some (unescape h l))
      ≡ some (unescape x y)
unfolding char_at
char_at_escape c x y s =
    let one : (1 == length (c ∷ x ∷ y ∷ s)) ≡ false = ground arith in
    let two : (2 == length (c ∷ x ∷ y ∷ s)) ≡ false = ground arith in rw (one, two) refl

take_written :
    (out junk : Text) (v : ℕ)
    → take (suc (length out)) ((out ++ v ∷ []) ++ (junk ++ [])) ≡ out ++ v ∷ []
take_written out junk v =
    ap (λ n. take n ((out ++ v ∷ []) ++ (junk ++ []))) {x = suc (length out)}
      {y = length (out ++ v ∷ [])} (omega (arith, length-append out (v ∷ [])))
    ∙ take-append (out ++ v ∷ []) (junk ++ [])

module _ (fuel r w : ℕ) (str out junk : Text) where
  -- The text ends inside an escape: the null that ends it is the second digit, and the loop stops.
  cut_escape :
      (x : ℕ)
      → State r w str out junk (b'%' ∷ x ∷ [])
      → 0 < fuel
      → Decodes (suc fuel) r w str out (b'%' ∷ x ∷ [])
  unfolding decoded char_at
  cut_escape x st h =
      let (junk', long, moved) = write_moves out b'%' (x ∷ []) [] (unescape x 0) junk in
      round_escape fuel r w str (omega (arith, State-length st)) (some (unescape x 0))
        (State-next b'%' st) (State-escaped (some (unescape x 0)) st refl)
      ∙ stops fuel h (unescape x 0) junk' (rw (st.whole, st.writing) moved) long
    where
      stops :
          (f : ℕ)
          → 0 < f
          → (v : ℕ) (junk' : Text) → set str w v ≡ (out ++ v ∷ []) ++ (junk' ++ [])
          → length junk' ≡ length junk + 1
          → decode_from f (r + 3) (suc w) (set str w v) ≡ some (out ++ v ∷ [])
      stops zero k v junk' e l = absurd (omega arith)
      stops (suc f) k v junk' e l =
          round_end f (r + 3) (suc w) (set str w v)
            (omega (arith, length-set str w v, State-length st))
          ∙ rw (e, st.writing) (ap some (take_written out junk' v))

module _ (fuel r w : ℕ) (str out junk : Text) (ih : Hypothesis fuel) where
  plain_step :
      (c : ℕ) (s : Text)
      → State r w str out junk (c ∷ s)
      → length s < fuel
      → c ≢ b'%'
      → Decodes (suc fuel) r w str out (c ∷ s)
  plain_step c s st h k =
      rw (decoded-plain c s k, bind_assoc (decoded s) (λ t. c ∷ t) (λ t. some (out ++ t)))
        (round_plain fuel r w str (omega (arith, State-length st)) c (State-next c st) k
          ∙ goes_on fuel r w str out junk c [] s c (suc r) ih st h (omega arith))

  escape_step :
      (s : Text)
      → State r w str out junk (b'%' ∷ s)
      → length s < fuel
      → Decodes (suc fuel) r w str out (b'%' ∷ s)
  unfolding decoded char_at
  escape_step [] st h =
      round_escape fuel r w str (omega (arith, State-length st)) none (State-next b'%' st)
        (State-escaped none st refl)
  escape_step (x ∷ []) st h = cut_escape fuel r w str out junk x st (omega arith)
  escape_step (x ∷ y ∷ s) st h =
      rw (bind_assoc (decoded s) (λ t. unescape x y ∷ t) (λ t. some (out ++ t))) (
        round_escape fuel r w str (omega (arith, State-length st)) (some (unescape x y))
          (State-next b'%' st) (State-escaped (some (unescape x y)) st (char_at_escape b'%' x y s))
        ∙ goes_on fuel r w str out junk b'%' (x ∷ y ∷ []) s (unescape x y) (r + 3) ih st
            (omega arith) (omega arith))

decode_from_lem : (fuel : ℕ) → Hypothesis fuel
decode_from_lem zero r w str out junk rest st h = absurd (omega arith)
decode_from_lem (suc fuel) r w str out junk [] st h =
    unfold decoded in
    (round_end fuel r w str (omega (arith, State-length st))
      ∙ rw (st.whole, st.writing) (ap some (take-append out (junk ++ []) ∙ sym (append-nil out))))
decode_from_lem (suc fuel) r w str out junk (c ∷ s) st h = elim (ℕ_discrete c b'%') [
  | yes e ↦
      subst (λ d. State r w str out junk (d ∷ s) → Decodes (suc fuel) r w str out (d ∷ s)) (sym e)
        (λ st'. escape_step fuel r w str out junk (decode_from_lem fuel) s st' (omega arith)) st
  | no k ↦ plain_step fuel r w str out junk (decode_from_lem fuel) c s st (omega arith) k
]

bind_some : {A : Type 0} (m : Option A) → (m >>= λ a. some a) ≡ m
bind_some none = refl
bind_some (some a) = refl

-- Decoding in place, with its reads and writes in one buffer, gives what one pass over the text
-- gives; it reads out of bounds exactly where the reference has no result.
pub url_decode-decoded : (str : Text) → url_decode str ≡ decoded str
unfolding url_decode
url_decode-decoded str =
    decode_from_lem (suc (length str)) 0 0 str [] [] str
      (record { reading = omega arith; writing = omega arith; whole = refl }) (omega arith)
    ∙ bind_some (decoded str)
