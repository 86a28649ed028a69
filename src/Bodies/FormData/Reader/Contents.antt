-- ===== src/Bodies/FormData/Reader/Contents.antt =====
-- One call of `put` within a content: the end of the content is found, and a carriage return that
-- does not end it is content.
use native.Mathlib.Decide.{dec_lt}
use httplib.Base.{
  ℕ, ◌≤◌, ◌≡◌, ◌⊎◌, refl, sym, ap, ◌∙◌, subst, true, false, Option, none, List, [], ◌∷◌, ◌++◌, inl,
  inr, arith, Text, codes, length, take, drop, find, starts_with, starts_with-append, All,
  length-append, append_assoc, Bool-cases, take-append,
}
use httplib.Bodies.FormData.{Field}
use httplib.Bodies.FormData.Reader.{
  Reader, boundary_content, Error, appended, pushed, with_field, put_boundary_content,
}
use httplib.Bodies.FormData.Reader.Prefixes.{starts_with-take, starts_with_of_take}
use httplib.Bodies.FormData.Reader.Stream.{mark, EndsAtMark, IsField, content_bytes, Expects, Moves}
use httplib.Bodies.FormData.Reader.Steps.{asks}
use httplib.Bodies.FormData.Reader.ContentSteps.{
  inside, after_mark, content_short, content_end, content_return, appended-nil, took, plain-Moves,
}

mark_first :
    (b rest t : Text)
    → EndsAtMark b rest
    → starts_with (rest ++ (mark b ++ t)) (mark b) ≡ true
    → rest ≡ []
unfolding find
mark_first b [] t e h = refl
mark_first b (x ∷ rest) t e h =
    let start = x ∷ rest ++ mark b in
    let cut : take (length start) (x ∷ rest ++ (mark b ++ t)) ≡ start =
      ap (take (length start)) (sym (append_assoc (x ∷ rest) (mark b) t)) ∙ take-append start t in
    let early =
      starts_with-take (length start) (x ∷ rest ++ (mark b ++ t)) (mark b) h
        (omega (arith, ap length cut, length-append (x ∷ rest) (mark b))) in
    let early_here : starts_with start (mark b) ≡ true =
      subst (λ u. starts_with u (mark b) ≡ true) cut early in
    absurd (ground (arith, early_here, e))

content_whole :
    (b s rest : Text) (todo : List Field)
    → s ≡ content_bytes b rest todo
    → (t : Text) × (s ≡ rest ++ (mark b ++ t))
content_whole b s rest todo e =
    let (t, tail) = after_mark b todo in (t, e ∙ ap (λ u. rest ++ (codes "\r\n" ++ u)) tail)

starts-head : (x c : ℕ) (s : Text) → starts_with (x ∷ s) (c ∷ []) ≡ true → x ≡ c
unfolding starts_with
starts-head x c s h = ground arith

module _ (fields : List Field) (k : ℕ) where
  content_over :
      (r : Reader) (s rest : Text) (todo : List Field) (o : Reader × ℕ × Option Error)
      → rest ≡ []
      → s ≡ content_bytes r.boundary rest todo
      → r.body.fields ++ appended r.field_data rest ∷ todo ≡ fields
      → All (IsField r.boundary) todo
      → o ≡ (pushed (inside r), 2, none)
      → Moves fields k s o
  unfolding pushed
  content_over r s [] todo o z e done all h = subst (Moves fields k s) (sym h) (
    (
      todo,
      append_assoc r.body.fields (r.field_data ∷ []) todo
          ∙ ap (λ f. r.body.fields ++ f ∷ todo) (sym (appended-nil r.field_data))
          ∙ done,
      all,
      ap (drop 2) e,
    ),
    inl (refl, inl (omega arith)),
  )
  content_over r s (x ∷ rest) todo o z e done all h = cc

  content_on :
      (r : Reader) (s rest : Text) (todo : List Field) (o : Reader × ℕ × Option Error)
      → s ≡ content_bytes r.boundary rest todo
      → r.body.fields ++ appended r.field_data rest ∷ todo ≡ fields
      → All (IsField r.boundary) todo
      → EndsAtMark r.boundary rest
      → starts_with s (codes "\r") ≡ true
      → starts_with s (mark r.boundary) ≡ false
      → o ≡ (with_field (inside r) boundary_content (appended r.field_data (codes "\r")), 1, none)
      → Moves fields k s o
  content_on r s [] todo o e done all ends h not_mark p =
      let (t, whole) = content_whole r.boundary s [] todo e in
      let met : starts_with s (mark r.boundary) ≡ true =
        subst (λ u. starts_with u (mark r.boundary) ≡ true) (sym whole)
          (starts_with-append (mark r.boundary) t) in
      absurd (cc (met, not_mark))
  content_on r s (x ∷ rest) todo o e done all ends h not_mark p =
      let head : x ≡ 13 =
        starts-head x 13 (content_bytes r.boundary rest todo)
          (subst (λ u. starts_with u (codes "\r") ≡ true) e h) in
      took fields k r s (13 ∷ []) rest todo o
        (e ∙ ap (λ c. c ∷ content_bytes r.boundary rest todo) head)
        (subst (λ c. r.body.fields ++ appended r.field_data (c ∷ rest) ∷ todo ≡ fields) head done)
        all (subst (λ c. EndsAtMark r.boundary (c ∷ rest)) head ends) p (inl (omega arith))

  return-Moves :
      (r : Reader) (s rest : Text) (todo : List Field)
      → Expects fields (inside r) s
      → s ≡ content_bytes r.boundary rest todo
      → r.body.fields ++ appended r.field_data rest ∷ todo ≡ fields
      → All (IsField r.boundary) todo
      → EndsAtMark r.boundary rest
      → starts_with (take k s) (codes "\r") ≡ true
      → Moves fields k s (put_boundary_content (inside r) (take k s))
  return-Moves r s rest todo here e done all ends h =
      let b = r.boundary in
      let o = put_boundary_content (inside r) (take k s) in
      let (t, whole) = content_whole b s rest todo e in
      let size : length (mark b) ≤ length s =
        omega
          (arith, ap length whole, length-append rest (mark b ++ t), length-append (mark b) t) in
      elim (dec_lt (length (take k s)) (length (mark b))) [
        | yes short ↦
            asks fields k (inside r) s (mark b) o here (content_short (inside r) (take k s) h short)
              short size
        | no long ↦ elim (Bool-cases (starts_with (take k s) (mark b))) [
          | inl m ↦
              content_over r s rest todo o
                (mark_first b rest t ends (
                  subst (λ u. starts_with u (mark b) ≡ true) whole
                    (starts_with_of_take k s (mark b) m)))
                e done all (content_end (inside r) (take k s) h m)
          | inr m ↦
              content_on r s rest todo o e done all ends (starts_with_of_take k s (codes "\r") h)
                (no_mark (Bool-cases (starts_with s (mark b))) m (omega arith))
                (content_return (inside r) (take k s) h (omega arith) m)
        ]
      ]
    where
      no_mark :
          (starts_with s (mark r.boundary) ≡ true) ⊎ (starts_with s (mark r.boundary) ≡ false)
          → starts_with (take k s) (mark r.boundary) ≡ false
          → length (mark r.boundary) ≤ length (take k s)
          → starts_with s (mark r.boundary) ≡ false
      no_mark (inl m) n l = absurd (cc (starts_with-take k s (mark r.boundary) m l, n))
      no_mark (inr m) n l = m

  pub content-Moves :
      (r : Reader) (s rest : Text) (todo : List Field)
      → Expects fields (inside r) s
      → s ≡ content_bytes r.boundary rest todo
      → r.body.fields ++ appended r.field_data rest ∷ todo ≡ fields
      → All (IsField r.boundary) todo
      → EndsAtMark r.boundary rest
      → Moves fields k s (put_boundary_content (inside r) (take k s))
  content-Moves r s rest todo here e done all ends =
      elim (Bool-cases (starts_with (take k s) (codes "\r"))) [
        | inl h ↦ return-Moves r s rest todo here e done all ends h
        | inr h ↦ plain-Moves fields k r s rest todo e done all ends h
      ]
