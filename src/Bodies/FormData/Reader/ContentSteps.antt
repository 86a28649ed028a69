-- ===== src/Bodies/FormData/Reader/ContentSteps.antt =====
-- What a call of `put` within a content does on each branch, and that plain bytes are content.
use httplib.Base.{
  ℕ, zero, suc, ◌≤◌, ◌<◌, ◌≡◌, ◌⊎◌, refl, sym, ap, ◌∙◌, subst, true, false, Option, none, some,
  List, [], ◌∷◌, ◌++◌, inl, inr, arith, Text, codes, length, take, drop, find, starts_with, Lacks,
  All, length-append, append_assoc, append-nil, Option-cases, drop-append,
}
use httplib.Util.Split.Total.{starts_with_length, find_bound}
use httplib.Util.Split.Pieces.{find-none, find-some}
use httplib.Bodies.FormData.{Field}
use httplib.Bodies.FormData.Writer.{disposition_line}
use httplib.Bodies.FormData.Reader.{
  Reader, boundary_content, Error, need_more, appended, pushed, at_step, with_field,
  put_boundary_content,
}
use httplib.Bodies.FormData.Reader.Prefixes.{within, find_behind}
use httplib.Bodies.FormData.Reader.Stream.{
  mark, EndsAtMark, IsField, written_fields, content_bytes, Moves,
}

abbrev pub inside : Reader → Reader
inside r = at_step r boundary_content

pub after_mark :
    (b : Text) (todo : List Field) → (t : Text) × (written_fields b todo ≡ codes "--" ++ (b ++ t))
unfolding written_fields httplib.Bodies.FormData.Writer.header_text
after_mark b [] = (codes "--\r\n", refl)
after_mark b (f ∷ todo) = (_, ap (λ t. codes "--" ++ t) (assoc3 b _ _ _))
  where
    assoc3 : (a x y z : Text) → ((a ++ x) ++ y) ++ z ≡ a ++ ((x ++ y) ++ z)
    assoc3 a x y z = ap (λ t. t ++ z) (append_assoc a x y) ∙ append_assoc a (x ++ y) z

pub content_short :
    (r : Reader) (p : Text)
    → starts_with p (codes "\r") ≡ true
    → length p < length (mark r.boundary)
    → put_boundary_content r p ≡ (r, 0, some need_more)
unfolding put_boundary_content
content_short r p e h = ground (arith, e, h)

pub content_end :
    (r : Reader) (p : Text)
    → starts_with p (codes "\r") ≡ true
    → starts_with p (mark r.boundary) ≡ true
    → put_boundary_content r p ≡ (pushed r, 2, none)
unfolding put_boundary_content
content_end r p e h = ground (arith, e, h, starts_with_length p (mark r.boundary) h)

pub content_return :
    (r : Reader) (p : Text)
    → starts_with p (codes "\r") ≡ true
    → length (mark r.boundary) ≤ length p
    → starts_with p (mark r.boundary) ≡ false
    → put_boundary_content r p ≡ (with_field r r.step (appended r.field_data (codes "\r")), 1, none)
unfolding put_boundary_content
content_return r p e h f = ground (arith, e, h, f)

content_rest :
    (r : Reader) (p : Text)
    → starts_with p (codes "\r") ≡ false
    → find p (codes "\r") ≡ none
    → put_boundary_content r p ≡ (with_field r r.step (appended r.field_data p), length p, none)
unfolding put_boundary_content
content_rest r p e h = rw (e, h, put_boundary_content) refl

content_until :
    (r : Reader) (p : Text) (pos : ℕ)
    → starts_with p (codes "\r") ≡ false
    → find p (codes "\r") ≡ some pos
    → put_boundary_content r p
      ≡ (with_field r r.step (appended r.field_data (take pos p)), pos, none)
unfolding put_boundary_content
content_until r p pos e h = rw (e, h, put_boundary_content) refl

appended-appended : (f : Field) (q t : Text) → appended (appended f q) t ≡ appended f (q ++ t)
unfolding appended
appended-appended f q t =
    ap
      (λ c. record {
        name = f.name;
        filename = f.filename;
        content_type = f.content_type;
        content = c;
      })
      (append_assoc f.content q t)

pub appended-nil : (f : Field) → appended f [] ≡ f
unfolding appended
appended-nil f =
    ap
      (λ c. record {
        name = f.name;
        filename = f.filename;
        content_type = f.content_type;
        content = c;
      })
      (append-nil f.content)

take-drop : (n : ℕ) (s : Text) → take n s ++ drop n s ≡ s
take-drop zero s = refl
take-drop (suc n) [] = refl
take-drop (suc n) (x ∷ s) = ap (◌∷◌ x) (take-drop n s)

nonempty : (p : Text) → (0 < length p) ⊎ (p ≡ [])
nonempty [] = inr refl
nonempty (x ∷ p) = inl (omega arith)

pos_of :
    (p : Text) (pos : ℕ)
    → starts_with p (codes "\r") ≡ false
    → find p (codes "\r") ≡ some pos
    → 0 < pos
unfolding find
pos_of [] pos e h = cc
pos_of (x ∷ p) zero e h = elim (Option-cases (find p (codes "\r"))) [
  | inl n ↦ absurd (ground (arith, e, n))
  | inr (j, n) ↦ absurd (ground (arith, e, n))
]
pos_of p (suc pos) e h = omega arith

length-take : (n : ℕ) (s : Text) → n ≤ length s → length (take n s) ≡ n
length-take zero s h = refl
length-take (suc n) [] h = absurd (omega arith)
length-take (suc n) (x ∷ s) h = omega (arith, length-take n s (omega arith))

module _ (fields : List Field) (k : ℕ) where
  -- The call took the bytes `q`, which are the next of the content.
  pub took :
      (r : Reader) (s q rest : Text) (todo : List Field) (o : Reader × ℕ × Option Error)
      → s ≡ q ++ content_bytes r.boundary rest todo
      → r.body.fields ++ appended r.field_data (q ++ rest) ∷ todo ≡ fields
      → All (IsField r.boundary) todo
      → EndsAtMark r.boundary (q ++ rest)
      → o ≡ (with_field (inside r) boundary_content (appended r.field_data q), length q, none)
      → (0 < length q) ⊎ (take k s ≡ [])
      → Moves fields k s o
  took r s q rest todo o e done all ends h some_taken = subst (Moves fields k s) (sym h) (
    (
      rest,
      todo,
      ap (λ f. r.body.fields ++ f ∷ todo) (appended-appended r.field_data q rest) ∙ done,
      all,
      find_behind q (rest ++ mark r.boundary) (mark r.boundary) (length rest) (
          ap (λ t. find t (mark r.boundary)) (sym (append_assoc q rest (mark r.boundary)))
          ∙ ends
          ∙ ap some (length-append q rest)),
      ap (drop (length q)) e ∙ drop-append q (content_bytes r.boundary rest todo),
    ),
    inl (refl, some_taken),
  )

  -- Bytes without a carriage return that come next are bytes of the content.
  took_plain :
      (r : Reader) (s q u rest : Text) (todo : List Field) (o : Reader × ℕ × Option Error)
      → Lacks 13 q
      → q ++ u ≡ s
      → s ≡ content_bytes r.boundary rest todo
      → r.body.fields ++ appended r.field_data rest ∷ todo ≡ fields
      → All (IsField r.boundary) todo
      → EndsAtMark r.boundary rest
      → o ≡ (with_field (inside r) boundary_content (appended r.field_data q), length q, none)
      → (0 < length q) ⊎ (take k s ≡ [])
      → Moves fields k s o
  took_plain r s q u rest todo o free split e done all ends h some_taken =
      let (more, eq, tail) =
        within 13 q u rest (10 ∷ written_fields r.boundary todo) free (split ∙ e) in
      took r s q more todo o (sym split ∙ ap (λ t. q ++ t) tail)
        (subst (λ t. r.body.fields ++ appended r.field_data t ∷ todo ≡ fields) eq done) all
        (subst (EndsAtMark r.boundary) eq ends) h some_taken

  pub plain-Moves :
      (r : Reader) (s rest : Text) (todo : List Field)
      → s ≡ content_bytes r.boundary rest todo
      → r.body.fields ++ appended r.field_data rest ∷ todo ≡ fields
      → All (IsField r.boundary) todo
      → EndsAtMark r.boundary rest
      → starts_with (take k s) (codes "\r") ≡ false
      → Moves fields k s (put_boundary_content (inside r) (take k s))
  plain-Moves r s rest todo e done all ends free =
      elim (Option-cases (find (take k s) (codes "\r"))) [
        | inl h ↦
            took_plain r s (take k s) (drop k s) rest todo
              (put_boundary_content (inside r) (take k s)) (find-none 13 (take k s) h)
              (take-drop k s) e done all ends (content_rest (inside r) (take k s) free h)
              (nonempty (take k s))
        | inr (pos, h) ↦
            let (whole, lacking) = find-some 13 (take k s) pos h in
            let q = take pos (take k s) in
            let size : length q ≡ pos =
              length-take pos (take k s) (omega (arith, find_bound (take k s) (codes "\r") h)) in
            took_plain r s q (13 ∷ drop (suc pos) (take k s) ++ drop k s) rest todo
              (put_boundary_content (inside r) (take k s)) lacking
              (sym (append_assoc q (13 ∷ drop (suc pos) (take k s)) (drop k s))
                ∙ ap (λ t. t ++ drop k s) (sym whole)
                ∙ take-drop k s)
              e done all ends
              (content_until (inside r) (take k s) pos free h
                ∙ ap
                    (λ n.
                      (with_field (inside r) boundary_content (appended r.field_data q), n, none))
                    (sym size))
              (inl (omega (arith, pos_of (take k s) pos free h)))
      ]
