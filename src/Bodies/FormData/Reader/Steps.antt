-- ===== src/Bodies/FormData/Reader/Steps.antt =====
-- One call of `put`, step by step.
use httplib.Base.{
  ℕ, zero, suc, ◌≤◌, ◌<◌, ◌≡◌, refl, sym, ap, ◌∙◌, subst, true, false, Option, none, some, List, [],
  ◌∷◌, ◌++◌, inl, inr, arith, Text, codes, length, take, drop, starts_with, starts_with-append, All,
  length-append, append_assoc, append-nil, Bool-cases, drop-append,
}
use native.Mathlib.Decide.{dec_lt}
use httplib.Util.Split.Total.{starts_with_length}
use httplib.Bodies.FormData.{Field}
use httplib.Bodies.FormData.Disposition.Lines.{block}
use httplib.Bodies.FormData.Reader.{
  Reader, Step, boundary_header, finshed, eof, Error, need_more, at_step, put_boundary_line,
  put_finshed,
}
use httplib.Bodies.FormData.Reader.HeaderLines.{part_lines, header_text-block}
use httplib.Bodies.FormData.Reader.Prefixes.{starts_with-take, starts_with_of_take}
use httplib.Bodies.FormData.Reader.Stream.{
  IsField, written_fields, content_bytes, Waits, Expects, Moves,
}

shorter : (k : ℕ) (s : Text) → length (take k s) < length s → k < length s
shorter zero s h = h
shorter (suc k) [] h = absurd (omega (arith, h))
shorter (suc k) (x ∷ s) h = omega (arith, shorter k s (omega (arith, h)))

length-take_le : (k : ℕ) (s : Text) → length (take k s) ≤ length s
length-take_le zero s = omega arith
length-take_le (suc k) [] = omega arith
length-take_le (suc k) (x ∷ s) = omega (arith, length-take_le k s)

starts_with-cancel : (q u v : Text) → starts_with (q ++ u) (q ++ v) ≡ starts_with u v
unfolding starts_with
starts_with-cancel [] u v = refl
starts_with-cancel (x ∷ q) u v = ground (arith, starts_with-cancel q u v)

not_prefix : (b : Text) → starts_with (b ++ codes "--\r\n") (b ++ codes "\r\n") ≡ false
unfolding starts_with
not_prefix b = starts_with-cancel b (codes "--\r\n") (codes "\r\n")

module _ (fields : List Field) (k : ℕ) where
  -- The bytes of a line that starts what is left.
  abbrev Line : Text → Text
  Line b = codes "--" ++ (b ++ codes "\r\n")

  abbrev Last : Text → Text
  Last b = codes "--" ++ (b ++ codes "--")

  same_length : (b : Text) → length (Line b) ≡ length (Last b)
  same_length b = omega (arith, length-append b (codes "\r\n"), length-append b (codes "--"))

  at_short :
      (r : Reader) (p : Text)
      → length p < length (Line r.boundary)
      → put_boundary_line r p ≡ (r, 0, some need_more)
  unfolding put_boundary_line
  at_short r p h = ground (arith, h, same_length r.boundary)

  at_next :
      (r : Reader) (p : Text)
      → starts_with p (Line r.boundary) ≡ true
      → put_boundary_line r p ≡ (at_step r boundary_header, length (Line r.boundary), none)
  unfolding put_boundary_line
  at_next r p h =
      ground (arith, h, same_length r.boundary, starts_with_length p (Line r.boundary) h)

  at_last :
      (r : Reader) (p : Text)
      → starts_with p (Line r.boundary) ≡ false
      → starts_with p (Last r.boundary) ≡ true
      → put_boundary_line r p ≡ (at_step r finshed, length (Last r.boundary), none)
  unfolding put_boundary_line
  at_last r p f h =
      ground (arith, f, h, same_length r.boundary, starts_with_length p (Last r.boundary) h)

  -- The call asks for more where the chunk is too short for what it looks for.
  pub asks :
      (r : Reader) (s p : Text) (o : Reader × ℕ × Option Error)
      → Expects fields r s
      → o ≡ (r, 0, some need_more)
      → length (take k s) < length p
      → length p ≤ length s
      → Moves fields k s o
  asks r s p o here e h l =
      subst (Moves fields k s) (sym e) (here, inr (refl, shorter k s (omega arith)))

  written-line :
      (b : Text) (f : Field) (todo : List Field)
      → written_fields b (f ∷ todo)
        ≡ Line b ++ (block (part_lines f) ++ content_bytes b f.content todo)
  unfolding written_fields
  written-line b f todo =
      ap (λ t. t ++ content_bytes b f.content todo) (header_text-block b f)
      ∙ append_assoc (Line b) (block (part_lines f)) (content_bytes b f.content todo)

  written-last : (b : Text) → written_fields b [] ≡ Last b ++ codes "\r\n"
  unfolding written_fields
  written-last b = ap (λ t. codes "--" ++ t) (sym (append_assoc b (codes "--") (codes "\r\n")))

  takes :
      (r : Reader) (s q rest : Text) (step : Step) (o : Reader × ℕ × Option Error)
      → s ≡ q ++ rest
      → 0 < length q
      → Waits r.boundary fields step r.body.fields r.field_data rest
      → o ≡ (at_step r step, length q, none)
      → Moves fields k s o
  takes r s q rest step o e pos after h = subst (Moves fields k s) (sym h) (
    subst (Waits r.boundary fields step r.body.fields r.field_data)
        (sym (ap (drop (length q)) e ∙ drop-append q rest)) after,
    inl (refl, inl pos),
  )

  starts :
      (s q rest : Text)
      → s ≡ q ++ rest
      → length q ≤ length (take k s)
      → starts_with (take k s) q ≡ true
  starts s q rest e h =
      starts_with-take k s q
        (subst (λ t. starts_with t q ≡ true) (sym e) (starts_with-append q rest)) h

  not_line : (b s : Text) → s ≡ written_fields b [] → starts_with (take k s) (Line b) ≡ false
  unfolding written_fields starts_with
  not_line b s e = elim (Bool-cases (starts_with (take k s) (Line b))) [
    | inl h ↦
        let told =
          subst (λ t. starts_with t (Line b) ≡ true) e (starts_with_of_take k s (Line b) h) in
        absurd (cc (not_prefix b, told))
    | inr h ↦ h
  ]

  length-whole : (s q rest : Text) → s ≡ q ++ rest → length q ≤ length s
  length-whole s q rest e = omega (arith, ap length e, length-append q rest)

  next-Moves :
      (r : Reader) (s rest : Text)
      → Expects fields r s
      → s ≡ Line r.boundary ++ rest
      → Waits r.boundary fields boundary_header r.body.fields r.field_data rest
      → Moves fields k s (put_boundary_line r (take k s))
  next-Moves r s rest here e after =
      let line = Line r.boundary in
      elim (dec_lt (length (take k s)) (length line)) [
        | yes h ↦
            asks r s line (put_boundary_line r (take k s)) here (at_short r (take k s) h) h
              (length-whole s line rest e)
        | no h ↦
            takes r s line rest boundary_header (put_boundary_line r (take k s)) e (omega arith)
              after (at_next r (take k s) (starts s line rest e (omega arith)))
      ]

  last-Moves :
      (r : Reader) (s : Text)
      → Expects fields r s
      → s ≡ written_fields r.boundary []
      → r.body.fields ≡ fields
      → Moves fields k s (put_boundary_line r (take k s))
  last-Moves r s here e done =
      let last = Last r.boundary in
      let whole = e ∙ written-last r.boundary in
      elim (dec_lt (length (take k s)) (length last)) [
        | yes h ↦
            asks r s last (put_boundary_line r (take k s)) here
              (at_short r (take k s) (omega (arith, same_length r.boundary))) h
              (length-whole s last (codes "\r\n") whole)
        | no h ↦
            takes r s last (codes "\r\n") finshed (put_boundary_line r (take k s)) whole
              (omega arith) (done, refl)
              (at_last r (take k s) (not_line r.boundary s e)
                (starts s last (codes "\r\n") whole (omega arith)))
      ]

  pub line-Moves :
      (r : Reader) (s : Text) (todo : List Field)
      → Expects fields r s
      → r.body.fields ++ todo ≡ fields
      → All (IsField r.boundary) todo
      → s ≡ written_fields r.boundary todo
      → Moves fields k s (put_boundary_line r (take k s))
  line-Moves r s [] here done all e = last-Moves r s here e (sym (append-nil r.body.fields) ∙ done)
  line-Moves r s (f ∷ todo) here done all e =
      next-Moves r s (block (part_lines f) ++ content_bytes r.boundary f.content todo) here
        (e ∙ written-line r.boundary f todo) (f, todo, done, all, refl)

  pub finshed-Moves :
      (r : Reader) (s : Text)
      → Expects fields r s
      → r.body.fields ≡ fields
      → s ≡ codes "\r\n"
      → Moves fields k s (put_finshed r (take k s))
  unfolding put_finshed
  finshed-Moves r s here done e = elim (dec_lt (length (take k s)) 2) [
    | yes h ↦
        asks r s (codes "\r\n") (put_finshed r (take k s)) here (ground (arith, h)) h
          (length-whole s (codes "\r\n") [] e)
    | no h ↦
        takes r s (codes "\r\n") [] eof (put_finshed r (take k s)) e (omega arith) (done, refl)
          (ground (arith, h, starts s (codes "\r\n") [] e (omega arith)))
  ]
