-- ===== src/Bodies/FormData/Reader/HeaderSteps.antt =====
-- One call of `put` within the header of a part.
use native.Mathlib.Decide.{dec_lt}
use httplib.Base.{
  ℕ, ◌+◌, ◌<◌, ◌≡◌, refl, sym, ap, ◌∙◌, subst, Option, none, some, List, [], ◌∷◌, ◌++◌, inl, inr,
  arith, Text, codes, length, take, drop, find, All, Option-cases, drop-append, take-append,
  take_all,
}
use httplib.Util.Trim.{Trimming}
use httplib.Util.Split.Total.{find_bound}
use httplib.Bodies.FormData.{Field}
use httplib.Bodies.FormData.Writer.{disposition_line}
use httplib.Bodies.FormData.Disposition.Lines.{block}
use httplib.Bodies.FormData.Reader.{
  Reader, boundary_content, Error, need_more, appended, with_field, put_boundary_header,
}
use httplib.Bodies.FormData.Reader.HeaderLines.{
  HasHeader, type_lines, part_lines, part_lines-IsLine,
}
use httplib.Bodies.FormData.Reader.Headers.{headed, header_read}
use httplib.Bodies.FormData.Reader.Prefixes.{find-take, take-take_length, find-block}
use httplib.Bodies.FormData.Reader.Stream.{IsField, content_bytes, Expects, Moves}

some_eq : {i j : ℕ} → some i ≡ some j → i ≡ j
some_eq e = cc

module _ (boost : Trimming) (fields : List Field) (k : ℕ) where
  header_result :
      (r : Reader) (p : Text) (pos : ℕ) (f : Field)
      → find p (codes "\r\n\r\n") ≡ some pos
      → take (pos + 4) p ≡ block (part_lines f)
      → HasHeader f
      → put_boundary_header boost r p
        ≡ (with_field r boundary_content (headed f), length (block (part_lines f)), none)
  unfolding put_boundary_header
  header_result r p pos f e h fits =
      rw (e, put_boundary_header)
        (rw (h, header_read boost f fits)
          (ap (λ t. (with_field r boundary_content (headed f), length t, none)) h))

  header_missing :
      (r : Reader) (p : Text)
      → find p (codes "\r\n\r\n") ≡ none
      → put_boundary_header boost r p ≡ (r, 0, some need_more)
  unfolding put_boundary_header
  header_missing r p e = rw (e, put_boundary_header) refl

  header_found :
      (s rest : Text) (f : Field)
      → s ≡ block (part_lines f) ++ rest
      → HasHeader f
      → (i : ℕ) × (find s (codes "\r\n\r\n") ≡ some i) × (i + 4 ≡ length (block (part_lines f)))
  header_found s rest f e fits =
      let (i, found, size) =
        find-block (disposition_line f) (type_lines f.content_type) rest
          (part_lines-IsLine f fits) in
      (i, ap (λ t. find t (codes "\r\n\r\n")) e ∙ found, size)

  header_whole :
      (s rest : Text) (f : Field) (pos : ℕ)
      → s ≡ block (part_lines f) ++ rest
      → HasHeader f
      → find (take k s) (codes "\r\n\r\n") ≡ some pos
      → take (pos + 4) (take k s) ≡ block (part_lines f)
  header_whole s rest f pos e fits h =
      let lines = block (part_lines f) in
      let (i, found, size) = header_found s rest f e fits in
      let same : pos ≡ i = some_eq (sym (find-take k s 13 (codes "\n\r\n") pos h) ∙ found) in
      take-take_length (pos + 4) k s (find_bound (take k s) (codes "\r\n\r\n") h)
      ∙ ap (λ n. take n s) {y = length lines} (omega arith)
      ∙ ap (take (length lines)) e
      ∙ take-append lines rest

  block_pos : (f : Field) (rest : Text) → HasHeader f → 0 < length (block (part_lines f))
  block_pos f rest fits =
      let (i, found, size) = header_found _ rest f refl fits in omega (arith, size)

  header_taken :
      (r : Reader) (s : Text) (f : Field) (todo : List Field) (o : Reader × ℕ × Option Error)
      → s ≡ block (part_lines f) ++ content_bytes r.boundary f.content todo
      → r.body.fields ++ f ∷ todo ≡ fields
      → All (IsField r.boundary) (f ∷ todo)
      → o ≡ (with_field r boundary_content (headed f), length (block (part_lines f)), none)
      → Moves fields k s o
  unfolding appended
  header_taken r s f todo o e done all h = subst (Moves fields k s) (sym h) (
    (
      f.content,
      todo,
      done,
      all.1,
      all.0.1,
      ap (drop (length (block (part_lines f)))) e ∙ drop-append (block (part_lines f)) _,
    ),
    inl (refl, inl (block_pos f [] all.0.0)),
  )

  pub header-Moves :
      (r : Reader) (s : Text) (f : Field) (todo : List Field)
      → Expects fields r s
      → r.body.fields ++ f ∷ todo ≡ fields
      → All (IsField r.boundary) (f ∷ todo)
      → s ≡ block (part_lines f) ++ content_bytes r.boundary f.content todo
      → Moves fields k s (put_boundary_header boost r (take k s))
  header-Moves r s f todo here done all e =
      elim (Option-cases (find (take k s) (codes "\r\n\r\n"))) [
        | inl h ↦
            subst (Moves fields k s) (sym (header_missing r (take k s) h))
              (here, inr (refl, missing (dec_lt k (length s)) h))
        | inr (pos, h) ↦
            header_taken r s f todo (put_boundary_header boost r (take k s)) e done all
              (header_result r (take k s) pos f h (header_whole s _ f pos e all.0.0 h) all.0.0)
      ]
    where
      missing : Dec (k < length s) → find (take k s) (codes "\r\n\r\n") ≡ none → k < length s
      missing (yes l) h = l
      missing (no l) h =
          let (i, found, size) = header_found s _ f e all.0.0 in
          let same = ap (λ t. find t (codes "\r\n\r\n")) (take_all k s (omega arith)) in
          absurd (cc (found, h, same))
