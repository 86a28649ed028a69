-- ===== src/Bodies/FormData/Writer/Drained.antt =====
-- What the calls of `get` give until none is left.
use mathlib.Core.Option
use httplib.Base.{
  ℕ, zero, suc, ◌+◌, ◌-◌, ◌≡◌, ◌≢◌, refl, sym, ap, ◌∙◌, Bool, true, false, Option, none, some, List,
  [], ◌∷◌, ◌++◌, append_assoc, arith, if◌then◌else◌, ◌==◌, Text, codes, length, get_elem?,
  get_elem?-append, length-append,
}
use httplib.Bodies.FormData.{Field, FormData}
use httplib.Bodies.FormData.Writer.{
  Writer, Step, header, content, content_end, eof, writer, init, header_text, get_at, get,
}
use httplib.Bodies.FormData.Reader.Stream.{written_fields}

abbrev joined : Option (Text × Bool) → Option Text → Option Text
joined none rest = some []
joined (some (chunk, more)) rest = if more then Option.map (λ t. chunk ++ t) rest else some chunk

-- The bytes that the calls of `get` give, up to the one that says that it is the last; `none` where
-- the number of calls is too small.
unfoldable pub drain : ℕ → Writer → Option Text
unfolding get
drain zero w = none
drain (suc calls) w = joined (get w).1 (drain calls (get w).0)

drain-more :
    (calls : ℕ) (w next : Writer) (chunk text : Text)
    → get w ≡ (next, some (chunk, true))
    → drain calls next ≡ some text
    → drain (suc calls) w ≡ some (chunk ++ text)
unfolding drain
drain-more calls w next chunk text e rest =
    ap (λ o. joined o.1 (drain calls o.0)) e ∙ ap (joined (some (chunk, true))) rest

drain-last :
    (calls : ℕ) (w next : Writer) (chunk : Text)
    → get w ≡ (next, some (chunk, false))
    → drain (suc calls) w ≡ some chunk
unfolding drain
drain-last calls w next chunk e = ap (λ o. joined o.1 (drain calls o.0)) e

abbrev at_step : FormData → ℕ → Step → Writer
at_step body index step = record { body = body; field_data_index = index; step = step }

-- The three calls for one field.
module _ (body : FormData) (index : ℕ) (f : Field)
    (present : get_elem? body.fields index ≡ some f) where
  get-at : (step : Step) → get (at_step body index step) ≡ get_at (at_step body index step) f step
  unfolding get
  get-at step = rw (present, get) refl

  get-end_last :
      (index == length body.fields - 1) ≡ true
      → get (at_step body index content_end) ≡ (
        at_step body index eof,
        some (codes "\r\n" ++ (codes "--" ++ (body.boundary ++ codes "--\r\n")), false),
      )
  unfolding get_at
  get-end_last h = get-at content_end ∙ rw (h, get_at) refl

  get-end_more :
      (index == length body.fields - 1) ≡ false
      → get (at_step body index content_end)
        ≡ (at_step body (index + 1) header, some (codes "\r\n", true))
  unfolding get_at
  get-end_more h = get-at content_end ∙ rw (h, get_at) refl

  drain-field :
      (calls : ℕ) (text : Text)
      → drain calls (at_step body index content_end) ≡ some text
      → drain (suc (suc calls)) (at_step body index header)
        ≡ some (header_text body.boundary f ++ (f.content ++ text))
  unfolding get_at
  drain-field calls text rest =
      drain-more (suc calls) _ _ (header_text body.boundary f) (f.content ++ text) (get-at header)
        (drain-more calls _ _ f.content text (get-at content) rest)

-- Three calls for each field.
abbrev pub calls_for : List Field → ℕ
calls_for [] = 0
calls_for (f ∷ fields) = suc (suc (suc (calls_for fields)))

drain-written :
    (body : FormData) (done : List Field) (f : Field) (todo : List Field)
    → body.fields ≡ done ++ f ∷ todo
    → drain (calls_for (f ∷ todo)) (at_step body (length done) header)
      ≡ some (written_fields body.boundary (f ∷ todo))
unfolding written_fields
drain-written body done f [] e = drain-field body (length done) f present 1 _ (
    drain-last 0 (at_step body (length done) content_end) _ _
      (get-end_last body (length done) f present last))
  where
    present : get_elem? body.fields (length done) ≡ some f
    present =
        ap (λ fs. get_elem? fs (length done)) e
        ∙ ap (get_elem? (done ++ f ∷ [])) {y = length done + 0} (omega arith)
        ∙ get_elem?-append done (f ∷ []) 0

    last : (length done == length body.fields - 1) ≡ true
    last = ground (arith, ap length e, length-append done (f ∷ []))
drain-written body done f (g ∷ todo) e =
    drain-field body (length done) f present (suc (calls_for (g ∷ todo))) _ (
      drain-more (calls_for (g ∷ todo)) (at_step body (length done) content_end) _ (codes "\r\n")
        (written_fields body.boundary (g ∷ todo)) (get-end_more body (length done) f present more)
        (ap (λ n. drain (calls_for (g ∷ todo)) (at_step body n header)) {x = length done + 1}
            {y = length (done ++ f ∷ [])} (omega (arith, length-append done (f ∷ [])))
          ∙ drain-written body (done ++ f ∷ []) g todo
              (e ∙ sym (append_assoc done (f ∷ []) (g ∷ todo)))))
  where
    present : get_elem? body.fields (length done) ≡ some f
    present =
        ap (λ fs. get_elem? fs (length done)) e
        ∙ ap (get_elem? (done ++ f ∷ g ∷ todo)) {y = length done + 0} (omega arith)
        ∙ get_elem?-append done (f ∷ g ∷ todo) 0

    more : (length done == length body.fields - 1) ≡ false
    more = ground (arith, ap length e, length-append done (f ∷ g ∷ todo))

-- A writer for a form with a field or more, once initialised, gives its fields one after the other
-- in three calls each: the boundary line and the header, the content, and the end of the content,
-- behind which the last call puts the closing boundary.
pub drain-written_fields :
    (form : FormData)
    → form.fields ≢ []
    → drain (calls_for form.fields) (init (writer form))
      ≡ some (written_fields form.boundary form.fields)
unfolding init writer
drain-written_fields form some_field = by_fields form.fields refl some_field
  where
    by_fields :
        (fields : List Field)
        → form.fields ≡ fields
        → fields ≢ []
        → drain (calls_for fields) (at_step form 0 header)
          ≡ some (written_fields form.boundary fields)
    by_fields [] e h = absurd (h refl)
    by_fields (f ∷ fields) e h = drain-written form [] f fields e
