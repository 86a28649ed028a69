-- ===== src/Bodies/FormData/RoundTrip.antt =====
-- A form that is written is read back.
use httplib.Base.{
  ℕ, zero, suc, ◌≤◌, ◌<◌, ◌≡◌, ◌≢◌, ◌⊎◌, refl, ap, ◌∙◌, Option, none, some, List, [], ◌∷◌, inl, inr,
  arith, Text, length, take, drop, All, length-drop,
}
use httplib.Util.Trim.{Trimming}
use httplib.Bodies.FormData.{Field, FormData}
use httplib.Bodies.FormData.Writer
use httplib.Bodies.FormData.Writer.Drained.{drain, calls_for, drain-written_fields}
use httplib.Bodies.FormData.Reader.{Reader, Error, need_more, reader, init, put, finish}
use httplib.Bodies.FormData.Reader.Stream.{IsField, written_fields, Expects}
use httplib.Bodies.FormData.Reader.Runs.{put-Moves, feed, Expects-nil, Moves-goes_on}
use httplib.Bodies.FormData.ContentType.{IsBoundary, content_type_of, started, init-content_type}

-- The same size for a number of chunks.
abbrev pub chunks : ℕ → ℕ → List ℕ
chunks zero size = []
chunks (suc count) size = size ∷ chunks count size

take_whole : (size : ℕ) (c : ℕ) (s : Text) → length (c ∷ s) ≤ size → take size (c ∷ s) ≢ []
take_whole zero c s h e = absurd (omega arith)
take_whole (suc size) c s h e = cc

module _ (boost : Trimming) (fields : List Field) (size : ℕ) where
  -- With all that is left in each chunk, every call takes something.
  feed_whole :
      (count : ℕ) (r : Reader) (s : Text)
      → Expects fields r s
      → length s ≤ count
      → length s ≤ size
      → (t : Reader) × (feed boost (chunks count size) r s ≡ some (t, [])) × Expects fields t []
  unfolding feed
  feed_whole zero r [] h a b = (r, refl, h)
  feed_whole zero r (c ∷ s) h a b = absurd (omega arith)
  feed_whole (suc count) r [] h a b = (r, refl, h)
  feed_whole (suc count) r (c ∷ s) h a b =
      let after = put boost r (take size (c ∷ s)) in
      let moves = put-Moves boost fields r (c ∷ s) size h (λ e. cc) in
      let taken : 0 < after.1 = progress after moves.1 in
      let (t, e, more) =
        feed_whole count after.0 (drop after.1 (c ∷ s)) moves.0
          (omega (arith, length-drop after.1 (c ∷ s)))
          (omega (arith, length-drop after.1 (c ∷ s))) in
      (t, rw (Moves-goes_on fields size (c ∷ s) after moves) e, more)
    where
      progress :
          (o : Reader × ℕ × Option Error)
          → ((o.2 ≡ none) × ((0 < o.1) ⊎ (take size (c ∷ s) ≡ [])))
            ⊎ ((o.2 ≡ some need_more) × (size < length (c ∷ s)))
          → 0 < o.1
      progress o (inl (e, inl p)) = p
      progress o (inl (e, inr p)) = absurd (take_whole size c s b p)
      progress o (inr (e, p)) = absurd (omega arith)

abbrev pub empty_form : FormData
empty_form = record { fields = []; boundary = [] }

abbrev pub Sendable : FormData → Type 0
Sendable form = IsBoundary form.boundary × All (IsField form.boundary) form.fields

start-Expects :
    (form : FormData)
    → Sendable form
    → Expects form.fields
        (started form.boundary empty_form)
        (written_fields form.boundary form.fields)
start-Expects form h = (form.fields, refl, h.1, refl)

-- A form with a field or more, whose boundary is not empty, has no semicolon or equals sign and neither
-- starts nor ends with a space, whose names and file names have no quote, backslash or carriage
-- return, whose content types are clean lines and whose contents do not meet the boundary early, is
-- sent and read back: the writer's calls of `get`, three for each field, give a text, and a reader on
-- the content type that goes with it, given all that is left at each call of `put`, takes the whole
-- text without an error, has the same fields then and finishes without an error.
pub drain-feed :
    (boost : Trimming) (form : FormData)
    → form.fields ≢ []
    → Sendable form
    → (text : Text) × (r : Reader) × (drain
          (calls_for form.fields)
          (Writer.init (Writer.writer form))
        ≡ some text)
      × (feed boost
            (chunks (length text) (length text))
            (init boost (reader (content_type_of form.boundary) empty_form)).0
            text
          ≡ some (r, []))
      × (r.body.fields ≡ form.fields)
      × (finish r ≡ none)
drain-feed boost form some_field h =
    let text = written_fields form.boundary form.fields in
    let (r, e, over) =
      feed_whole boost form.fields (length text) (length text) (started form.boundary empty_form)
        text (start-Expects form h) (omega arith) (omega arith) in
    let (same, ends) = Expects-nil form.fields r over in
    (
      text,
      r,
      drain-written_fields form some_field,
      ap (λ o. feed boost (chunks (length text) (length text)) o.0 text)
            (init-content_type boost form.boundary empty_form h.0)
          ∙ e,
      same,
      ends,
    )
