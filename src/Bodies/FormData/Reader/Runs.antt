-- ===== src/Bodies/FormData/Reader/Runs.antt =====
-- The calls of `put` over the bytes of a whole form, in chunks of any sizes.
use httplib.Base.{
  ℕ, ◌<◌, ◌≡◌, ◌≢◌, length-append, Bool, true, false, if◌then◌else◌, refl, ap, Option, none, some,
  List, [], ◌∷◌, ◌++◌, inl, inr, arith, Text, codes, length, take, drop,
}
use httplib.Util.Trim.{Trimming}
use httplib.Bodies.FormData.{Field, FormData}
use httplib.Bodies.FormData.Disposition.Lines.{block, block-pos}
use httplib.Bodies.FormData.Reader.HeaderLines.{part_lines}
use httplib.Bodies.FormData.Reader.{
  Reader, Step, boundary_line, boundary_header, boundary_content, finshed, eof, Error, need_more,
  at_step, put, put_at, finish,
}
use httplib.Bodies.FormData.Reader.Stream.{content_bytes, written_fields, Expects, Moves}
use httplib.Bodies.FormData.Reader.Steps.{line-Moves, finshed-Moves}
use httplib.Bodies.FormData.Reader.HeaderSteps.{header-Moves}
use httplib.Bodies.FormData.Reader.Contents.{content-Moves}

-- While bytes of the form are left, a call of `put` on the first `k` of them, whatever `k` is,
-- leaves a reader that expects what the call left of them; it sets no error and takes some bytes
-- unless `k` is 0, or it asks for more bytes, and then there are more to come.
pub put-Moves :
    (boost : Trimming) (fields : List Field) (r : Reader) (s : Text) (k : ℕ)
    → Expects fields r s
    → s ≢ []
    → Moves fields k s (put boost r (take k s))
unfolding put
put-Moves boost fields r s k here more = by_step r.step here
  where
    by_step :
        (step : Step)
        → Expects fields (at_step r step) s
        → Moves fields k s (put_at boost step (at_step r step) (take k s))
    by_step boundary_line h =
        let (todo, done, all, e) = h in
        line-Moves fields k (at_step r boundary_line) s todo h done all e
    by_step boundary_header h =
        let (f, todo, done, all, e) = h in
        header-Moves boost fields k (at_step r boundary_header) s f todo h done all e
    by_step boundary_content h =
        let (rest, todo, done, all, ends, e) = h in
        content-Moves fields k r s rest todo h e done all ends
    by_step finshed h = finshed-Moves fields k (at_step r finshed) s h h.0 h.1
    by_step eof h = absurd (more h.1)

-- The errors after which the calls go on.
unfoldable pub goes_on : Option Error → Bool
goes_on none = true
goes_on (some need_more) = true
goes_on (some _) = false

-- Calls of `put` on chunks of the given sizes, each on the bytes that are not taken yet, until none
-- is left; `none` stands for an error.
unfoldable pub feed : Trimming → List ℕ → Reader → Text → Option (Reader × Text)
unfolding put goes_on
feed boost [] r s = some (r, s)
feed boost (k ∷ ks) r [] = some (r, [])
feed boost (k ∷ ks) r (c ∷ s) =
    let after = put boost r (take k (c ∷ s)) in
    let rest = feed boost ks after.0 (drop after.1 (c ∷ s)) in
    if goes_on after.2 then rest else none

pub Moves-goes_on :
    (fields : List Field) (k : ℕ) (s : Text) (o : Reader × ℕ × Option Error)
    → Moves fields k s o
    → goes_on o.2 ≡ true
unfolding goes_on
Moves-goes_on fields k s (r, n, none) h = refl
Moves-goes_on fields k s (r, n, some e) (h, inl (a, b)) = cc
Moves-goes_on fields k s (r, n, some e) (h, inr (a, b)) = ap goes_on a

pub feed-Expects :
    (boost : Trimming) (fields : List Field) (ks : List ℕ) (r : Reader) (s : Text)
    → Expects fields r s
    → (t : Reader × Text) × (feed boost ks r s ≡ some t) × Expects fields t.0 t.1
unfolding feed
feed-Expects boost fields [] r s h = ((r, s), refl, h)
feed-Expects boost fields (k ∷ ks) r [] h = ((r, []), refl, h)
feed-Expects boost fields (k ∷ ks) r (c ∷ s) h =
    let after = put boost r (take k (c ∷ s)) in
    let moves = put-Moves boost fields r (c ∷ s) k h (λ e. cc) in
    let (t, e, more) = feed-Expects boost fields ks after.0 (drop after.1 (c ∷ s)) moves.0 in
    (t, rw (Moves-goes_on fields k (c ∷ s) after moves) e, more)

written_fields-pos : (b : Text) (fields : List Field) → 0 < length (written_fields b fields)
unfolding written_fields httplib.Bodies.FormData.Writer.header_text
written_fields-pos b [] = omega arith
written_fields-pos b (f ∷ fields) = omega arith

-- A reader that expects nothing more has all the fields and ends without an error.
pub Expects-nil :
    (fields : List Field) (r : Reader)
    → Expects fields r []
    → (r.body.fields ≡ fields) × (finish r ≡ none)
unfolding finish
Expects-nil fields r h = by_step r.step h
  where
    by_step :
        (step : Step)
        → Expects fields (at_step r step) []
        → (r.body.fields ≡ fields) × (finish (at_step r step) ≡ none)
    by_step boundary_line (todo, done, all, e) =
        absurd (omega (arith, ap length e, written_fields-pos r.boundary todo))
    by_step boundary_header (f, todo, done, all, e) = absurd (
        omega (
          arith,
          ap length e,
          block-pos (part_lines f),
          length-append (block (part_lines f)) (content_bytes r.boundary f.content todo),
        ))
    by_step boundary_content (rest, todo, done, all, ends, e) = absurd (
        omega
          (arith, ap length e, length-append rest (codes "\r\n" ++ written_fields r.boundary todo)))
    by_step finshed (done, e) = cc
    by_step eof (done, e) = (done, refl)
