-- ===== src/Bodies/AnyBody/Coded.antt =====
-- Forms behind a compressor.
use httplib.Base.{
  ℕ, ◌+◌, ◌≤◌, ap, true, Option, some, List, [], ◌∷◌, arith, inl, inr, Text, length, length-append,
  null, Bool-cases,
}
use httplib.Util.Trim.{Trimming}
use httplib.Bodies.FormData.Reader
use httplib.Bodies.FormData.Reader.{Reader, Error}
use httplib.Bodies.FormData.Reader.Puts.{put-IsFair}
use httplib.Bodies.AnyBody.{
  Filter, Compressor, ProxyReader, put_decoded, put, finish, write_coded, finish_coded,
}

-- The reader of forms as a reader behind the body.
abbrev pub form_reader : Trimming → ProxyReader Error
form_reader boost = record { State = Reader; put = Reader.put boost; finish = Reader.finish }

abbrev pub field_count : Reader → ℕ
field_count r = length r.body.fields

module _ (boost : Trimming) (F : Filter) where
  -- The chunks of a body, one call of `put` each.
  unfoldable pub put_all :
      Reader × Option (Compressor F) → List Text → Reader × Option (Compressor F)
  unfolding put
  put_all b [] = b
  put_all b (chunk ∷ chunks) = put_all (put F (form_reader boost) b chunk).0 chunks

  put-count : (r : Reader) (s : Text) → field_count (Reader.put boost r s).0 ≤ field_count r + 1
  put-count r s =
      let (more, e, few) = (put-IsFair boost r s).2 in
      omega (arith, ap (λ fields. length fields) e, length-append r.body.fields more, few)

  put_decoded-count :
      (r : Reader) (c : Compressor F)
      → field_count (put_decoded F (form_reader boost) r c).0 ≤ field_count r + 1
  unfolding put_decoded
  put_decoded-count r c = elim (Bool-cases (null c.buffer)) [
    | inl e ↦ rw (e, put_decoded) (omega arith)
    | inr e ↦ rw (e, put_decoded) (put-count r c.buffer)
  ]

-- With a compressor every chunk of a body is one call of the form's reader, and so is its end:
-- whatever the filter passes on, no more fields are read than there are chunks and one.
pub finish-field_count :
    (boost : Trimming) (F : Filter) (chunks : List Text) (r : Reader) (c : Compressor F)
    → field_count (finish F (form_reader boost) (put_all boost F (r, some c) chunks)).0
      ≤ field_count r + length chunks + 1
unfolding finish put_all put
finish-field_count boost F [] r c = omega (arith, put_decoded-count boost F r (finish_coded c))
finish-field_count boost F (chunk ∷ chunks) r c =
    let written = write_coded c chunk true in
    let after = put_decoded F (form_reader boost) r written in
    omega (
      arith,
      finish-field_count boost F chunks after.0 after.1,
      put_decoded-count boost F r written,
    )
