-- ===== src/Bodies/FormData/Reader/Puts.antt =====
-- What holds of every call of `put`, on any bytes.
use httplib.Base.{
  ℕ, zero, suc, ◌+◌, ◌≤◌, ◌≡◌, ◌⊎◌, refl, sym, true, false, Option, none, some, List, [], ◌∷◌, ◌++◌,
  ◌>>=◌, append-nil, inl, inr, arith, ltb, if◌then◌else◌, Text, codes, length, take, find,
  starts_with, Option-cases, Bool-cases,
}
use httplib.Util.Trim.{Trimming}
use httplib.Util.Split.Total.{starts_with_length, find_bound}
use httplib.Bodies.FormData.{Field}
use httplib.Bodies.FormData.Disposition.{split_header_field_value}
use httplib.Bodies.FormData.Reader.{
  Reader, Step, boundary_line, boundary_header, boundary_content, finshed, eof, Error, need_more,
  unexpected_body, at_step, with_field, pushed, appended, no_field, header_items, put_boundary_line,
  put_boundary_header, put_boundary_content, put_finshed, put_at, put,
}

-- A call that sets an error changes nothing and takes nothing; any call takes at most what it was
-- given and puts at most one field behind those that there were.
abbrev pub IsFair : Reader → Text → Reader × ℕ × Option Error → Type 0
IsFair r s (next, n, e) =
    (n ≤ length s)
    × ((e ≡ none) ⊎ ((next ≡ r) × (n ≡ 0)))
    × ((more : List Field) × (next.body.fields ≡ r.body.fields ++ more) × (length more ≤ 1))

length-take_le : (k : ℕ) (s : Text) → length (take k s) ≤ length s
length-take_le zero s = omega arith
length-take_le (suc k) [] = omega arith
length-take_le (suc k) (x ∷ s) = omega (arith, length-take_le k s)

module _ (r : Reader) (s : Text) where
  failed : (e : Error) → IsFair r s (r, 0, some e)
  failed e = (omega arith, inr (refl, refl), ([], sym (append-nil r.body.fields), omega arith))

  moved : (step : Step) (n : ℕ) → n ≤ length s → IsFair r s (at_step r step, n, none)
  moved step n h = (h, inl refl, ([], sym (append-nil r.body.fields), omega arith))

  changed :
      (step : Step) (f : Field) (n : ℕ) → n ≤ length s → IsFair r s (with_field r step f, n, none)
  changed step f n h = (h, inl refl, ([], sym (append-nil r.body.fields), omega arith))

  finished : 2 ≤ length s → IsFair r s (pushed r, 2, none)
  unfolding pushed
  finished h = (h, inl refl, (r.field_data ∷ [], refl, omega arith))

  boundary_line-IsFair : IsFair r s (put_boundary_line r s)
  unfolding put_boundary_line
  boundary_line-IsFair =
      let line = codes "--" ++ (r.boundary ++ codes "\r\n") in
      let line_last = codes "--" ++ (r.boundary ++ codes "--") in
      let most = if ltb (length line) (length line_last) then length line_last else length line in
      elim (Bool-cases (ltb (length s) most)) [
        | inl h ↦ rw (h, put_boundary_line) (failed need_more)
        | inr h ↦ elim (Bool-cases (starts_with s line)) [
          | inl k ↦
              rw (h, k, put_boundary_line)
                (moved boundary_header (length line) (starts_with_length s line k))
          | inr k ↦ elim (Bool-cases (starts_with s line_last)) [
            | inl l ↦
                rw (h, k, l, put_boundary_line)
                  (moved finshed (length line_last) (starts_with_length s line_last l))
            | inr l ↦ rw (h, k, l, put_boundary_line) (failed unexpected_body)
          ]
        ]
      ]

  finshed-IsFair : IsFair r s (put_finshed r s)
  unfolding put_finshed
  finshed-IsFair = elim (Bool-cases (ltb (length s) 2)) [
    | inl h ↦ rw (h, put_finshed) (failed need_more)
    | inr h ↦ elim (Bool-cases (starts_with s (codes "\r\n"))) [
      | inl k ↦ rw (h, k, put_finshed) (moved eof 2 (starts_with_length s (codes "\r\n") k))
      | inr k ↦ rw (h, k, put_finshed) (failed unexpected_body)
    ]
  ]

  return-IsFair : starts_with s (codes "\r") ≡ true → IsFair r s (put_boundary_content r s)
  unfolding put_boundary_content
  return-IsFair e =
      let end = codes "\r\n--" ++ r.boundary in
      elim (Bool-cases (ltb (length s) (length end))) [
        | inl h ↦ rw (e, h, put_boundary_content) (failed need_more)
        | inr h ↦ elim (Bool-cases (starts_with s end)) [
          | inl k ↦
              rw (e, h, k, put_boundary_content)
                (finished (omega (arith, starts_with_length s end k)))
          | inr k ↦
              rw (e, h, k, put_boundary_content)
                (changed r.step (appended r.field_data (codes "\r")) 1
                  (starts_with_length s (codes "\r") e))
        ]
      ]

  plain-IsFair : starts_with s (codes "\r") ≡ false → IsFair r s (put_boundary_content r s)
  unfolding put_boundary_content
  plain-IsFair f = elim (Option-cases (find s (codes "\r"))) [
    | inl e ↦
        rw (f, e, put_boundary_content)
          (changed r.step (appended r.field_data s) (length s) (omega arith))
    | inr (pos, e) ↦
        rw (f, e, put_boundary_content)
          (changed r.step (appended r.field_data (take pos s)) pos
            (omega (arith, find_bound s (codes "\r") e)))
  ]

  boundary_content-IsFair : IsFair r s (put_boundary_content r s)
  boundary_content-IsFair = elim (Bool-cases (starts_with s (codes "\r"))) [
    | inl h ↦ return-IsFair h
    | inr h ↦ plain-IsFair h
  ]

  header_field :
      (n : ℕ) (o : Option Field)
      → n ≤ length s
      → IsFair r s (elim o [
        | none ↦ (r, 0, some unexpected_body)
        | some field_data ↦ (with_field r boundary_content field_data, n, none)
      ])
  header_field n none h = failed unexpected_body
  header_field n (some f) h = changed boundary_content f n h

  boundary_header-IsFair : (boost : Trimming) → IsFair r s (put_boundary_header boost r s)
  unfolding put_boundary_header
  boundary_header-IsFair boost = elim (Option-cases (find s (codes "\r\n\r\n"))) [
    | inl e ↦ rw (e, put_boundary_header) (failed need_more)
    | inr (pos, e) ↦
        rw (e, put_boundary_header)
          (header_field (length (take (pos + 4) s))
            (split_header_field_value boost (take (pos + 4) s)
              >>= (λ results. header_items boost results no_field))
            (length-take_le (pos + 4) s))
  ]

-- Whatever the reader's step and the bytes are, a call of `put` that sets an error changes nothing and
-- takes nothing, and any call takes at most what it was given and puts at most one field behind those
-- that there were.
pub put-IsFair : (boost : Trimming) (r : Reader) (s : Text) → IsFair r s (put boost r s)
unfolding put
put-IsFair boost r s = by_step r.step
  where
    by_step : (step : Step) → IsFair r s (put_at boost step r s)
    by_step boundary_line = boundary_line-IsFair r s
    by_step boundary_header = boundary_header-IsFair r s boost
    by_step boundary_content = boundary_content-IsFair r s
    by_step finshed = finshed-IsFair r s
    by_step eof = failed r s unexpected_body
