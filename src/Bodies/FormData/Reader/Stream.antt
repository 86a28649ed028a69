-- ===== src/Bodies/FormData/Reader/Stream.antt =====
-- The bytes that a form is sent as, and what a reader that has taken the first of them still
-- waits for.
use httplib.Base.{
  ℕ, ◌<◌, ◌≡◌, ◌⊎◌, Option, none, some, List, [], ◌∷◌, ◌++◌, Text, codes, length, take, drop, find,
  All,
}
use httplib.Bodies.FormData.{Field}
use httplib.Bodies.FormData.Writer.{header_text}
use httplib.Bodies.FormData.Disposition.Lines.{block}
use httplib.Bodies.FormData.Reader.{
  Reader, Step, boundary_line, boundary_header, boundary_content, finshed, eof, Error, need_more,
  appended,
}
use httplib.Bodies.FormData.Reader.HeaderLines.{HasHeader, part_lines}

-- What ends the content of a field.
abbrev pub mark : Text → Text
mark boundary = codes "\r\n--" ++ boundary

-- No mark is met before the end of the content.
abbrev pub EndsAtMark : Text → Text → Type 0
EndsAtMark boundary content =
    find (content ++ mark boundary) (mark boundary) ≡ some (length content)

-- A field that can be sent with the boundary.
abbrev pub IsField : Text → Field → Type 0
IsField boundary f = HasHeader f × EndsAtMark boundary f.content

unfoldable pub written_fields : Text → List Field → Text
unfolding header_text
written_fields boundary [] = codes "--" ++ (boundary ++ codes "--\r\n")
written_fields boundary (f ∷ fields) =
    header_text boundary f ++ (f.content ++ (codes "\r\n" ++ written_fields boundary fields))

abbrev pub content_bytes : Text → Text → List Field → Text
content_bytes boundary rest todo = rest ++ (codes "\r\n" ++ written_fields boundary todo)

-- By the step of the reader, its fields so far and the field it is in.
abbrev pub Waits : Text → List Field → Step → List Field → Field → Text → Type 0
Waits boundary fields boundary_line done current s =
    (todo : List Field) × (done ++ todo ≡ fields)
    × All (IsField boundary) todo
    × (s ≡ written_fields boundary todo)
Waits boundary fields boundary_header done current s =
    (f : Field) × (todo : List Field) × (done ++ f ∷ todo ≡ fields)
    × All (IsField boundary) (f ∷ todo)
    × (s ≡ block (part_lines f) ++ content_bytes boundary f.content todo)
Waits boundary fields boundary_content done current s =
    (rest : Text) × (todo : List Field) × (done ++ appended current rest ∷ todo ≡ fields)
    × All (IsField boundary) todo
    × EndsAtMark boundary rest
    × (s ≡ content_bytes boundary rest todo)
Waits boundary fields finshed done current s = (done ≡ fields) × (s ≡ codes "\r\n")
Waits boundary fields eof done current s = (done ≡ fields) × (s ≡ [])

abbrev pub Expects : List Field → Reader → Text → Type 0
Expects fields r s = Waits r.boundary fields r.step r.body.fields r.field_data s

-- What a call of `put` on the first `k` bytes may have done: the reader expects what the call left,
-- and the call took something or there was nothing to take, or it asks for more.
abbrev pub Moves : List Field → ℕ → Text → Reader × ℕ × Option Error → Type 0
Moves fields k s (r, n, e) =
    Expects fields r (drop n s)
    × (((e ≡ none) × ((0 < n) ⊎ (take k s ≡ []))) ⊎ ((e ≡ some need_more) × (k < length s)))
