-- ===== src/Bodies/FormData/Reader/HeaderLines.antt =====
-- The lines of a part's header as the writer makes them.
use httplib.Base.{
  ℕ, ◌<◌, ◌≡◌, refl, sym, ap, ◌∙◌, subst, List, [], ◌∷◌, ◌++◌, append_assoc, append-nil, arith,
  if◌then◌else◌, Text, codes, length, null, Lacks, Lacks-lacks, Lacks-append, All,
}
use httplib.Util.Trim.{StartsClean, EndsClean, EndsClean-append}
use httplib.Bodies.FormData.{Field}
use httplib.Bodies.FormData.Writer.{disposition_line, header_text}
use httplib.Bodies.FormData.Disposition.Pairs.{Quotable}
use httplib.Bodies.FormData.Disposition.Lines.{block, IsLine}

-- What can be written between quotes on one line.
abbrev IsQuotable : Text → Type 0
IsQuotable s = Quotable s × Lacks 13 s

-- What a field may be for its header to be read back.
pub record HasHeader (field : Field) : Type 0 where
  pub name_fits : IsQuotable field.name
  pub filename_fits : IsQuotable field.filename
  pub type_line : Lacks 13 field.content_type
  pub type_starts : StartsClean field.content_type
  pub type_ends : EndsClean field.content_type

-- The lines of the header, the empty one aside.
abbrev pub type_lines : Text → List Text
type_lines content_type =
    if null content_type then [] else (codes "Content-Type" ++ 58 ∷ 32 ∷ content_type) ∷ []

abbrev pub part_lines : Field → List Text
part_lines f = disposition_line f ∷ type_lines f.content_type

pub disposition-EndsClean : (f : Field) → EndsClean (disposition_line f)
unfolding disposition_line
disposition-EndsClean f = by_filename f.filename
  where
    start : Text
    start = codes "Content-Disposition: form-data; name=\"" ++ f.name

    closed :
        start ++ 34 ∷ [] ≡ codes "Content-Disposition: form-data; name=\"" ++ (f.name ++ 34 ∷ [])
    closed = append_assoc (codes "Content-Disposition: form-data; name=\"") f.name (34 ∷ [])

    by_filename :
        (filename : Text)
        → EndsClean (
            (codes "Content-Disposition: form-data; name=\"" ++ (f.name ++ 34 ∷ []))
            ++ (if null filename then [] else codes "; filename=\"" ++ (filename ++ 34 ∷ [])))
    by_filename [] =
        subst EndsClean
          (closed
            ∙ sym (
                append-nil
                  (codes "Content-Disposition: form-data; name=\"" ++ (f.name ++ 34 ∷ []))))
          (EndsClean-append start 34 refl)
    by_filename (x ∷ filename) =
        subst EndsClean
          (append_assoc (codes "Content-Disposition: form-data; name=\"" ++ (f.name ++ 34 ∷ []))
            (codes "; filename=\"" ++ x ∷ filename) (34 ∷ []))
          (EndsClean-append
            ((codes "Content-Disposition: form-data; name=\"" ++ (f.name ++ 34 ∷ []))
              ++ (codes "; filename=\"" ++ x ∷ filename))
            34 refl)

disposition-Lacks :
    (f : Field) → Lacks 13 f.name → Lacks 13 f.filename → Lacks 13 (disposition_line f)
unfolding disposition_line
disposition-Lacks f h k =
    Lacks-append 13 (codes "Content-Disposition: form-data; name=\"" ++ (f.name ++ 34 ∷ []))
      (if null f.filename then [] else codes "; filename=\"" ++ (f.filename ++ 34 ∷ []))
      (Lacks-append 13 (codes "Content-Disposition: form-data; name=\"") (f.name ++ 34 ∷ [])
        (Lacks-lacks 13 (codes "Content-Disposition: form-data; name=\"") refl)
        (Lacks-append 13 f.name (34 ∷ []) h (Lacks-lacks 13 (34 ∷ []) refl)))
      (by_filename f.filename k)
  where
    by_filename :
        (filename : Text)
        → Lacks 13 filename
        → Lacks 13 (if null filename then [] else codes "; filename=\"" ++ (filename ++ 34 ∷ []))
    by_filename [] h = tt
    by_filename (x ∷ filename) h =
        Lacks-append 13 (codes "; filename=\"") (x ∷ filename ++ 34 ∷ [])
          (Lacks-lacks 13 (codes "; filename=\"") refl)
          (Lacks-append 13 (x ∷ filename) (34 ∷ []) h (Lacks-lacks 13 (34 ∷ []) refl))

pub EndsClean-behind : (s : Text) (x : ℕ) (t : Text) → EndsClean (x ∷ t) → EndsClean (s ++ x ∷ t)
EndsClean-behind [] x t h = h
EndsClean-behind (c ∷ []) x t h = h
EndsClean-behind (c ∷ d ∷ s) x t h = EndsClean-behind (d ∷ s) x t h

disposition-StartsClean : (f : Field) → StartsClean (disposition_line f)
unfolding disposition_line
disposition-StartsClean f = refl

disposition-pos : (f : Field) → 0 < length (disposition_line f)
unfolding disposition_line
disposition-pos f = omega arith

type_lines-IsLine :
    (content_type : Text)
    → Lacks 13 content_type
    → EndsClean content_type
    → All IsLine (type_lines content_type)
type_lines-IsLine [] h k = tt
type_lines-IsLine (x ∷ content_type) h k = (
  (
    Lacks-append 13 (codes "Content-Type: ") (x ∷ content_type)
        (Lacks-lacks 13 (codes "Content-Type: ") refl) h,
    refl,
    EndsClean-behind (codes "Content-Type: ") x content_type k,
    omega arith,
  ),
  tt,
)

pub part_lines-IsLine : (f : Field) → HasHeader f → All IsLine (part_lines f)
part_lines-IsLine f h = (
  (
    disposition-Lacks f h.name_fits.1 h.filename_fits.1,
    disposition-StartsClean f,
    disposition-EndsClean f,
    disposition-pos f,
  ),
  type_lines-IsLine f.content_type h.type_line h.type_ends,
)

-- The header that the writer sends for a field is the boundary line and those lines.
pub header_text-block :
    (boundary : Text) (f : Field)
    → header_text boundary f ≡ codes "--" ++ (boundary ++ codes "\r\n") ++ block (part_lines f)
unfolding header_text block
header_text-block boundary f =
    ap (λ t. codes "--" ++ (boundary ++ codes "\r\n") ++ t)
      (append_assoc (disposition_line f) (codes "\r\n") _
        ∙ ap (λ t. disposition_line f ++ 13 ∷ 10 ∷ t) (by_type f.content_type))
  where
    by_type :
        (content_type : Text)
        → (if null content_type
              then []
              else codes "Content-Type: " ++ (content_type ++ codes "\r\n"))
            ++ codes "\r\n"
          ≡ block (type_lines content_type)
    by_type [] = refl
    by_type (x ∷ content_type) =
        ap (λ t. codes "Content-Type: " ++ t)
          (append_assoc (x ∷ content_type) (codes "\r\n") (codes "\r\n"))
