-- ===== src/Bodies/FormData/Reader/Headers.antt =====
-- The header of a part as the writer makes it, and what the reader makes of it.
use mathlib.Core.Option
use httplib.Base.{
  ℕ, suc, ◌+◌, ◌≤◌, ◌<◌, ◌≡◌, ◌≢◌, refl, sym, ap, ◌∙◌, subst, true, false, Option, none, some, List,
  [], ◌∷◌, ◌++◌, ◌>>=◌, append_assoc, append-nil, arith, if◌then◌else◌, Text, codes, length, take,
  drop, null, find, Lacks, Lacks-lacks, All, All-append, All-append_left, length-append,
}
use httplib.Util.Trim.{Trimming, StartsClean, EndsClean, trim_id, trim_after_space}
use httplib.Bodies.FormData.{Field}
use httplib.Bodies.FormData.Writer.{disposition_line}
use httplib.Bodies.FormData.Disposition.{
  parse_from, parse_content_disposition, skip_semicolon, skip_spaces, header_lines,
  split_header_field_value,
}
use httplib.Bodies.FormData.Disposition.Pairs.{Quotable, parse_from-pair}
use httplib.Bodies.FormData.Disposition.Lines.{block, header_lines-line, split_header-block}
use httplib.Bodies.FormData.Reader.HeaderLines.{
  HasHeader, disposition-EndsClean, type_lines, part_lines, part_lines-IsLine,
}
use httplib.Bodies.FormData.Reader.{no_field, name_pairs, disposition, header_item, header_items}

abbrev filename_part : Text → Text
filename_part filename =
    if null filename then [] else codes "; filename" ++ 61 ∷ 34 ∷ (filename ++ 34 ∷ [])

-- The parameters of the disposition, behind its `;`.
abbrev parameters : Field → Text
parameters f = codes " name" ++ 61 ∷ 34 ∷ (f.name ++ 34 ∷ filename_part f.filename)

abbrev disposition_value : Field → Text
disposition_value f = codes "form-data" ++ 59 ∷ parameters f

disposition-line :
    (f : Field) → disposition_line f ≡ codes "Content-Disposition" ++ 58 ∷ 32 ∷ disposition_value f
unfolding disposition_line
disposition-line f =
    ap (λ t. codes "Content-Disposition: form-data; name=\"" ++ t)
      (append_assoc f.name (34 ∷ []) (filename_part f.filename))

-- The field as its header gives it, its content still to come.
abbrev pub headed : Field → Field
headed f = record {
  name = f.name;
  filename = f.filename;
  content_type = f.content_type;
  content = [];
}

module _ (boost : Trimming) where
  trim_name : boost.trim (codes " name") ≡ codes "name"
  trim_name = trim_after_space boost (codes "name") refl refl

  read_filename :
      (fuel : ℕ) (filename : Text)
      → Quotable filename
      → parse_from boost (suc (suc fuel)) (skip_spaces (skip_semicolon (filename_part filename)))
        ≡ some (if null filename then [] else (codes "filename", filename) ∷ [])
  unfolding parse_from skip_spaces skip_semicolon
  read_filename fuel [] q = refl
  read_filename fuel (x ∷ filename) q =
      parse_from-pair boost (suc fuel) 102 (codes "ilename") (x ∷ filename) []
        (Lacks-lacks 61 (codes "filename") refl) q
      ∙ ap (λ k. some ((k, x ∷ filename) ∷ [])) (trim_id boost (codes "filename") refl refl)

  abbrev pairs_of : Field → List (Text × Text)
  pairs_of f =
      (codes "name", f.name) ∷ (if null f.filename then [] else (codes "filename", f.filename) ∷ [])

  some_eq : {a b : List (Text × Text)} → some a ≡ some b → a ≡ b
  some_eq e = cc

  read_parameters :
      (f : Field)
      → Quotable f.name
      → Quotable f.filename
      → parse_content_disposition boost (parameters f) ≡ pairs_of f
  unfolding parse_content_disposition
  read_parameters f p q =
      ap (λ o. Option.get_or o [])
        (parse_from-pair boost (length (parameters f)) 32 (codes "name") f.name
            (filename_part f.filename) (Lacks-lacks 61 (codes " name") refl) p
          ∙ ap (Option.map (λ more. (boost.trim (codes " name"), f.name) ∷ more)) (
              read_filename (length (codes "ame=\"" ++ (f.name ++ 34 ∷ filename_part f.filename)))
                f.filename q)
          ∙ ap
              (λ k. some (
                (k, f.name)
                ∷ (if null f.filename then [] else (codes "filename", f.filename) ∷ [])))
              trim_name)

  abbrev named : Field → Field
  named f = record { name = f.name; filename = f.filename; content_type = []; content = [] }

  names_read : (f : Field) → name_pairs (pairs_of f) no_field ≡ named f
  unfolding name_pairs httplib.Base.eq_text
  names_read f = by_filename f.filename
    where
      by_filename :
          (filename : Text)
          → name_pairs
              ((codes "name", f.name)
                ∷ (if null filename then [] else (codes "filename", filename) ∷ []))
              no_field
            ≡ record { name = f.name; filename = filename; content_type = []; content = [] }
      by_filename [] = refl
      by_filename (x ∷ filename) = refl

  disposition_read :
      (f : Field)
      → Quotable f.name
      → Quotable f.filename
      → disposition boost (disposition_value f) no_field ≡ some (named f)
  unfolding disposition find httplib.Base.eq_text httplib.Base.starts_with
  disposition_read f p q =
      rw (trim_id boost (codes "form-data") refl refl, read_parameters f p q, names_read f) refl

  abbrev type_items : Text → List (Text × Text)
  type_items content_type =
      if null content_type then [] else (codes "Content-Type", content_type) ∷ []

  type_read :
      (content_type : Text)
      → StartsClean content_type
      → EndsClean content_type
      → header_lines boost (type_lines content_type ++ [] ∷ []) ≡ some (type_items content_type)
  unfolding header_lines
  type_read [] h k = refl
  type_read (x ∷ content_type) h k =
      header_lines-line boost 67 (codes "ontent-Type") (32 ∷ x ∷ content_type) ([] ∷ [])
        (Lacks-lacks 58 (codes "Content-Type") refl)
      ∙ rw
          (
            trim_id boost (codes "Content-Type") refl refl,
            trim_after_space boost (x ∷ content_type) h k,
          )
          refl

  ends_after : (s : Text) (x : ℕ) (t : Text) → EndsClean (s ++ x ∷ t) → EndsClean (x ∷ t)
  ends_after [] x t h = h
  ends_after (c ∷ []) x t h = h
  ends_after (c ∷ d ∷ s) x t h = ends_after (d ∷ s) x t h

  value-EndsClean : (f : Field) → EndsClean (disposition_value f)
  value-EndsClean f =
      ends_after (codes "Content-Disposition: ") 102 (codes "orm-data" ++ 59 ∷ parameters f)
        (subst EndsClean (disposition-line f) (disposition-EndsClean f))

  lines_read :
      (f : Field)
      → HasHeader f
      → header_lines boost (part_lines f ++ [] ∷ [])
        ≡ some ((codes "Content-Disposition", disposition_value f) ∷ type_items f.content_type)
  lines_read f h =
      ap (λ line. header_lines boost (line ∷ type_lines f.content_type ++ [] ∷ []))
        (disposition-line f)
      ∙ header_lines-line boost 67 (codes "ontent-Disposition") (32 ∷ disposition_value f)
          (type_lines f.content_type ++ [] ∷ []) (Lacks-lacks 58 (codes "Content-Disposition") refl)
      ∙ rw
          (
            type_read f.content_type h.type_starts h.type_ends,
            trim_id boost (codes "Content-Disposition") refl refl,
            trim_after_space boost (disposition_value f) refl (value-EndsClean f),
          )
          refl

  type_set :
      (f : Field) (content_type : Text)
      → header_items boost (type_items content_type) (named f)
        ≡ some record {
          name = f.name;
          filename = f.filename;
          content_type = content_type;
          content = [];
        }
  unfolding header_items header_item httplib.Base.eq_text
  type_set f [] = refl
  type_set f (x ∷ content_type) = refl

  items_read :
      (f : Field)
      → HasHeader f
      → header_items boost
          ((codes "Content-Disposition", disposition_value f) ∷ type_items f.content_type)
          no_field
        ≡ some (headed f)
  unfolding header_items header_item httplib.Base.eq_text
  items_read f h =
      ap (λ o. o >>= λ g. header_items boost (type_items f.content_type) g)
        (disposition_read f h.name_fits.0 h.filename_fits.0)
      ∙ type_set f f.content_type

  pub header_read :
      (f : Field)
      → HasHeader f
      → split_header_field_value boost (block (part_lines f))
          >>= (λ results. header_items boost results no_field)
        ≡ some (headed f)
  header_read f h =
      ap (λ o. o >>= (λ results. header_items boost results no_field))
        (split_header-block boost (disposition_line f) (type_lines f.content_type)
          (part_lines-IsLine f h))
      ∙ ap (λ o. o >>= (λ results. header_items boost results no_field)) (lines_read f h)
      ∙ items_read f h
