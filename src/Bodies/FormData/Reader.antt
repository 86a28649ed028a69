-- ===== src/Bodies/FormData/Reader.antt =====
-- `form_data_body::reader` of lib/body/form_data_body.cpp. `put` returns the reader after the call,
-- the number of bytes taken and the error that it sets; the error is clear before each call.
pub mod Puts
pub mod Prefixes
pub mod HeaderLines
pub mod Headers
pub mod Stream
pub mod Steps
pub mod HeaderSteps
pub mod ContentSteps
pub mod Contents
pub mod Runs
use mathlib.Core.Option
use httplib.Base.{
  ℕ, ◌+◌, Bool, true, false, Option, none, some, List, [], ◌∷◌, ◌++◌, ◌>>=◌, ltb, if◌then◌else◌,
  Text, codes, length, take, drop, null, find, starts_with, eq_text,
}
use httplib.Util.Trim.{Trimming}
use httplib.Util.Split.{split}
use httplib.Bodies.FormData.{Field, FormData}
use httplib.Bodies.FormData.Disposition.{parse_content_disposition, split_header_field_value}

pub data Step : Type 0 where
  boundary_line : Step
  boundary_header : Step
  boundary_content : Step
  finshed : Step
  eof : Step

-- The values of `http::error` that the reader sets.
pub data Error : Type 0 where
  bad_field : Error
  need_more : Error
  unexpected_body : Error
  partial_message : Error

pub record Reader : Type 0 where
  pub body : FormData
  pub content_type : Text
  pub boundary : Text
  pub step : Step
  pub field_data : Field

abbrev pub no_field : Field
no_field = record { name = []; filename = []; content_type = []; content = [] }

-- The constructor, on the value of the field `Content-Type`.
unfoldable pub reader : Text → FormData → Reader
reader content_type body = record {
  body = body;
  content_type = content_type;
  boundary = [];
  step = boundary_line;
  field_data = no_field;
}

abbrev pub at_step : Reader → Step → Reader
at_step r step = record {
  body = r.body;
  content_type = r.content_type;
  boundary = r.boundary;
  step = step;
  field_data = r.field_data;
}

abbrev pub with_field : Reader → Step → Field → Reader
with_field r step field_data = record {
  body = r.body;
  content_type = r.content_type;
  boundary = r.boundary;
  step = step;
  field_data = field_data;
}

-- The second of exactly two parts.
unfoldable pub second_part : List Text → Option Text
second_part (a ∷ b ∷ []) = some b
second_part _ = none

module _ (boost : Trimming) where
  -- The loop over the parts of the content type; the last boundary found counts.
  unfoldable pub boundary_of : List Text → Text → Text
  unfolding starts_with split second_part
  boundary_of [] boundary = boundary
  boundary_of (part ∷ parts) boundary =
      let trimed_part = boost.trim part in
      let pair = second_part (split boost trimed_part (codes "=")) in
      boundary_of parts (
        if starts_with trimed_part (codes "boundary")
        then Option.get_or (Option.map boost.trim pair) boundary
        else boundary)

  unfoldable pub init : Reader → Reader × Option Error
  unfolding boundary_of split
  init r =
      let found = boundary_of (split boost r.content_type (codes ";")) r.boundary in
      (
        record {
          body = r.body;
          content_type = r.content_type;
          boundary = found;
          step = r.step;
          field_data = r.field_data;
        },
        if null found then some bad_field else none,
      )

unfoldable pub put_boundary_line : Reader → Text → Reader × ℕ × Option Error
unfolding starts_with
put_boundary_line r bytes =
    let line = codes "--" ++ (r.boundary ++ codes "\r\n") in
    let line_last = codes "--" ++ (r.boundary ++ codes "--") in
    let most = if ltb (length line) (length line_last) then length line_last else length line in
    if ltb (length bytes) most
    then (r, 0, some need_more)
    else if starts_with bytes line
    then (at_step r boundary_header, length line, none)
    else if starts_with bytes line_last
    then (at_step r finshed, length line_last, none)
    else (r, 0, some unexpected_body)

-- The loop over the parameters of `Content-Disposition`.
unfoldable pub name_pairs : List (Text × Text) → Field → Field
unfolding eq_text
name_pairs [] f = f
name_pairs ((k, v) ∷ pairs) f = name_pairs pairs (
    if eq_text k (codes "name")
    then record {
      name = v;
      filename = f.filename;
      content_type = f.content_type;
      content = f.content;
    }
    else if eq_text k (codes "filename")
    then record { name = f.name; filename = v; content_type = f.content_type; content = f.content }
    else f)

module _ (boost : Trimming) where
  -- `none` stands for the error `unexpected_body`.
  unfoldable pub disposition : Text → Field → Option Field
  unfolding find eq_text name_pairs parse_content_disposition
  disposition value f = find value (codes ";") >>= λ pos.
      if eq_text (boost.trim (take pos value)) (codes "form-data")
      then some (name_pairs (parse_content_disposition boost (drop (pos + 1) value)) f)
      else none

  unfoldable pub header_item : Text × Text → Field → Option Field
  unfolding disposition eq_text
  header_item (key, value) f =
      if eq_text key (codes "Content-Disposition")
      then disposition value f
      else if eq_text key (codes "Content-Type")
      then some
          record { name = f.name; filename = f.filename; content_type = value; content = f.content }
      else some f

  unfoldable pub header_items : List (Text × Text) → Field → Option Field
  unfolding header_item
  header_items [] f = some f
  header_items (item ∷ items) f = header_item item f >>= λ g. header_items items g

  unfoldable pub put_boundary_header : Reader → Text → Reader × ℕ × Option Error
  unfolding find split_header_field_value header_items
  put_boundary_header r bytes = elim (find bytes (codes "\r\n\r\n")) [
    | none ↦ (r, 0, some need_more)
    | some pos ↦
        let header = take (pos + 4) bytes in
        elim (split_header_field_value boost header >>= λ results. header_items results no_field) [
          | none ↦ (r, 0, some unexpected_body)
          | some field_data ↦ (with_field r boundary_content field_data, length header, none)
        ]
  ]

-- `field_data_.content` with bytes at its end.
unfoldable pub appended : Field → Text → Field
appended f bytes = record {
  name = f.name;
  filename = f.filename;
  content_type = f.content_type;
  content = f.content ++ bytes;
}

-- `body_.fields.push_back(std::move(field_data_))`: the moved strings are empty afterwards.
unfoldable pub pushed : Reader → Reader
pushed r = record {
  body = record { fields = r.body.fields ++ r.field_data ∷ []; boundary = r.body.boundary };
  content_type = r.content_type;
  boundary = r.boundary;
  step = boundary_line;
  field_data = no_field;
}

unfoldable pub put_boundary_content : Reader → Text → Reader × ℕ × Option Error
unfolding starts_with find appended pushed
put_boundary_content r bytes =
    let eof_boundary_line = codes "\r\n--" ++ r.boundary in
    if starts_with bytes (codes "\r")
    then (if ltb (length bytes) (length eof_boundary_line)
        then (r, 0, some need_more)
        else if starts_with bytes eof_boundary_line
        then (pushed r, 2, none)
        else (with_field r r.step (appended r.field_data (codes "\r")), 1, none))
    else elim (find bytes (codes "\r")) [
      | none ↦ (with_field r r.step (appended r.field_data bytes), length bytes, none)
      | some pos ↦ (with_field r r.step (appended r.field_data (take pos bytes)), pos, none)
    ]

unfoldable pub put_finshed : Reader → Text → Reader × ℕ × Option Error
unfolding starts_with
put_finshed r bytes =
    if ltb (length bytes) 2
    then (r, 0, some need_more)
    else if starts_with bytes (codes "\r\n")
    then (at_step r eof, 2, none)
    else (r, 0, some unexpected_body)

unfoldable pub put_at : Trimming → Step → Reader → Text → Reader × ℕ × Option Error
unfolding put_boundary_line put_boundary_header put_boundary_content put_finshed
put_at boost boundary_line r bytes = put_boundary_line r bytes
put_at boost boundary_header r bytes = put_boundary_header boost r bytes
put_at boost boundary_content r bytes = put_boundary_content r bytes
put_at boost finshed r bytes = put_finshed r bytes
put_at boost eof r bytes = (r, 0, some unexpected_body)

unfoldable pub put : Trimming → Reader → Text → Reader × ℕ × Option Error
unfolding put_at
put boost r bytes = put_at boost r.step r bytes

unfoldable pub finish : Reader → Option Error
finish r = elim r.step [ eof ↦ none | _ ↦ some partial_message ]
