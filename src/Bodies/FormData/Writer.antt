-- ===== src/Bodies/FormData/Writer.antt =====
-- `form_data_body::writer` of lib/body/form_data_body.cpp. What `buffer_` holds is the text that
-- `get` returns. The index stays below the number of fields, so `int` is not exceeded.
pub mod Drained
use httplib.Base.{
  ℕ, ◌+◌, ◌-◌, Bool, true, false, not, Option, none, some, List, [], ◌∷◌, ◌++◌, ◌==◌, if◌then◌else◌,
  Text, codes, length, get_elem?, null,
}
use httplib.Bodies.FormData.{Field, FormData}

pub data Step : Type 0 where
  header : Step
  content : Step
  content_end : Step
  eof : Step

pub record Writer : Type 0 where
  pub body : FormData
  pub field_data_index : ℕ
  pub step : Step

-- The constructor.
unfoldable pub writer : FormData → Writer
writer body = record { body = body; field_data_index = 0; step = header }

unfoldable pub init : Writer → Writer
init w = record { body = w.body; field_data_index = 0; step = w.step }

unfoldable pub disposition_line : Field → Text
disposition_line field_data =
    (codes "Content-Disposition: form-data; name=\"" ++ (field_data.name ++ codes "\""))
    ++ (if null field_data.filename
        then []
        else codes "; filename=\"" ++ (field_data.filename ++ codes "\""))

unfoldable pub header_text : Text → Field → Text
unfolding disposition_line
header_text boundary field_data =
    (codes "--" ++ (boundary ++ codes "\r\n"))
    ++ ((disposition_line field_data ++ codes "\r\n")
        ++ ((if null field_data.content_type
              then []
              else codes "Content-Type: " ++ (field_data.content_type ++ codes "\r\n"))
            ++ codes "\r\n"))

-- The switch on the step for the field at the index.
unfoldable pub get_at : Writer → Field → Step → Writer × Option (Text × Bool)
unfolding header_text
get_at w field_data header = (
  record { body = w.body; field_data_index = w.field_data_index; step = content },
  some (header_text w.body.boundary field_data, true),
)
get_at w field_data content = (
  record { body = w.body; field_data_index = w.field_data_index; step = content_end },
  some (field_data.content, true),
)
get_at w field_data content_end =
    if w.field_data_index == length w.body.fields - 1
    then (
      record { body = w.body; field_data_index = w.field_data_index; step = eof },
      some (codes "\r\n" ++ (codes "--" ++ (w.body.boundary ++ codes "--\r\n")), false),
    )
    else (
      record { body = w.body; field_data_index = w.field_data_index + 1; step = header },
      some (codes "\r\n", true),
    )
get_at w field_data eof = (w, none)

unfoldable pub get : Writer → Writer × Option (Text × Bool)
unfolding get_at
get w = elim (get_elem? w.body.fields w.field_data_index) [
  | none ↦ (w, none)
  | some field_data ↦ get_at w field_data w.step
]
