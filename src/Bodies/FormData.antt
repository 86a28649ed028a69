-- ===== src/Bodies/FormData.antt =====
-- include/httplib/html/form_data.hpp and lib/html/form_data.cpp: the data of an HTML form.
pub mod Disposition
pub mod Writer
pub mod Reader
pub mod ContentType
pub mod RoundTrip
use mathlib.Core.Option
use httplib.Base.{
  Bool, true, false, not, Option, none, some, List, [], ◌∷◌, ◌++◌, ◌>>=◌, Text, codes, null,
  eq_text, if◌then◌else◌,
}

pub record Field : Type 0 where
  pub name : Text
  pub filename : Text
  pub content_type : Text
  pub content : Text

unfoldable field_has_data : Field → Bool
field_has_data field = not (null field.content)

unfoldable is_file : Field → Bool
is_file field = not (null field.filename)

pub record FormData : Type 0 where
  pub fields : List Field
  pub boundary : Text

-- `std::find_if` on the name.
unfoldable first_named : Text → List Field → Option Field
first_named field_name [] = none
first_named field_name (ef ∷ efs) =
    let rest = first_named field_name efs in if eq_text ef.name field_name then some ef else rest

unfoldable field_by_name : FormData → Text → Option Field
unfolding first_named
field_by_name form field_name = first_named field_name form.fields

unfoldable has_data : FormData → Text → Bool
unfolding field_by_name
has_data form field_name = elim (field_by_name form field_name) [ none ↦ false | some field ↦ true ]

unfoldable has_content : FormData → Text → Bool
unfolding field_by_name field_has_data
has_content form field_name = elim (field_by_name form field_name) [
  | none ↦ false
  | some field ↦ field_has_data field
]

unfoldable pub content : FormData → Text → Option Text
unfolding field_by_name field_has_data
content form field_name = field_by_name form field_name >>= λ field.
    if not (field_has_data field) then none else some field.content

unfoldable dump_fields : List Field → Text
unfolding field_has_data
dump_fields [] = []
dump_fields (field ∷ fields) =
    let rest = dump_fields fields in
    if not (field_has_data field)
    then rest
    else (field.name ++ codes ":\n")
      ++ ((codes "  type     = " ++ (field.content_type ++ codes "\n"))
          ++ ((codes "  filename = " ++ (field.filename ++ codes "\n"))
              ++ ((codes "  content  = " ++ (field.content ++ codes "\n"))
                  ++ (codes "\n" ++ rest))))

unfoldable dump : FormData → Text
unfolding dump_fields
dump form = dump_fields form.fields
