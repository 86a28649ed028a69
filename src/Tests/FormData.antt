-- ===== src/Tests/FormData.antt =====
-- Multipart forms.
use httplib.Base.{
  ℕ, ◌≡◌, ◌≢◌, refl, Option, some, none, List, [], ◌∷◌, ◌++◌, Text, codes, arith, All, length, take,
  drop,
}
use httplib.Bodies.FormData.{Field, FormData}
use httplib.Bodies.FormData.Disposition.{parse_content_disposition}
use httplib.Bodies.FormData.Writer
use httplib.Bodies.FormData.Writer.Drained.{drain, calls_for}
use httplib.Bodies.FormData.Reader.{Reader, reader, init, put, finish, eof, no_field}
use httplib.Bodies.FormData.Reader.Stream.{IsField, written_fields, Moves}
use httplib.Bodies.FormData.Reader.Runs.{feed, put-Moves}
use httplib.Bodies.FormData.Reader.Puts.{IsFair, put-IsFair}
use httplib.Bodies.FormData.ContentType.{content_type_of, started}
use httplib.Bodies.FormData.RoundTrip.{Sendable, chunks, empty_form, drain-feed}
use httplib.Tests.Trimming.{trimming}

abbrev pub note_field : Field
note_field = record { name = codes "n"; filename = []; content_type = []; content = codes "x\ry" }

abbrev file_field : Field
file_field = record {
  name = codes "f";
  filename = codes "a.b";
  content_type = codes "t/p";
  content = codes "\r\n-";
}

abbrev two_fields : FormData
two_fields = record { fields = note_field ∷ file_field ∷ []; boundary = codes "X" }

note_field-IsField : IsField (codes "X") note_field
unfolding httplib.Base.find
note_field-IsField = (
  record {
    name_fits = (((omega arith, omega arith), tt), (omega arith, tt));
    filename_fits = (tt, tt);
    type_line = tt;
    type_starts = tt;
    type_ends = tt;
  },
  refl,
)

file_field-IsField : IsField (codes "X") file_field
unfolding httplib.Base.find
file_field-IsField = (
  record {
    name_fits = (((omega arith, omega arith), tt), (omega arith, tt));
    filename_fits = (
      ((omega arith, omega arith), ((omega arith, omega arith), ((omega arith, omega arith), tt))),
      (omega arith, (omega arith, (omega arith, tt))),
    );
    type_line = (omega arith, (omega arith, (omega arith, tt)));
    type_starts = refl;
    type_ends = refl;
  },
  refl,
)

two_fields-Sendable : Sendable two_fields
two_fields-Sendable = (
  record {
    some_byte = λ e. cc;
    no_semicolon = (omega arith, tt);
    no_equals = (omega arith, tt);
    starts_clean = refl;
    ends_clean = refl;
  },
  (note_field-IsField, (file_field-IsField, tt)),
)

drain-feed_example :
    (text : Text) × (r : Reader) × (drain
        (calls_for two_fields.fields)
        (Writer.init (Writer.writer two_fields))
      ≡ some text)
    × (feed trimming
          (chunks (length text) (length text))
          (init trimming (reader (content_type_of two_fields.boundary) empty_form)).0
          text
        ≡ some (r, []))
    × (r.body.fields ≡ two_fields.fields)
    × (finish r ≡ none)
drain-feed_example = drain-feed trimming two_fields (λ e. cc) two_fields-Sendable

abbrev one_field : FormData
one_field = record { fields = note_field ∷ []; boundary = codes "X" }

abbrev read_over : Reader
read_over = record {
  body = record { fields = note_field ∷ []; boundary = [] };
  content_type = content_type_of (codes "X");
  boundary = codes "X";
  step = eof;
  field_data = no_field;
}

written_nonempty : written_fields (codes "X") (note_field ∷ []) ≢ []
unfolding written_fields
written_nonempty e = cc

put-Moves_example : Moves (note_field ∷ []) 7 (written_fields (codes "X") (note_field ∷ [])) (
    put trimming
      (started (codes "X") empty_form)
      (take 7 (written_fields (codes "X") (note_field ∷ []))))
put-Moves_example =
    put-Moves trimming (note_field ∷ []) (started (codes "X") empty_form)
      (written_fields (codes "X") (note_field ∷ [])) 7
      (note_field ∷ [], refl, (note_field-IsField, tt), refl) written_nonempty

put-IsFair_example :
    IsFair
      (started (codes "X") empty_form)
      (codes "--Y--\r\n")
      (put trimming (started (codes "X") empty_form) (codes "--Y--\r\n"))
put-IsFair_example = put-IsFair trimming (started (codes "X") empty_form) (codes "--Y--\r\n")

-- A field without a value has no content for the form either.
empty_form_written : drain 3 (Writer.init (Writer.writer empty_form)) ≡ some []
unfolding drain Writer.init Writer.writer
empty_form_written = refl

kept_backslash :
    parse_content_disposition trimming (codes " name=\"a\\\"b\"")
    ≡ (codes "name", codes "a\\\"b") ∷ []
unfolding parse_content_disposition trimming httplib.Tests.Trimming.join
kept_backslash = refl
