-- ===== src/Tests/AnyBody.antt =====
-- A compressed form.
use httplib.Base.{◌+◌, ◌≤◌, ◌≡◌, refl, some, [], ◌∷◌, codes, length, List, Text}
use httplib.Bodies.FormData.Reader.{Reader, partial_message}
use httplib.Bodies.FormData.Reader.Stream.{written_fields}
use httplib.Bodies.FormData.ContentType.{started}
use httplib.Bodies.FormData.RoundTrip.{empty_form}
use httplib.Bodies.AnyBody.{Filter, Compressor, finish}
use httplib.Bodies.AnyBody.Coded.{form_reader, put_all, field_count, finish-field_count}
use httplib.Tests.FormData.{note_field}
use httplib.Tests.Trimming.{trimming}

-- A filter that passes on what it is given.
abbrev plain_filter : Filter
plain_filter = record { State = Unit; write = λ s bytes. (s, bytes); close = λ s. (s, []) }

abbrev plain_compressor : Compressor plain_filter
plain_compressor = record { stream = tt; buffer = [] }

abbrev one_chunk : List Text
one_chunk = written_fields (codes "X") (note_field ∷ []) ∷ []

finish-field_count_example :
    field_count
      (finish plain_filter (form_reader trimming) (
        put_all trimming plain_filter
          (started (codes "X") empty_form, some plain_compressor)
          one_chunk)).0
    ≤ 0 + 1 + 1
finish-field_count_example =
    finish-field_count trimming plain_filter one_chunk (started (codes "X") empty_form)
      plain_compressor

-- The whole form in one chunk is not read to its end.
one_chunk_partial :
    (finish plain_filter (form_reader trimming) (
      put_all trimming plain_filter
        (started (codes "X") empty_form, some plain_compressor)
        one_chunk)).1
    ≡ some partial_message
unfolding finish put_all httplib.Bodies.FormData.Reader.finish written_fields
    httplib.Bodies.FormData.Reader.put httplib.Base.find_from trimming httplib.Tests.Trimming.join
one_chunk_partial = refl
