-- ===== src/Server/Response/File.antt =====
-- `response::set_file_content` of lib/server/response.cpp. What the file system says of the file, the
-- fields of the request, and the texts that dates and random boundaries are written as are given.
use httplib.Base.{
  ℕ, ◌+◌, ◌-◌, ◌%◌, ◌^◌, Bool, Option, none, some, [], ◌∷◌, ◌++◌, Text, codes, eq_text,
  if◌then◌else◌,
}
use httplib.Util.Trim.{Trimming}
use httplib.Html.Ranges.{ℤ, pos, negsuc, size_of_int, Ranges, Parsed, failed, parsed, parse}
use httplib.Mime.{get_mime_type}
use httplib.Server.Response.{
  Body, file_body, set, result, content_length, body, Calls, Format, reset_content,
  set_empty_content, status_ok,
}

-- `fs::file_size`, the time of the last write (each absent on an error), whether the file can be
-- opened, and the extension of its path.
pub record FileState : Type 0 where
  pub file_size : Option ℕ
  pub write_time : Option ℕ
  pub is_open : Bool
  pub extension : Text

-- The fields of the request, empty if they are not there.
pub record Conditions : Type 0 where
  pub range : Text
  pub if_none_match : Text
  pub if_modified_since : Text

-- `html::format_http_gmt_date` and the boundary that `html::generate_boundary` makes.
pub record Texts : Type 0 where
  pub gmt_date : ℕ → Text
  pub boundary : Text

abbrev pub status_partial_content : ℕ
status_partial_content = 206

abbrev pub status_not_modified : ℕ
status_not_modified = 304

abbrev pub status_range_not_satisfiable : ℕ
status_range_not_satisfiable = 416

-- `range.second + 1 - range.first`, of 64 bits, as a `size_t`.
unfoldable pub part_size : ℤ → ℤ → ℕ
part_size first last = (size_of_int last + 1 + (2 ^ 64 - size_of_int first)) % 2 ^ 64

module _ (format : Format) (texts : Texts) where
  abbrev pub decimal_ℤ : ℤ → Text
  decimal_ℤ (pos n) = format.decimal n
  decimal_ℤ (negsuc n) = codes "-" ++ format.decimal (n + 1)

  abbrev pub etag : ℕ → ℕ → Text
  etag size time = codes "W/" ++ (format.decimal size ++ (codes "-" ++ format.decimal time))

  unfoldable pub content_range : ℤ → ℤ → ℕ → Text
  content_range first last size =
      codes "bytes "
      ++ (decimal_ℤ first ++ (codes "-" ++ (decimal_ℤ last ++ (codes "/" ++ format.decimal size))))

  module _ {J : Type 0} where
    abbrev pub file_of : FileState → Ranges → Text → Body J
    file_of file ranges boundary = file_body (record {
      content_type = get_mime_type file.extension;
      ranges = ranges;
      boundary = boundary;
    })

    -- The three cases of the number of ranges.
    unfoldable pub set_ranges : FileState → ℕ → Ranges → Calls J
    unfolding content_range part_size
    set_ranges file size [] =
        set (codes "Accept-Ranges") (codes "bytes")
        ∷ set (codes "Content-Type") (get_mime_type file.extension)
        ∷ result status_ok
        ∷ content_length size
        ∷ body (file_of file [] [])
        ∷ []
    set_ranges file size ((first, last) ∷ []) =
        set (codes "Content-Range") (content_range first last size)
        ∷ set (codes "Content-Type") (get_mime_type file.extension)
        ∷ result status_partial_content
        ∷ content_length (part_size first last)
        ∷ body (file_of file ((first, last) ∷ []) [])
        ∷ []
    set_ranges file size (r ∷ q ∷ ranges) =
        set (codes "Content-Type") (codes "multipart/byteranges; boundary=" ++ texts.boundary)
        ∷ result status_partial_content
        ∷ body (file_of file (r ∷ q ∷ ranges) texts.boundary)
        ∷ []

    -- What is done once the size and the time are known.
    unfoldable pub set_known_file : FileState → Conditions → ℕ → ℕ → Parsed → Calls J
    unfolding set_empty_content set_ranges
    set_known_file file c size time failed =
        set (codes "Content-Range") (codes "bytes */" ++ format.decimal size)
        ∷ set_empty_content status_range_not_satisfiable
    set_known_file file c size time (parsed ranges) =
        if eq_text c.if_none_match (etag size time)
        then set_empty_content status_not_modified
        else if eq_text c.if_modified_since (texts.gmt_date time)
        then set_empty_content status_not_modified
        else if file.is_open
        then set (codes "ETag") (etag size time)
          ∷ set (codes "Last-Modified") (texts.gmt_date time)
          ∷ set_ranges file size ranges
        else []

    -- `none` is the read out of range of `parse`.
    unfoldable pub set_file_content : Trimming → FileState → Conditions → Option (Calls J)
    unfolding reset_content set_known_file parse
    set_file_content boost file c = elim file.file_size [
      | none ↦ some reset_content
      | some size ↦ elim file.write_time [
        | none ↦ some reset_content
        | some time ↦ elim (parse boost c.range size) [
          | none ↦ none
          | some p ↦ some (reset_content ++ set_known_file file c size time p)
        ]
      ]
    ]
