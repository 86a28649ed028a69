-- ===== src/Server/Response.antt =====
-- lib/server/response.cpp. The response is a `boost::beast::http::response` (third party): the model
-- is the sequence of calls that the code makes on it, and the assignments to `stream_handler_`.
pub mod Effects
pub mod Setters
pub mod File
pub mod FileLength
use httplib.Base.{
  ℕ, Bool, true, false, Option, none, some, List, [], ◌∷◌, ◌++◌, Text, codes, length,
}
use httplib.Html.Ranges.{Ranges}
use httplib.Bodies.FormData.{Field, FormData}
use httplib.Bodies.FormData.ContentType.{content_type_of}

-- The parts of `body::file_body::value_type` that `set_file_content` sets.
pub record FileContent : Type 0 where
  pub content_type : Text
  pub ranges : Ranges
  pub boundary : Text

pub data Body (J : Type 0) : Type 0 where
  empty_body : Body J
  string_body : Text → Body J
  json_body : J → Body J
  file_body : FileContent → Body J
  form_body : FormData → Body J

-- `this->result(status)`, `this->set(field, value)`, `this->content_length(n)`,
-- `this->keep_alive(b)`, `this->body() = b`, and whether `stream_handler_` is assigned a handler.
pub data Call (J : Type 0) : Type 0 where
  result : ℕ → Call J
  set : Text → Text → Call J
  content_length : ℕ → Call J
  keep_alive : Bool → Call J
  body : Body J → Call J
  stream_handler : Bool → Call J

abbrev pub Calls : Type 0 → Type 0
Calls J = List (Call J)

-- What the code relies on of Boost and fmt: `http::obsolete_reason`, and a number in decimal.
pub record Format : Type 0 where
  pub obsolete_reason : ℕ → Text
  pub decimal : ℕ → Text

abbrev pub status_ok : ℕ
status_ok = 200

abbrev pub status_not_found : ℕ
status_not_found = 404

abbrev pub status_method_not_allowed : ℕ
status_method_not_allowed = 405

-- `{0} {1}` of the page of an error
abbrev pub reason_line : Format → ℕ → Text
reason_line format status = format.decimal status ++ (codes " " ++ format.obsolete_reason status)

-- The page of an error; `server` is the value of the field `Server`, which the constructor set.
unfoldable pub error_page : Format → Text → ℕ → Text
error_page format server status =
    codes "<html>\n<head><title>"
    ++ (reason_line format status
        ++ (codes "</title></head>\n<body bgcolor=\"white\">\n<center><h1>"
            ++ (reason_line format status
                ++ (codes "</h1></center>\n<hr><center>"
                    ++ (server ++ codes "</center>\n</body>\n</html>")))))

module _ {J : Type 0} where
  unfoldable pub reset_content : Calls J
  reset_content = stream_handler false ∷ body empty_body ∷ []

  unfoldable pub set_empty_content : ℕ → Calls J
  unfolding reset_content
  set_empty_content status =
      reset_content ++ result status ∷ body empty_body ∷ content_length 0 ∷ []

  unfoldable pub set_string_content : Text → Text → ℕ → Calls J
  unfolding reset_content
  set_string_content data' content_type status =
      reset_content
      ++ content_length (length data')
        ∷ set (codes "Content-Type") content_type
        ∷ result status
        ∷ body (string_body data')
        ∷ []

  unfoldable pub set_json_content : J → ℕ → Calls J
  unfolding reset_content
  set_json_content data' status =
      reset_content
      ++ result status
        ∷ set (codes "Content-Type") (codes "application/json; charset=utf-8")
        ∷ set (codes "Cache-Control") (codes "no-store")
        ∷ body (json_body data')
        ∷ []

  -- `boundary` is what `html::generate_boundary` gives.
  unfoldable pub set_form_data_content : Text → List Field → Calls J
  unfolding reset_content
  set_form_data_content boundary fields =
      reset_content
      ++ result status_ok
        ∷ set (codes "Content-Type") (content_type_of boundary)
        ∷ body (form_body (record { fields = fields; boundary = boundary }))
        ∷ []

  unfoldable pub set_redirect : Text → ℕ → Calls J
  unfolding set_empty_content
  set_redirect url status = set (codes "Location") url ∷ set_empty_content status

  unfoldable pub set_stream_content_impl : Text → ℕ → Calls J
  unfolding reset_content
  set_stream_content_impl content_type status =
      reset_content
      ++ stream_handler true
        ∷ set (codes "Content-Type") content_type
        ∷ result status
        ∷ body empty_body
        ∷ []

  unfoldable pub set_error_content : Format → Text → ℕ → Calls J
  unfolding set_string_content error_page
  set_error_content format server status =
      set_string_content (error_page format server status) (codes "text/html; charset=utf-8") status
