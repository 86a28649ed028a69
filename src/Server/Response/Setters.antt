-- ===== src/Server/Response/Setters.antt =====
-- Sequences of calls of the content setters of `response` (lib/server/response.cpp): what the last
-- one leaves in the message, and what stays of the ones before.
use httplib.Base.{
  ℕ, ◌≡◌, refl, ap, ◌∙◌, Bool, true, false, Option, some, List, [], ◌∷◌, ◌++◌, Text, length,
}
use httplib.Bodies.FormData.{Field}
use httplib.Server.Response.{
  Body, empty_body, string_body, json_body, form_body, Calls, Format, error_page, reset_content,
  set_empty_content, set_string_content, set_json_content, set_redirect, set_stream_content_impl,
  set_error_content, set_form_data_content, status_ok,
}
use httplib.Server.Response.Effects.{Message, replay}

-- A call of one of the setters that do not look at a file, with its arguments; for a form with the
-- boundary that is made for it.
pub data Setter (J : Type 0) : Type 0 where
  sets_empty : ℕ → Setter J
  sets_string : Text → Text → ℕ → Setter J
  sets_json : J → ℕ → Setter J
  redirects : Text → ℕ → Setter J
  sets_stream : Text → ℕ → Setter J
  sets_error : ℕ → Setter J
  sets_form : Text → List Field → Setter J

module _ {J : Type 0} (format : Format) (server : Text) where
  abbrev pub calls_of : Setter J → Calls J
  calls_of (sets_empty status) = set_empty_content status
  calls_of (sets_string text content_type status) = set_string_content text content_type status
  calls_of (sets_json value status) = set_json_content value status
  calls_of (redirects url status) = set_redirect url status
  calls_of (sets_stream content_type status) = set_stream_content_impl content_type status
  calls_of (sets_error status) = set_error_content format server status
  calls_of (sets_form boundary fields) = set_form_data_content boundary fields

  abbrev pub set_all : Message J → List (Setter J) → Message J
  set_all m [] = m
  set_all m (s ∷ ss) = set_all (replay m (calls_of s)) ss

  abbrev pub status_of : Setter J → ℕ
  status_of (sets_empty status) = status
  status_of (sets_string text content_type status) = status
  status_of (sets_json value status) = status
  status_of (redirects url status) = status
  status_of (sets_stream content_type status) = status
  status_of (sets_error status) = status
  status_of (sets_form boundary fields) = status_ok

  abbrev pub content_of : Setter J → Body J
  content_of (sets_string text content_type status) = string_body text
  content_of (sets_json value status) = json_body value
  content_of (sets_error status) = string_body (error_page format server status)
  content_of (sets_form boundary fields) =
      form_body (record { fields = fields; boundary = boundary })
  content_of s = empty_body

  abbrev pub streams_of : Setter J → Bool
  streams_of (sets_stream content_type status) = true
  streams_of s = false

  -- The field `Content-Length`, where `old` is the one before.
  abbrev pub length_of : Setter J → Option ℕ → Option ℕ
  length_of (sets_empty status) old = some 0
  length_of (sets_string text content_type status) old = some (length text)
  length_of (sets_json value status) old = old
  length_of (redirects url status) old = some 0
  length_of (sets_stream content_type status) old = old
  length_of (sets_error status) old = some (length (error_page format server status))
  length_of (sets_form boundary fields) old = old

  abbrev pub left_by : Setter J → Message J → Message J
  left_by s m = record {
    status = status_of s;
    length = length_of s m.length;
    content = content_of s;
    streams = streams_of s;
    keeps_alive = m.keeps_alive;
  }

  replay-calls_of : (m : Message J) (s : Setter J) → replay m (calls_of s) ≡ left_by s m
  unfolding set_empty_content set_string_content set_json_content set_redirect
      set_stream_content_impl set_error_content set_form_data_content reset_content
  replay-calls_of m (sets_empty status) = refl
  replay-calls_of m (sets_string text content_type status) = refl
  replay-calls_of m (sets_json value status) = refl
  replay-calls_of m (redirects url status) = refl
  replay-calls_of m (sets_stream content_type status) = refl
  replay-calls_of m (sets_error status) = refl
  replay-calls_of m (sets_form boundary fields) = refl

  keeps_alive-set_all :
      (m : Message J) (ss : List (Setter J)) → (set_all m ss).keeps_alive ≡ m.keeps_alive
  keeps_alive-set_all m [] = refl
  keeps_alive-set_all m (s ∷ ss) =
      keeps_alive-set_all (replay m (calls_of s)) ss
      ∙ ap (λ (n : Message J). n.keeps_alive) (replay-calls_of m s)

  set_all-last :
      (m : Message J) (ss : List (Setter J)) (s : Setter J)
      → set_all m (ss ++ s ∷ []) ≡ left_by s (set_all m ss)
  set_all-last m [] s = replay-calls_of m s
  set_all-last m (r ∷ ss) s = set_all-last (replay m (calls_of r)) ss s

  -- After any sequence of calls of the seven content setters that do not look at a file, status,
  -- content and stream are those of the last call, and the connection is kept alive as before.
  -- `Content-Length` is the length of the content of the last call, unless that was a JSON value, a
  -- form or a stream: then it is what the calls before have left there.
  pub set_all-left_by :
      (m : Message J) (ss : List (Setter J)) (s : Setter J)
      → set_all m (ss ++ s ∷ []) ≡ record {
        status = status_of s;
        length = length_of s (set_all m ss).length;
        content = content_of s;
        streams = streams_of s;
        keeps_alive = m.keeps_alive;
      }
  set_all-left_by m ss s =
      set_all-last m ss s
      ∙ ap
          (λ b.
            let kept : Message J = record (left_by s (set_all m ss)) { keeps_alive = b } in kept)
          (keeps_alive-set_all m ss)

  -- After the page of an error and then a JSON value, as a handler for 404 may set it, the content is
  -- the value, but `Content-Length` is the length of that page.
  pub json_after_error :
      (m : Message J) (status : ℕ) (value : J) (later : ℕ)
      → ((set_all m (sets_error status ∷ sets_json value later ∷ [])).length
          ≡ some (length (error_page format server status)))
        × ((set_all m (sets_error status ∷ sets_json value later ∷ [])).content ≡ json_body value)
  json_after_error m status value later =
      let e = set_all-left_by m (sets_error status ∷ []) (sets_json value later) in
      (
        ap (λ (n : Message J). n.length) e
            ∙ ap (λ (n : Message J). n.length) (replay-calls_of m (sets_error status)),
        ap (λ (n : Message J). n.content) e,
      )
