-- ===== src/Tests/Response.antt =====
-- A handler for 404 that answers with a value in the place of the page of the error.
use httplib.Base.{ℕ, ◌≡◌, refl, true, false, none, some, [], ◌∷◌, ◌++◌, codes, length}
use httplib.Server.Response.{Body, empty_body, json_body, error_page}
use httplib.Server.Response.Effects.{Message}
use httplib.Server.Response.Setters.{
  Setter, sets_json, sets_error, set_all, status_of, content_of, streams_of, length_of,
  set_all-left_by, json_after_error,
}
use httplib.Tests.Parameters.{two_reasons}

abbrev fresh : Message ℕ
fresh = record {
  status = 200;
  length = none;
  content = empty_body;
  streams = false;
  keeps_alive = true;
}

abbrev last_call : Setter ℕ
last_call = sets_json 7 404

abbrev answered : Message ℕ
answered = set_all two_reasons (codes "httplib") fresh (sets_error 404 ∷ sets_json 7 404 ∷ [])

stale_length : answered.length ≡ some 156
unfolding httplib.Server.Response.set_json_content httplib.Server.Response.set_error_content
stale_length = refl

set_all-left_by_example :
    set_all two_reasons (codes "httplib") fresh ((sets_error 404 ∷ []) ++ sets_json 7 404 ∷ [])
    ≡ record {
      status = status_of two_reasons (codes "httplib") last_call;
      length =
          length_of two_reasons
            (codes "httplib")
            last_call
            (set_all two_reasons (codes "httplib") fresh (sets_error 404 ∷ [])).length;
      content = content_of two_reasons (codes "httplib") last_call;
      streams = streams_of two_reasons (codes "httplib") last_call;
      keeps_alive = true;
    }
set_all-left_by_example =
    set_all-left_by two_reasons (codes "httplib") fresh (sets_error 404 ∷ []) (sets_json 7 404)

json_behind_error :
    (answered.length ≡ some (length (error_page two_reasons (codes "httplib") 404)))
    × (answered.content ≡ json_body 7)
json_behind_error = json_after_error two_reasons (codes "httplib") fresh 404 7 404
