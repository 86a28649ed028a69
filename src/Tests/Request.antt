-- ===== src/Tests/Request.antt =====
-- The target of a request, and a file of which a part is asked for.
use httplib.Base.{
  ℕ, zero, suc, ◌≡◌, length, refl, Bool, true, false, some, none, List, [], ◌∷◌, ◌++◌, Text, codes,
  arith,
}
use httplib.Server.Request.{request, request-query}
use httplib.Html.QueryParams.{decode}
use httplib.Util.Url.{url_decode}
use httplib.Server.Response.{Calls, empty_body, reset_content}
use httplib.Server.Response.Effects.{Message, replay}
use httplib.Server.Response.File.{FileState, Conditions, Texts, set_known_file, set_file_content}
use httplib.Server.Response.FileLength.{bits_of, ranges_of, content_length-sent}
use httplib.Bodies.FileBody.{get}
use httplib.Bodies.FileBody.Reads.{drain}
use httplib.Bodies.FileBody.Ranges.{opened}
use httplib.Html.Ranges.{pos, parsed, parse}
use httplib.Tests.Trimming.{trimming}
use httplib.Tests.Parameters.{two_reasons, newest_first}

request-query_example :
    request trimming newest_first (codes "/a" ++ b'?' ∷ codes "q=1?")
    ≡ some (record {
      target = codes "/a" ++ b'?' ∷ codes "q=1?";
      decoded_path = codes "/a";
      query_params = (codes "q", codes "1?") ∷ [];
      path_params = [];
    })
unfolding url_decode decode httplib.Util.Split.split httplib.Base.find_from trimming
    httplib.Tests.Trimming.join
request-query_example =
    request-query trimming newest_first (codes "/a") (codes "q=1?") (codes "/a")
      ((codes "q", codes "1?") ∷ []) ((λ e. omega (arith, e)), ((λ e. omega (arith, e)), tt)) refl
      refl

abbrev on_disk : FileState
on_disk = record {
  file_size = some 100;
  write_time = some 7;
  is_open = true;
  extension = codes ".txt";
}

abbrev asks_part : Conditions
asks_part = record { range = codes "bytes=10-19"; if_none_match = []; if_modified_since = [] }

abbrev texts : Texts
texts = record { gmt_date = λ time. codes "a date"; boundary = codes "b" }

abbrev before_answer : Message ℕ
before_answer = record {
  status = 404;
  length = none;
  content = empty_body;
  streams = false;
  keeps_alive = true;
}

-- A file of a hundred bytes.
abbrev hundred : ℕ → Text
hundred zero = []
hundred (suc n) = b'x' ∷ hundred n

abbrev part_calls : Calls ℕ
part_calls =
    reset_content
    ++ set_known_file two_reasons texts on_disk asks_part 100 7 (parsed ((pos 10, pos 19) ∷ []))

part_is_set : set_file_content two_reasons texts trimming on_disk asks_part ≡ some part_calls
unfolding set_file_content parse httplib.Base.eq_text trimming httplib.Tests.Trimming.join
    httplib.Base.starts_with httplib.Base.find httplib.Util.Split.split httplib.Base.find_from
part_is_set = refl

part_has_file : ranges_of (replay before_answer part_calls).content ≡ some ((pos 10, pos 19) ∷ [])
unfolding set_known_file reset_content httplib.Base.eq_text
part_has_file = refl

content_length-sent_example :
    (sent : Text) × (drain
        (get (λ n. []) 3)
        101
        (opened (bits_of ((pos 10, pos 19) ∷ [])) (codes "t") (codes "B") (hundred 100) 7)
      ≡ some (sent, true))
    × ((replay before_answer part_calls).length ≡ some (length sent))
content_length-sent_example =
    content_length-sent two_reasons texts trimming on_disk asks_part before_answer part_calls
      ((pos 10, pos 19) ∷ []) (hundred 100) (λ n. []) 3 (codes "t") (codes "B") 7 (omega arith)
      (omega arith) refl part_is_set part_has_file (omega arith, omega arith)
