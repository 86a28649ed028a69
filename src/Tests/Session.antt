-- ===== src/Tests/Session.antt =====
-- A connection with requests that are refused before their body, and its tasks.
use httplib.Base.{
  ℕ, ◌≡◌, ◌≢◌, refl, Bool, true, false, Option, none, some, List, [], ◌∷◌, Text, codes,
}
use httplib.Server.Response.{Calls}
use httplib.Server.Response.Effects.{Message}
use httplib.Server.Router.{Verb, other, Node, leaf, root_label}
use httplib.Server.Router.Routing.{pre_routing}
use httplib.Server.Session.{
  runs_pre, runs_post, Header, Exchange, Ran, Writes, handle, respond_to, ended, outgoing,
  continue_response,
}
use httplib.Server.Session.Answers.{refused-Closes, continue_is_chunked}
use httplib.Server.Session.Tasks.{Met, run_tasks, detect_ssl_task, Ends, run_tasks-Ends}
use httplib.Tests.Trimming.{trimming}
use httplib.Tests.Parameters.{literal, two_reasons, names}

abbrev no_routes : Node ℕ ℕ
no_routes = leaf root_label

abbrev post_request : Header
post_request = record {
  method = other 3;
  is_upgrade = false;
  expects_continue = true;
  keep_alive = true;
  encoding = some (codes "gzip");
}

abbrev asked : Bool × Calls ℕ
asked =
    pre_routing names two_reasons (codes "httplib") literal trimming no_routes (other 3)
      (codes "/x")

abbrev sent : Writes
sent = record { serialized = true ∷ []; chunks = [] }

abbrev nothing : Ran ℕ
nothing = record { calls = []; thrown = none }

abbrev exchange : Exchange ℕ
exchange = record {
  header = some post_request;
  accepts = asked.0;
  pre = record { calls = asked.1; thrown = none };
  continue_writes = sent;
  body_reads = true ∷ [];
  proc = nothing;
  post = nothing;
  writes = sent;
}

abbrev same_message : Message ℕ → Message ℕ
same_message m = m

refused-Closes_example :
    ((handle same_message post_request exchange).0 ≡ runs_pre ∷ runs_post ∷ [])
    × ((respond_to same_message post_request exchange).1 ≢ none)
unfolding pre_routing httplib.Server.Router.Match.match_nodes httplib.Base.ends_with
    httplib.Util.Split.split httplib.Base.find_from
refused-Closes_example =
    refused-Closes names two_reasons (codes "httplib") literal trimming no_routes same_message
      post_request exchange (codes "/x") refl refl refl refl (λ m e. e)

interim_chunked :
    ((outgoing same_message post_request continue_response).message.status ≡ 100)
    × ((outgoing same_message post_request continue_response).chunked ≡ true)
    × ((outgoing same_message post_request continue_response).content_encoding
        ≡ some (codes "gzip"))
interim_chunked = continue_is_chunked same_message post_request (codes "gzip") refl

abbrev met : ℕ → Met
met k = record {
  has_ssl_context = true;
  is_ssl = some true;
  handshake = true;
  ending = ended;
  aborted = false;
}

run_tasks-Ends_example : Ends 4 (run_tasks 5 met 0 (some detect_ssl_task))
run_tasks-Ends_example = run_tasks-Ends met
