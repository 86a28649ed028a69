-- ===== src/Tests/Parameters.antt =====
-- Concrete functions for what the router and the response rely on of other libraries.
use mathlib.Core.List.Perm
use httplib.Html.QueryParams.{Hashing}
use httplib.Base.{true, List, [], ◌∷◌, ◌++◌, Text, codes, eq_text, ◌==◌, if◌then◌else◌}
use httplib.Server.Response.{Format}
use httplib.Server.Router.{Verb, get, head, trace, connect, options, other, Regex}
use httplib.Server.Router.Routing.{Names}

-- Patterns that match themselves only.
abbrev pub literal : Regex
literal = record { compiles = λ pattern. true; regex_match = λ pattern s. eq_text pattern s }

abbrev pub two_reasons : Format
two_reasons = record {
  obsolete_reason =
      λ status. if status == 404 then codes "Not Found" else codes "Method Not Allowed";
  decimal = λ status. if status == 404 then codes "404" else codes "405";
}

abbrev pub verb_name : Verb → Text
verb_name get = codes "GET"
verb_name head = codes "HEAD"
verb_name trace = codes "TRACE"
verb_name connect = codes "CONNECT"
verb_name options = codes "OPTIONS"
verb_name (other m) = codes "POST"

abbrev pub join_all : List Text → Text → Text
join_all [] between = []
join_all (s ∷ []) between = s
join_all (s ∷ t ∷ ts) between = s ++ (between ++ join_all (t ∷ ts) between)

abbrev pub names : Names
names = record { to_string = verb_name; join = join_all }

-- A container in which an iterator meets the newest entry first.
abbrev pub newest_first : Hashing
newest_first = record {
  emplace = λ item params. item ∷ params;
  emplace_perm = λ item params. Perm.rfl;
}
