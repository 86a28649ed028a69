-- ===== src/Server/Response/Effects.antt =====
-- What the calls of a response (lib/server/response.cpp) do to the message.
use httplib.Base.{ℕ, Bool, Option, some, [], ◌∷◌}
use httplib.Server.Response.{
  Body, Call, result, set, content_length, keep_alive, body, stream_handler, Calls,
}

-- The parts of the message that the content setters are about. `length` is the value of the field
-- `Content-Length`, if it is there.
pub record Message (J : Type 0) : Type 0 where
  pub status : ℕ
  pub length : Option ℕ
  pub content : Body J
  pub streams : Bool
  pub keeps_alive : Bool

module _ {J : Type 0} where
  abbrev pub apply : Message J → Call J → Message J
  apply m (result status) = record m { status = status }
  apply m (set field value) = m
  apply m (content_length n) = record m { length = some n }
  apply m (keep_alive b) = record m { keeps_alive = b }
  apply m (body b) = record m { content = b }
  apply m (stream_handler b) = record m { streams = b }

  abbrev pub replay : Message J → Calls J → Message J
  replay m [] = m
  replay m (c ∷ cs) = replay (apply m c) cs
