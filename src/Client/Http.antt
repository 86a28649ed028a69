-- ===== src/Client/Http.antt =====
-- `http_client::impl` of lib/client/client_impl.cpp: a request and its answer as the calls that are
-- made, over the results of what is waited for.
pub mod Watched
use httplib.Base.{
  ℕ, zero, suc, Bool, true, false, not, ◌&&◌, ◌||◌, Option, none, some, List, [], ◌∷◌, ◌++◌, ◌==◌,
  ◌⊎◌, inl, inr, Text, codes, null, map, if◌then◌else◌,
}

pub data TimeoutPolicy : Type 0 where
  overall step never : TimeoutPolicy

-- The calls on the fields of a request, in order; `keep_alive` is `req.keep_alive(true)`.
data RequestCall : Type 0 where
  set : Text → Text → RequestCall
  keep_alive : RequestCall

-- `decimal`, `version` and `encodings` stand for `fmt::format`, BOOST_BEAST_VERSION_STRING and the
-- joined names of the compressors, if there are any.
module _ (decimal : ℕ → Text) (version : Text) (encodings : Option Text) where
  unfoldable host_field : Text → ℕ → Bool → Text
  host_field host port use_ssl =
      if (use_ssl && not (port == 443)) || (not use_ssl && not (port == 80))
      then host ++ (codes ":" ++ decimal port)
      else host

  unfoldable accept_encoding : Bool → Option Text → List RequestCall
  accept_encoding true names = []
  accept_encoding false none = []
  accept_encoding false (some names) = set (codes "Accept-Encoding") names ∷ []

  unfoldable make_http_request : Text → ℕ → Bool → Bool → List (Text × Text) → List RequestCall
  unfolding host_field accept_encoding
  make_http_request host port use_ssl has_chunk_handler headers =
      set (codes "Host") (host_field host port use_ssl)
      ∷ set (codes "User-Agent") version
      ∷ set (codes "Accept") (codes "*/*")
      ∷ (accept_encoding has_chunk_handler encodings
          ++ (map (λ field. set field.0 field.1) headers ++ keep_alive ∷ []))

-- The calls on the resolver and the stream. `connect` and the three after it are waits.
pub data Op : Type 0 where
  new_stream async_resolve expires_after expires_never : Op
  connect write_some read_header_some read_body_some : Op
  close_stream : Op

-- `expires_after(first)`, while there is a stream.
unfoldable pub expire : TimeoutPolicy → Bool → List Op
expire step first = expires_after ∷ []
expire never first = expires_never ∷ []
expire overall true = expires_after ∷ []
expire overall false = []

-- What a request meets: whether the stream is open, whether the host is an address, how many rounds
-- of each loop there are, the method and the answer.
pub record Met : Type 0 where
  pub is_open : Bool
  pub is_address : Bool
  pub writes : ℕ
  pub header_reads : ℕ
  pub body_reads : ℕ
  pub is_head : Bool
  pub answer_keeps_alive : Bool

module _ (policy : TimeoutPolicy) where
  unfoldable pub open_stream : Met → List Op
  unfolding expire
  open_stream met =
      if met.is_open
      then []
      else if met.is_address
      then new_stream ∷ (expire policy true ++ connect ∷ [])
      else new_stream ∷ async_resolve ∷ (expire policy true ++ connect ∷ [])

  -- A loop of `expires_after()` and one wait.
  unfoldable pub rounds : ℕ → Op → List Op
  unfolding expire
  rounds zero op = []
  rounds (suc n) op = expire policy false ++ op ∷ rounds n op

  -- The calls where nothing throws.
  unfoldable pub async_send_request_impl : Met → List Op
  unfolding open_stream rounds
  async_send_request_impl met =
      open_stream met
      ++ (rounds met.writes write_some
          ++ (rounds met.header_reads read_header_some
              ++ ((if not met.is_head then rounds met.body_reads read_body_some else [])
                  ++ (expires_never
                      ∷ (if not met.answer_keeps_alive
                          then expires_never ∷ close_stream ∷ []
                          else [])))))

-- The errors of an attempt: those after which it is made again, and others; `other_exception` is any
-- exception that is not a `system_error`.
pub data Failure : Type 0 where
  connection_aborted connection_reset end_of_stream : Failure
  other_error : ℕ → Failure
  other_exception : Failure

unfoldable retries : Failure → Bool
retries connection_aborted = true
retries connection_reset = true
retries end_of_stream = true
retries _ = false

-- `async_send_request`, where the attempts end as given: what it returns, and how many attempts and
-- how many calls of `close` there were.
unfoldable pub async_send_request {ℓ} :
    {R : Type ℓ} → Bool → R ⊎ Failure → R ⊎ Failure → (R ⊎ Failure) × ℕ × ℕ
unfolding retries
async_send_request retry (inl resp) again = (inl resp, 1, 0)
async_send_request retry (inr error) again =
    if retries error && retry
    then (elim again [ inl resp ↦ (inl resp, 2, 1) | inr last ↦ (inr last, 2, 2) ])
    else (inr error, 1, 1)
