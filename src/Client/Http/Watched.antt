-- ===== src/Client/Http/Watched.antt =====
-- Which waits of a request have a deadline.
use httplib.Base.{
  ℕ, zero, suc, ◌<◌, ◌≡◌, ◌≢◌, refl, Bool, true, false, not, ◌&&◌, List, [], ◌∷◌, ◌++◌, arith,
  if◌then◌else◌,
}
use httplib.Client.Http.{
  TimeoutPolicy, overall, step, never, Op, new_stream, expires_after, expires_never, connect,
  write_some, read_header_some, read_body_some, close_stream, Met, open_stream, rounds, expire,
  async_send_request_impl,
}

-- Whether the stream has a deadline behind a call; a new one has none.
abbrev armed_by : Op → Bool → Bool
armed_by new_stream armed = false
armed_by expires_after armed = true
armed_by expires_never armed = false
armed_by _ armed = armed

abbrev is_wait : Op → Bool
is_wait connect = true
is_wait write_some = true
is_wait read_header_some = true
is_wait read_body_some = true
is_wait _ = false

-- Every wait on the stream has a deadline, from a stream with or without one.
abbrev pub watched : Bool → List Op → Bool
watched armed [] = true
watched armed (op ∷ ops) =
    let rest = watched (armed_by op armed) ops in if is_wait op then armed && rest else rest

-- The policies under which every wait has one: `step`, and `overall` for a new connection.
abbrev is_watched : TimeoutPolicy → Bool → Bool
is_watched step is_open = true
is_watched overall is_open = not is_open
is_watched never is_open = false

-- What follows is watched whether there is a deadline or not.
abbrev IsWatched : List Op → Type 0
IsWatched ops = (armed : Bool) → watched armed ops ≡ true

module _ (op : Op) (waits : is_wait op ≡ true)
    (keeps : (armed : Bool) → armed_by op armed ≡ armed) where
  step-IsWatched : (n : ℕ) (ops : List Op) → IsWatched ops → IsWatched (rounds step n op ++ ops)
  unfolding rounds expire
  step-IsWatched zero ops h armed = h armed
  step-IsWatched (suc n) ops h armed = rw (waits, keeps true) (step-IsWatched n ops h true)

  overall-watched :
      (n : ℕ) (ops : List Op)
      → watched true ops ≡ true
      → watched true (rounds overall n op ++ ops) ≡ true
  unfolding rounds expire
  overall-watched zero ops h = h
  overall-watched (suc n) ops h = rw (waits, keeps true) (overall-watched n ops h)

abbrev ending : Bool → List Op
ending keeps = expires_never ∷ (if not keeps then expires_never ∷ close_stream ∷ [] else [])

abbrev exchange : TimeoutPolicy → ℕ → ℕ → ℕ → Bool → Bool → List Op
exchange policy writes header_reads body_reads is_head keeps =
    rounds policy writes write_some
    ++ (rounds policy header_reads read_header_some
        ++ ((if not is_head then rounds policy body_reads read_body_some else []) ++ ending keeps))

ending-IsWatched : (keeps : Bool) → IsWatched (ending keeps)
ending-IsWatched true armed = refl
ending-IsWatched false armed = refl

exchange-step : (w r b : ℕ) (head keeps : Bool) → IsWatched (exchange step w r b head keeps)
exchange-step w r b head keeps =
    step-IsWatched write_some refl (λ a. refl) w _
      (step-IsWatched read_header_some refl (λ a. refl) r _ (body head))
  where
    body :
        (head : Bool)
        → IsWatched ((if not head then rounds step b read_body_some else []) ++ ending keeps)
    body true = ending-IsWatched keeps
    body false =
        step-IsWatched read_body_some refl (λ a. refl) b (ending keeps) (ending-IsWatched keeps)

exchange-overall :
    (w r b : ℕ) (head keeps : Bool) → watched true (exchange overall w r b head keeps) ≡ true
exchange-overall w r b head keeps =
    overall-watched write_some refl (λ a. refl) w _
      (overall-watched read_header_some refl (λ a. refl) r _ (body head))
  where
    body :
        (head : Bool)
        → watched true ((if not head then rounds overall b read_body_some else []) ++ ending keeps)
          ≡ true
    body true = ending-IsWatched keeps true
    body false =
        overall-watched read_body_some refl (λ a. refl) b (ending keeps)
          (ending-IsWatched keeps true)

exchange-unwatched :
    (w : ℕ) (ops : List Op) (policy : TimeoutPolicy)
    → 0 < w
    → policy ≢ step
    → watched false (rounds policy w write_some ++ ops) ≡ false
unfolding rounds expire
exchange-unwatched zero ops policy h k = absurd (omega arith)
exchange-unwatched (suc w) ops overall h k = refl
exchange-unwatched (suc w) ops step h k = absurd (k refl)
exchange-unwatched (suc w) ops never h k = refl

-- For a request with at least one write, on a stream that has no deadline left: every wait on the
-- stream has a deadline under the policy `step`, and under `overall` where the connection is new;
-- under `overall` a connection that is open already, and under `never` any, is waited on without one.
pub async_send_request_impl-watched :
    (policy : TimeoutPolicy) (met : Met)
    → 0 < met.writes
    → watched false (async_send_request_impl policy met) ≡ is_watched policy met.is_open
unfolding async_send_request_impl open_stream expire
async_send_request_impl-watched policy met h = by_policy policy met.is_open met.is_address
  where
    rest : TimeoutPolicy → List Op
    rest policy =
        exchange policy met.writes met.header_reads met.body_reads met.is_head
          met.answer_keeps_alive

    by_policy :
        (policy : TimeoutPolicy) (is_open is_address : Bool)
        → watched false (
            open_stream policy (record {
              is_open = is_open;
              is_address = is_address;
              writes = met.writes;
              header_reads = met.header_reads;
              body_reads = met.body_reads;
              is_head = met.is_head;
              answer_keeps_alive = met.answer_keeps_alive;
            })
            ++ rest policy)
          ≡ is_watched policy is_open
    by_policy step true a =
        exchange-step met.writes met.header_reads met.body_reads met.is_head met.answer_keeps_alive
          false
    by_policy step false true =
        exchange-step met.writes met.header_reads met.body_reads met.is_head met.answer_keeps_alive
          true
    by_policy step false false =
        exchange-step met.writes met.header_reads met.body_reads met.is_head met.answer_keeps_alive
          true
    by_policy overall true a = exchange-unwatched met.writes _ overall h (λ e. cc)
    by_policy overall false true =
        exchange-overall met.writes met.header_reads met.body_reads met.is_head
          met.answer_keeps_alive
    by_policy overall false false =
        exchange-overall met.writes met.header_reads met.body_reads met.is_head
          met.answer_keeps_alive
    by_policy never true a = exchange-unwatched met.writes _ never h (λ e. cc)
    by_policy never false true = refl
    by_policy never false false = refl
