-- ===== src/Server/Session/Watching.antt =====
-- A machine that reads the events of a session and knows only whether a deadline is set, and what it
-- says of the loops of writing and reading.
use httplib.Base.{
  ◌≡◌, refl, ◌∙◌, Bool, true, false, Option, none, some, List, [], ◌∷◌, ◌++◌, ◌==◌, inl, inr,
  Bool-cases, ◌>>=◌,
}
use httplib.Server.Session.{
  Event, arm_read, arm_write, disarm, read_header, read_body, runs_pre, runs_proc, runs_post,
  asks_chunk, sends, write_some, write_chunk, write_last, close, Chunk, send_serialized,
  after_chunk, write_buffer, send_chunks, read_body_from,
}

-- Reads and writes need a deadline; whatever is not the stream's must not run under one. `none` is a
-- violation.
abbrev pub step : Bool → Event → Option Bool
step armed arm_read = some true
step armed arm_write = some true
step armed disarm = some false
step true read_header = some true
step true read_body = some true
step true write_some = some true
step true write_chunk = some true
step true write_last = some true
step false runs_pre = some false
step false runs_proc = some false
step false runs_post = some false
step false asks_chunk = some false
step false (sends status) = some false
step false close = some false
step armed e = none

unfoldable pub watch : Bool → List Event → Option Bool
watch armed [] = some armed
watch armed (e ∷ es) = step armed e >>= λ armed'. watch armed' es

-- From no deadline to no deadline, without a violation.
abbrev pub Quiet : List Event → Type 0
Quiet es = watch false es ≡ some false

pub watch-append :
    (a b : Bool) (es fs : List Event) → watch a es ≡ some b → watch a (es ++ fs) ≡ watch b fs
unfolding watch
watch-append a b [] fs h = cc
watch-append a b (e ∷ es) fs h = by_step (step a e) (λ c. watch-append c b es fs) h
  where
    by_step :
        (o : Option Bool)
        → ((c : Bool) → watch c es ≡ some b → watch c (es ++ fs) ≡ watch b fs)
        → (o >>= λ a'. watch a' es) ≡ some b
        → (o >>= λ a'. watch a' (es ++ fs)) ≡ watch b fs
    by_step none ih k = cc
    by_step (some c) ih k = ih c k

pub append-Quiet : (es fs : List Event) → Quiet es → Quiet fs → Quiet (es ++ fs)
append-Quiet es fs h k = watch-append false false es fs h ∙ k

pub watch-send_serialized :
    (armed : Bool) (ws : List Bool) → watch armed (send_serialized ws).0 ≡ some false
unfolding send_serialized watch
watch-send_serialized armed [] = refl
watch-send_serialized armed (true ∷ ws) = watch-send_serialized true ws
watch-send_serialized armed (false ∷ ws) = refl

pub after_chunk-Quiet :
    (c : Chunk) (rest : List Event × Option Bool) → Quiet rest.0 → Quiet (after_chunk c rest).0
unfolding after_chunk watch
after_chunk-Quiet c rest h = elim (Bool-cases c.has_more) [
  | inl e ↦ rw (e, after_chunk) h
  | inr e ↦ rw (e, after_chunk) refl
]

pub write_buffer-Quiet :
    (c : Chunk) (rest : List Event × Option Bool) → Quiet rest.0 → Quiet (write_buffer c rest).0
unfolding write_buffer watch
write_buffer-Quiet c rest h = elim (Bool-cases (c.size == 0)) [
  | inl e ↦ rw (e, write_buffer) (after_chunk-Quiet c rest h)
  | inr e ↦ elim (Bool-cases c.written) [
    | inl w ↦ rw (e, write_buffer, w) (after_chunk-Quiet c rest h)
    | inr w ↦ rw (e, write_buffer, w) refl
  ]
]

pub send_chunks-Quiet : (cs : List Chunk) → Quiet (send_chunks cs).0
unfolding send_chunks watch
send_chunks-Quiet [] = refl
send_chunks-Quiet (c ∷ cs) = elim (Bool-cases c.failed) [
  | inl e ↦ rw (e, send_chunks) refl
  | inr e ↦ rw (e, send_chunks) (write_buffer-Quiet c (send_chunks cs) (send_chunks-Quiet cs))
]

pub watch-read_body_from :
    (armed : Bool) (rs : List Bool) → watch armed (read_body_from rs).0 ≡ some false
unfolding read_body_from watch
watch-read_body_from armed [] = refl
watch-read_body_from armed (true ∷ rs) = watch-read_body_from true rs
watch-read_body_from armed (false ∷ rs) = refl
