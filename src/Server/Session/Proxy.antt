-- ===== src/Server/Session/Proxy.antt =====
-- `http_proxy_task::then` and `detail::transfer` of lib/server/session.cpp, over the results of what
-- they wait for.
use httplib.Base.{
  drop-append_cons, ℕ, ◌+◌, ◌≡◌, refl, ap, ◌∙◌, Bool, true, false, Option, none, some, List, [],
  ◌∷◌, ◌++◌, Text, codes, All, find, take, drop, length, null, Lacks, take-append, append-nil,
  append_assoc, length-append, sym, arith, if◌then◌else◌,
}
use httplib.Util.Split.Pieces.{find-append}

-- A round of `transfer`: the bytes read, and whether the read and the write fail.
pub record Read : Type 0 where
  pub bytes : Text
  pub read_fails : Bool
  pub write_fails : Bool

-- Which of the two streams is shut down at the end.
pub data Shut : Type 0 where
  to_send from_receive : Shut

-- What is written to the other side, `bytes_transferred`, and how it ended; `none` while it goes on.
unfoldable pub transfer : List Read → ℕ → List Text × ℕ × Option Shut
transfer [] count = ([], count, none)
transfer (r ∷ reads) count =
    let (written, total, shut) = transfer reads (count + length r.bytes) in
    if r.read_fails
    then ((if null r.bytes then [] else r.bytes ∷ []), count, some to_send)
    else if r.write_fails
    then (r.bytes ∷ [], count, some from_receive)
    else (r.bytes ∷ written, total, shut)

-- What `then` meets: whether the host is resolved, the connection made and the answer written.
pub record Met : Type 0 where
  pub resolves : Bool
  pub connects : Bool
  pub answers : Bool

-- What `then` does, in order; the task that it returns is always null.
pub data Step : Type 0 where
  async_resolve : Text → Text → Step
  async_connect send_established transfer_both : Step

unfoldable proxy_steps : Text → Text → Met → List Step
proxy_steps host port met =
    async_resolve host port
    ∷ (if met.resolves
        then async_connect
          ∷ (if met.connects
              then send_established ∷ (if met.answers then transfer_both ∷ [] else [])
              else [])
        else [])

unfoldable pub then_proxy : Text → Met → List Step
unfolding find proxy_steps
then_proxy target met = elim (find target (codes ":")) [
  | none ↦ []
  | some pos ↦ proxy_steps (take pos target) (drop (pos + 1) target) met
]

abbrev pub all_bytes : List Text → Text
all_bytes [] = []
all_bytes (s ∷ texts) = s ++ all_bytes texts

abbrev pub read_bytes : List Read → Text
read_bytes [] = []
read_bytes (r ∷ reads) = r.bytes ++ read_bytes reads

-- A read that comes and is written.
abbrev Relayed : Read → Type 0
Relayed r = (r.read_fails ≡ false) × (r.write_fails ≡ false)

-- Whatever is read from one side before its reads fail, the bytes that come with the failure
-- included, is written to the other side in that order, unless a write fails; then that side is shut
-- down for sending. The count leaves the last bytes out.
pub transfer-read_bytes :
    (reads : List Read) (last : Read) (later : List Read) (count : ℕ)
    → All Relayed reads
    → last.read_fails ≡ true
    → (all_bytes (transfer (reads ++ last ∷ later) count).0 ≡ read_bytes reads ++ last.bytes)
      × ((transfer (reads ++ last ∷ later) count).1 ≡ count + length (read_bytes reads))
      × ((transfer (reads ++ last ∷ later) count).2 ≡ some to_send)
unfolding transfer
transfer-read_bytes [] last later count h k = rw k (last_bytes last.bytes, omega arith, refl)
  where
    last_bytes : (s : Text) → all_bytes (if null s then [] else s ∷ []) ≡ s
    last_bytes [] = refl
    last_bytes (x ∷ s) = append-nil (x ∷ s)
transfer-read_bytes (r ∷ reads) last later count h k =
    let rest = transfer-read_bytes reads last later (count + length r.bytes) h.1 k in
    rw (h.0.0, h.0.1)
      (
        ap (λ t. r.bytes ++ t) rest.0 ∙ sym (append_assoc r.bytes (read_bytes reads) last.bytes),
        omega (arith, rest.1, length-append r.bytes (read_bytes reads)),
        rest.2,
      )

-- A target `host:port` is resolved as that host and port, for a host without a colon.
then_proxy-target :
    (host port : Text) (met : Met)
    → Lacks 58 host
    → then_proxy (host ++ 58 ∷ port) met ≡ proxy_steps host port met
unfolding then_proxy
then_proxy-target host port met h =
    rw
      (
        find-append 58 host port h,
        take-append host (58 ∷ port),
        drop-append_cons host 58 port,
        then_proxy,
      )
      refl
