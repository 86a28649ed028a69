-- ===== src/Client/MultiPool/History.antt =====
-- What the queues of the pool hold, over any sequence of calls.
use httplib.Base.{
  ℕ, suc, ◌<◌, ◌≡◌, refl, sym, ap, subst, ◌∙◌, inl, inr, Bool, true, false, List, [], ◌∷◌, ◌++◌,
  Text, All, All-append, length, ltb, lt→ltb, arith, Bool-cases, eq_text_refl, eq_of_eq_text,
}
use httplib.Client.Pool.{Client}
use httplib.Client.MultiPool.{
  ConnectionInfo, same_info, Pools, find_pool, queue_of, set_pool, MultiPool,
  multi_http_client_pool, acquire, released_info, release,
}

same_info_refl : (i : ConnectionInfo) → same_info i i ≡ true
unfolding same_info
same_info_refl i = rw (eq_text_refl i.host) (ground arith)

eq_of_same_info : (i j : ConnectionInfo) → same_info i j ≡ true → i ≡ j
unfolding same_info
eq_of_same_info i j h = ground (arith, eq_of_eq_text i.host j.host)

queue_of-set_pool :
    (info : ConnectionInfo) (q : List Client) (ps : Pools)
    → queue_of (find_pool info (set_pool info q ps)) ≡ q
unfolding find_pool set_pool
queue_of-set_pool info q [] = rw (same_info_refl info) refl
queue_of-set_pool info q ((i, r) ∷ ps) = elim (Bool-cases (same_info i info)) [
  | inl e ↦ rw (e) (rw e refl)
  | inr e ↦ rw (e) (rw e (queue_of-set_pool info q ps))
]

-- The clients of a queue were made for its host and port, and only queues without security have any.
abbrev pub IsFiled : ConnectionInfo → Client → Type 0
IsFiled info c = (c.host ≡ info.host) × (c.port ≡ info.port) × (info.ssl ≡ false)

abbrev pub AllFiled : Pools → Type 0
AllFiled [] = Unit {0}
AllFiled ((info, q) ∷ ps) = All (IsFiled info) q × AllFiled ps

find_pool-AllFiled :
    (info : ConnectionInfo) (ps : Pools)
    → AllFiled ps
    → All (IsFiled info) (queue_of (find_pool info ps))
unfolding find_pool
find_pool-AllFiled info [] h = tt
find_pool-AllFiled info ((i, q) ∷ ps) h = elim (Bool-cases (same_info i info)) [
  | inl e ↦ rw e (subst (λ j. All (IsFiled j) q) (eq_of_same_info i info e) h.0)
  | inr e ↦ rw e (find_pool-AllFiled info ps h.1)
]

set_pool-AllFiled :
    (info : ConnectionInfo) (q : List Client) (ps : Pools)
    → All (IsFiled info) q
    → AllFiled ps
    → AllFiled (set_pool info q ps)
unfolding set_pool
set_pool-AllFiled info q [] k h = (k, tt)
set_pool-AllFiled info q ((i, r) ∷ ps) k h = elim (Bool-cases (same_info i info)) [
  | inl e ↦ rw e (subst (λ j. All (IsFiled j) q) (sym (eq_of_same_info i info e)) k, h.1)
  | inr e ↦ rw e (h.0, set_pool-AllFiled info q ps k h.1)
]

-- The calls on the pool: an `acquire`, or the `release` of any client at all.
pub data Call : Type 0 where
  acquires : Text → ℕ → Bool → Call
  releases : Client → Call

abbrev pub step : MultiPool → Call → MultiPool
step p (acquires host port ssl) = (acquire p host port ssl).0
step p (releases conn) = release p conn

abbrev pub run : MultiPool → List Call → MultiPool
run p [] = p
run p (c ∷ cs) = run (step p c) cs

module _ (p : MultiPool) (host : Text) (port : ℕ) (ssl : Bool) where
  abbrev asked_info : ConnectionInfo
  asked_info = record { host = host; port = port; ssl = ssl }

  abbrev asked_queue : List Client
  asked_queue = queue_of (find_pool asked_info p.pools)

  abbrev pub new_client : Client
  new_client = record { serial = p.made; host = host; port = port; ssl = ssl }

  acquire-new :
      asked_queue ≡ [] → acquire p host port ssl ≡ (record p { made = suc p.made }, new_client)
  unfolding acquire
  acquire-new e = rw (e, acquire) refl

  acquire-old :
      (c : Client) (rest : List Client)
      → asked_queue ≡ c ∷ rest
      → acquire p host port ssl ≡ (record p { pools = set_pool asked_info rest p.pools }, c)
  unfolding acquire
  acquire-old c rest e = rw (e, acquire) refl

  acquire-AllFiled :
      (q : List Client)
      → asked_queue ≡ q
      → AllFiled p.pools
      → AllFiled (acquire p host port ssl).0.pools
  acquire-AllFiled [] e h = rw (acquire-new e) h
  acquire-AllFiled (c ∷ rest) e h = rw (acquire-old c rest e) (
      set_pool-AllFiled asked_info rest p.pools
        (subst (All (IsFiled asked_info)) e (find_pool-AllFiled asked_info p.pools h)).1 h)

  -- A client of the pool for the asked host and port; one for secure connections is always new.
  pub record IsApt : Type 0 where
    pub host_matches : (acquire p host port ssl).1.host ≡ host
    pub port_matches : (acquire p host port ssl).1.port ≡ port
    pub secure_new : ssl ≡ true → (acquire p host port ssl).1 ≡ new_client

  acquire-IsApt : (q : List Client) → asked_queue ≡ q → AllFiled p.pools → IsApt
  acquire-IsApt [] e h = record {
    host_matches = rw (acquire-new e) refl;
    port_matches = rw (acquire-new e) refl;
    secure_new = λ _. ap (λ (r : MultiPool × Client). r.1) (acquire-new e);
  }
  acquire-IsApt (c ∷ rest) e h =
      let filed : IsFiled asked_info c =
        (subst (All (IsFiled asked_info)) e (find_pool-AllFiled asked_info p.pools h)).0 in
      record {
        host_matches = rw (acquire-old c rest e) filed.0;
        port_matches = rw (acquire-old c rest e) filed.1;
        secure_new = λ secure. absurd (contradiction (sym secure ∙ filed.2));
      }
    where
      contradiction : true ≡ false → ⊥
      contradiction k = cc

release-AllFiled :
    (p : MultiPool) (conn : Client) → AllFiled p.pools → AllFiled (release p conn).pools
unfolding release
release-AllFiled p conn h =
    let info = released_info conn in
    let q = queue_of (find_pool info p.pools) in
    let filed = find_pool-AllFiled info p.pools h in
    elim (Bool-cases (ltb (length q) p.max_size)) [
      | inl e ↦
          rw (e, release)
            (set_pool-AllFiled info (q ++ conn ∷ []) p.pools
              (All-append (IsFiled info) q (conn ∷ []) filed ((refl, refl, refl), tt)) h)
      | inr e ↦ rw (e, release) (set_pool-AllFiled info q p.pools filed h)
    ]

step-AllFiled : (p : MultiPool) (c : Call) → AllFiled p.pools → AllFiled (step p c).pools
step-AllFiled p (acquires host port ssl) h = acquire-AllFiled p host port ssl _ refl h
step-AllFiled p (releases conn) h = release-AllFiled p conn h

run-AllFiled : (p : MultiPool) (cs : List Call) → AllFiled p.pools → AllFiled (run p cs).pools
run-AllFiled p [] h = h
run-AllFiled p (c ∷ cs) h = run-AllFiled (step p c) cs (step-AllFiled p c h)

-- After any sequence of calls, a client that is acquired is for the host and the port that were
-- asked for; if a secure connection is asked for, the client is a new one, made for just that.
pub run-acquire-IsApt :
    (max_size : ℕ) (cs : List Call) (host : Text) (port : ℕ) (ssl : Bool)
    → IsApt (run (multi_http_client_pool max_size) cs) host port ssl
unfolding multi_http_client_pool
run-acquire-IsApt max_size cs host port ssl =
    acquire-IsApt (run (multi_http_client_pool max_size) cs) host port ssl _ refl
      (run-AllFiled (multi_http_client_pool max_size) cs tt)

-- A client is filed as one without security when it is released, whatever it is: if no plain client
-- is idle for its host and port and the pool keeps clients, then the next caller who asks for a
-- plain connection there is given it, be it a secure one.
pub acquire-release :
    (p : MultiPool) (conn : Client)
    → queue_of (find_pool (released_info conn) p.pools) ≡ []
    → 0 < p.max_size
    → (acquire (release p conn) conn.host conn.port false).1 ≡ conn
unfolding release
acquire-release p conn e h =
    ap (λ (r : MultiPool × Client). r.1)
      (acquire-old (release p conn) conn.host conn.port false conn [] filed)
  where
    filed : queue_of (find_pool (released_info conn) (release p conn).pools) ≡ conn ∷ []
    filed =
        rw (e, release, lt→ltb 0 p.max_size h)
          (queue_of-set_pool (released_info conn) (conn ∷ []) p.pools)
