-- ===== src/Client/Pool/History.antt =====
-- A history of the pool: what its handles hold, and what stays true throughout.
use httplib.Base.{
  ℕ, ◌+◌, ◌≤◌, ◌≡◌, refl, ap, subst, inl, inr, Bool, List, [], ◌∷◌, ◌++◌, Text, All, All-append,
  All-append_left, All-append_right, length, length-append, ltb, ◌==◌, if◌then◌else◌, ◌∙◌, arith,
  Bool-cases,
}
use httplib.Client.Pool.{Client, Pool, http_client_pool, acquire, release}

-- The pool, and the clients in the hands of handles that are alive.
pub record World : Type 0 where
  pub state : Pool
  pub held : List Client

pub data Step : World → World → Type 0 where
  acquires :
      (w : World)
      → Step w (record { state = (acquire w.state).0; held = (acquire w.state).1 ∷ w.held })
  -- the destructor of any of the handles
  releases :
      (w : World) (before after : List Client) (conn : Client)
      → w.held ≡ before ++ conn ∷ after
      → Step w (record { state = release w.state conn; held = before ++ after })

pub data Reach (w : World) : World → Type 0 where
  here : Reach w w
  next : {u v : World} → Reach w u → Step u v → Reach w v

-- How many clients of a list have the serial number `s`.
abbrev pub count : ℕ → List Client → ℕ
count s [] = 0
count s (c ∷ cs) = (if c.serial == s then 1 else 0) + count s cs

count-append : (s : ℕ) (cs ds : List Client) → count s (cs ++ ds) ≡ count s cs + count s ds
count-append s [] ds = omega arith
count-append s (c ∷ cs) ds = omega (arith, count-append s cs ds)

-- The client was made with the pool's own arguments.
pub record IsFor (p : Pool) (c : Client) : Type 0 where
  pub host : c.host ≡ p.host
  pub port : c.port ≡ p.port
  pub ssl : c.ssl ≡ p.ssl

-- The pool is within its limit, all its clients are made alike, and each is in one place: in the
-- queue, or in one handle.
pub record IsSound (w : World) : Type 0 where
  pub bounded : length w.state.pool ≤ w.state.max_size
  pub alike_idle : All (IsFor w.state) w.state.pool
  pub alike_held : All (IsFor w.state) w.held
  pub one_place :
      (s : ℕ) → count s w.state.pool + count s w.held ≤ (if ltb s w.state.made then 1 else 0)

IsFor-move :
    (p q : Pool) (cs : List Client)
    → p.host ≡ q.host
    → p.port ≡ q.port
    → p.ssl ≡ q.ssl
    → All (IsFor p) cs
    → All (IsFor q) cs
IsFor-move p q [] a b c h = tt
IsFor-move p q (d ∷ cs) a b c h = (
  record { host = h.0.host ∙ a; port = h.0.port ∙ b; ssl = h.0.ssl ∙ c },
  IsFor-move p q cs a b c h.1,
)

acquire-IsSound :
    (w : World) (cs : List Client)
    → w.state.pool ≡ cs
    → IsSound w
    → IsSound (record { state = (acquire w.state).0; held = (acquire w.state).1 ∷ w.held })
unfolding acquire
acquire-IsSound w [] e v =
    rw (e, acquire)
      (record {
        bounded = v.bounded;
        alike_idle = IsFor-move w.state _ w.state.pool refl refl refl v.alike_idle;
        alike_held = (
          record { host = refl; port = refl; ssl = refl },
          IsFor-move w.state _ w.held refl refl refl v.alike_held,
        );
        one_place = λ s. ground (arith, v.one_place s);
      })
acquire-IsSound w (c ∷ cs) e v =
    let idle : All (IsFor w.state) (c ∷ cs) = subst (All (IsFor w.state)) e v.alike_idle in
    rw (e, acquire)
      (record {
        bounded = omega (arith, ap length e, v.bounded);
        alike_idle = IsFor-move w.state _ cs refl refl refl idle.1;
        alike_held = IsFor-move w.state _ (c ∷ w.held) refl refl refl (idle.0, v.alike_held);
        one_place = λ s. ground (arith, v.one_place s, ap (count s) e);
      })

release-IsSound :
    (w : World) (before after : List Client) (conn : Client)
    → w.held ≡ before ++ conn ∷ after
    → IsSound w
    → IsSound (record { state = release w.state conn; held = before ++ after })
unfolding release
release-IsSound w before after conn e v =
    elim (Bool-cases (ltb (length w.state.pool) w.state.max_size)) [
      | inl fits ↦
          rw (fits, release)
            (record {
              bounded = ground (arith, length-append w.state.pool (conn ∷ []));
              alike_idle = IsFor-move w.state _ (w.state.pool ++ conn ∷ []) refl refl refl (
                  All-append (IsFor w.state) w.state.pool (conn ∷ []) v.alike_idle
                    (others.1.0, tt));
              alike_held = IsFor-move w.state _ (before ++ after) refl refl refl remaining;
              one_place = λ s. ground (
                arith,
                v.one_place s,
                count-append s w.state.pool (conn ∷ []),
                count-append s before after,
                count-append s before (conn ∷ after),
                ap (count s) e,
              );
            })
      | inr full ↦
          rw (full, release)
            (record {
              bounded = v.bounded;
              alike_idle = v.alike_idle;
              alike_held = remaining;
              one_place = λ s. ground (
                arith,
                v.one_place s,
                count-append s before after,
                count-append s before (conn ∷ after),
                ap (count s) e,
              );
            })
    ]
  where
    others : All (IsFor w.state) before × All (IsFor w.state) (conn ∷ after)
    others =
        let all : All (IsFor w.state) (before ++ conn ∷ after) =
          subst (All (IsFor w.state)) e v.alike_held in
        (
          All-append_left (IsFor w.state) before (conn ∷ after) all,
          All-append_right (IsFor w.state) before (conn ∷ after) all,
        )

    remaining : All (IsFor w.state) (before ++ after)
    remaining = All-append (IsFor w.state) before after others.0 others.1.1

Step-IsSound : {u v : World} → Step u v → IsSound u → IsSound v
Step-IsSound (acquires w) s = acquire-IsSound w w.state.pool refl s
Step-IsSound (releases w before after conn e) s = release-IsSound w before after conn e s

Reach-IsSound : {u v : World} → IsSound u → Reach u v → IsSound v
Reach-IsSound s here = s
Reach-IsSound s (next r st) = Step-IsSound st (Reach-IsSound s r)

abbrev pub opened : Text → ℕ → Bool → ℕ → World
opened host port ssl max_size = record {
  state = http_client_pool host port ssl max_size;
  held = [];
}

-- However handles are made and destroyed, in any order: the queue stays within the limit of the
-- pool, every client was made with its host, port and security, and a client is either once in
-- the queue or in one handle.
pub reached-IsSound :
    (host : Text) (port : ℕ) (ssl : Bool) (max_size : ℕ) {w : World}
    → Reach (opened host port ssl max_size) w
    → IsSound w
unfolding http_client_pool
reached-IsSound host port ssl max_size r =
    Reach-IsSound
      (record {
        bounded = omega arith;
        alike_idle = tt;
        alike_held = tt;
        one_place = λ s. ground arith;
      })
      r
