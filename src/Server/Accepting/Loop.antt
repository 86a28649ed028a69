-- ===== src/Server/Accepting/Loop.antt =====
-- The loop that accepts connections.
use httplib.Base.{
  ◌≡◌, refl, ap, true, Option, none, some, List, [], ◌∷◌, ◌++◌, ◌⊎◌, inl, inr, All, ℕ,
}
use httplib.Server.Accepting.{Error, is_too_many, other, Met, co_accept}

module _ {ℓ} {S : Type ℓ} where
  -- A round after which the loop goes on: a socket, or too many files and a retry that comes.
  abbrev GoesOn : Met S → Type 0
  GoesOn m = elim m.accepted [
    | inl sock ↦ Unit
    | inr error ↦ (is_too_many error ≡ true) × (m.retried ≡ none)
  ]

  abbrev sockets : List (Met S) → List S
  sockets [] = []
  sockets (m ∷ met) = elim m.accepted [ inl sock ↦ sock ∷ sockets met | inr error ↦ sockets met ]

  abbrev pub fails : ℕ → Option Error → Met S
  fails code retried = record { accepted = inr (other code); retried = retried }

  -- As long as rounds bring a socket, or too many open files and then a retry, each socket is handed
  -- on, in order; the first error of another kind ends the loop, which returns it.
  pub co_accept-append :
      (met later : List (Met S)) (code : ℕ) (retried : Option Error)
      → All GoesOn met
      → co_accept (met ++ fails code retried ∷ later) ≡ (sockets met, some (other code))
  unfolding co_accept
  co_accept-append [] later code retried h = refl
  co_accept-append (m ∷ met) later code retried h =
      by_round m.accepted m.retried h.0 (co_accept-append met later code retried h.1)
    where
      by_round :
          (accepted : S ⊎ Error) (r : Option Error)
          → GoesOn (record { accepted = accepted; retried = r })
          → co_accept (met ++ fails code retried ∷ later) ≡ (sockets met, some (other code))
          → co_accept
              (record { accepted = accepted; retried = r } ∷ met ++ fails code retried ∷ later)
            ≡ (sockets (record { accepted = accepted; retried = r } ∷ met), some (other code))
      by_round (inl sock) r g e = ap (λ o. (sock ∷ o.0, o.1)) e
      by_round (inr error) r g e = rw (g.0, g.1) e
