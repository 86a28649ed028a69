-- ===== src/Util/Split/Lacks.antt =====
-- The parts that `util::split` gives have no byte of the delimiter.
use native.Mathlib.Decide.{ℕ_discrete}
use httplib.Base.{
  ==_refl, ==_ne, ℕ, ◌≢◌, sym, subst, Bool, true, false, List, [], ◌∷◌, ◌++◌, Text, null,
  if◌then◌else◌, All, All-append_left, All-append_right, Lacks, map,
}
use httplib.Util.Trim.{Trimming}
use httplib.Util.Split.{split}
use httplib.Util.Split.Pieces.{pieces, without_first, onto}
use httplib.Util.Split.Laws.{split-pieces}

-- What is trimmed has no byte that was not there.
pub trim-Lacks : (boost : Trimming) (c : ℕ) (s : Text) → Lacks c s → Lacks c (boost.trim s)
trim-Lacks boost c s h =
    All-append_left (λ x. x ≢ c) (boost.trim s) (boost.after s)
      (All-append_right (λ x. x ≢ c) (boost.before s) (boost.trim s ++ boost.after s)
        (subst (Lacks c) (sym (boost.splits s)) h))

onto-Lacks : (c x : ℕ) (ps : List Text) → x ≢ c → All (Lacks c) ps → All (Lacks c) (onto x ps)
onto-Lacks c x [] h k = ((h, tt), tt)
onto-Lacks c x (p ∷ ps) h k = ((h, k.0), k.1)

pieces-All-Lacks : (c : ℕ) (s : Text) → All (Lacks c) (pieces c s)
unfolding pieces
pieces-All-Lacks c [] = (tt, tt)
pieces-All-Lacks c (x ∷ s) = elim (ℕ_discrete x c) [
  | yes e ↦ rw (e, ==_refl c) (tt, rest_or_none (null s) (pieces-All-Lacks c s))
  | no e ↦ rw (==_ne x c e) (onto-Lacks c x (pieces c s) e (pieces-All-Lacks c s))
]
  where
    rest_or_none :
        (b : Bool) → All (Lacks c) (pieces c s) → All (Lacks c) (if b then [] else pieces c s)
    rest_or_none true h = tt
    rest_or_none false h = h

trimmed-Lacks :
    (boost : Trimming) (c : ℕ) (ps : List Text)
    → All (Lacks c) ps
    → All (Lacks c) (map boost.trim ps)
trimmed-Lacks boost c [] h = tt
trimmed-Lacks boost c (p ∷ ps) h = (trim-Lacks boost c p h.0, trimmed-Lacks boost c ps h.1)

pub split-Lacks : (boost : Trimming) (c : ℕ) (s : Text) → All (Lacks c) (split boost s (c ∷ []))
unfolding split
split-Lacks boost c [] = tt
split-Lacks boost c (x ∷ s) =
    subst (All (Lacks c)) (sym (split-pieces boost c (x ∷ s) (λ e. cc)))
      (trimmed-Lacks boost c _ (pieces-All-Lacks c (without_first c (x ∷ s))))
