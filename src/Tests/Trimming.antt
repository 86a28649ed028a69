-- ===== src/Tests/Trimming.antt =====
-- A function that does what is relied on of `boost::algorithm::trim_copy`.
use httplib.Base.{
  ℕ, ◌≡◌, refl, ap, ◌∙◌, inl, inr, false, [], ◌∷◌, ◌++◌, Text, All, Bool-cases, if◌then◌else◌,
}
use httplib.Util.Trim.{is_space, IsSpace, StartsClean, EndsClean, Trimming}

-- The spaces at the front, and the rest.
unfoldable pub lead : Text → Text × Text
lead [] = ([], [])
lead (c ∷ s) = let rest = lead s in if is_space c then (c ∷ rest.0, rest.1) else ([], c ∷ s)

unfoldable pub join : ℕ → Text × Text → Text × Text
join c ([], a) = if is_space c then ([], c ∷ a) else (c ∷ [], a)
join c (d ∷ m, a) = (c ∷ d ∷ m, a)

-- The text up to its last character that is not a space, and the rest.
unfoldable pub ends : Text → Text × Text
ends [] = ([], [])
ends (c ∷ s) = join c (ends s)

pub lead-splits : (s : Text) → (lead s).0 ++ (lead s).1 ≡ s
unfolding lead
lead-splits [] = refl
lead-splits (c ∷ s) = elim (Bool-cases (is_space c)) [
  | inl e ↦ rw (e, lead) (ap (λ r. c ∷ r) (lead-splits s))
  | inr e ↦ rw (e, lead) refl
]

pub lead-spaces : (s : Text) → All IsSpace (lead s).0
unfolding lead
lead-spaces [] = tt
lead-spaces (c ∷ s) = elim (Bool-cases (is_space c)) [
  | inl e ↦ rw (e, lead) (e, lead-spaces s)
  | inr e ↦ rw (e, lead) tt
]

pub lead-StartsClean : (s : Text) → StartsClean (lead s).1
unfolding lead
lead-StartsClean [] = tt
lead-StartsClean (c ∷ s) = elim (Bool-cases (is_space c)) [
  | inl e ↦ rw (e, lead) (lead-StartsClean s)
  | inr e ↦ rw (e, lead) e
]

join-splits : (c : ℕ) (r : Text × Text) → (join c r).0 ++ (join c r).1 ≡ c ∷ (r.0 ++ r.1)
unfolding join
join-splits c ([], a) = elim (Bool-cases (is_space c)) [
  | inl e ↦ rw (e, join) refl
  | inr e ↦ rw (e, join) refl
]
join-splits c (d ∷ m, a) = refl

join-spaces : (c : ℕ) (r : Text × Text) → All IsSpace r.1 → All IsSpace (join c r).1
unfolding join
join-spaces c ([], a) h = elim (Bool-cases (is_space c)) [
  | inl e ↦ rw (e, join) (e, h)
  | inr e ↦ rw (e, join) h
]
join-spaces c (d ∷ m, a) h = h

join-EndsClean : (c : ℕ) (r : Text × Text) → EndsClean r.0 → EndsClean (join c r).0
unfolding join
join-EndsClean c ([], a) h = elim (Bool-cases (is_space c)) [
  | inl e ↦ rw (e, join) tt
  | inr e ↦ rw (e, join) e
]
join-EndsClean c (d ∷ m, a) h = h

join-StartsClean : (c : ℕ) (r : Text × Text) → is_space c ≡ false → StartsClean (join c r).0
unfolding join
join-StartsClean c ([], a) e = rw (e, join) e
join-StartsClean c (d ∷ m, a) e = e

pub ends-splits : (s : Text) → (ends s).0 ++ (ends s).1 ≡ s
unfolding ends
ends-splits [] = refl
ends-splits (c ∷ s) = join-splits c (ends s) ∙ ap (λ r. c ∷ r) (ends-splits s)

pub ends-spaces : (s : Text) → All IsSpace (ends s).1
unfolding ends
ends-spaces [] = tt
ends-spaces (c ∷ s) = join-spaces c (ends s) (ends-spaces s)

pub ends-EndsClean : (s : Text) → EndsClean (ends s).0
unfolding ends
ends-EndsClean [] = tt
ends-EndsClean (c ∷ s) = join-EndsClean c (ends s) (ends-EndsClean s)

pub ends-StartsClean : (s : Text) → StartsClean s → StartsClean (ends s).0
unfolding ends
ends-StartsClean [] h = tt
ends-StartsClean (c ∷ s) h = join-StartsClean c (ends s) h

unfoldable pub trimming : Trimming
unfolding lead ends
trimming = record {
  trim = λ s. (ends (lead s).1).0;
  before = λ s. (lead s).0;
  after = λ s. (ends (lead s).1).1;
  splits = λ s. ap (λ r. (lead s).0 ++ r) (ends-splits (lead s).1) ∙ lead-splits s;
  before_spaces = lead-spaces;
  after_spaces = λ s. ends-spaces (lead s).1;
  trim_starts = λ s. ends-StartsClean (lead s).1 (lead-StartsClean s);
  trim_ends = λ s. ends-EndsClean (lead s).1;
}
