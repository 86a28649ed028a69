-- ===== src/Server/MountPoint/Components.antt =====
-- A reference for the check of a path: its components, and the directory that they lead to.
use httplib.Base.{
  ℕ, zero, suc, ◌≤◌, ◌<◌, ◌≡◌, ◌≢◌, ◌⊎◌, inl, inr, refl, sym, ap, ◌∙◌, Bool, true, false, ◌&&◌,
  ◌||◌, not, Option, none, some, List, [], ◌∷◌, ◌++◌, ◌>>=◌, ◌==◌, if◌then◌else◌, Text, length,
  null, Lacks, arith, ==_ne, length-append, append-nil, subst, Option-cases,
}
use native.Mathlib.Decide.{ℕ_discrete}
use httplib.Server.MountPoint.{skip_slash, read_component, level_after, valid_from, is_valid_path}

abbrev onto : ℕ → List Text → List Text
onto c [] = (c ∷ []) ∷ []
onto c (p ∷ ps) = (c ∷ p) ∷ ps

-- The texts between the slashes, empty ones too.
fields : Text → List Text
fields [] = [] ∷ []
fields (c ∷ s) = let rest = fields s in if c == b'/' then [] ∷ rest else onto c rest

nonempty : List Text → List Text
nonempty [] = []
nonempty (p ∷ ps) = let rest = nonempty ps in if null p then rest else p ∷ rest

-- The components of a path.
unfoldable pub components : Text → List Text
unfolding fields nonempty
components path = nonempty (fields path)

-- The path has neither a null byte nor a backslash.
abbrev pub is_clean : Text → Bool
is_clean [] = true
is_clean (c ∷ s) = not (c == 0 || c == 92) && is_clean s

-- The level behind some components, if none of them leads above level 0.
abbrev pub levels : ℕ → List Text → Option ℕ
levels level [] = some level
levels level (p ∷ ps) = level_after level p >>= λ l. levels l ps

abbrev pub is_some {ℓ} : {A : Type ℓ} → Option A → Bool
is_some none = false
is_some (some a) = true

fields-Lacks : (p : Text) → Lacks b'/' p → fields p ≡ p ∷ []
unfolding fields
fields-Lacks [] h = refl
fields-Lacks (c ∷ p) h = rw (==_ne c b'/' h.0, fields-Lacks p h.1) refl

fields-append : (p r : Text) → Lacks b'/' p → fields (p ++ b'/' ∷ r) ≡ p ∷ fields r
unfolding fields
fields-append [] r h = refl
fields-append (c ∷ p) r h = rw (==_ne c b'/' h.0, fields-append p r h.1) refl

components-skip_slash : (s : Text) → components (skip_slash s) ≡ components s
unfolding components skip_slash
components-skip_slash [] = refl
components-skip_slash (c ∷ s) = ground (arith, components-skip_slash s)

is_clean-skip_slash : (s : Text) → is_clean (skip_slash s) ≡ is_clean s
unfolding skip_slash
is_clean-skip_slash [] = refl
is_clean-skip_slash (c ∷ s) = ground (arith, is_clean-skip_slash s)

length-skip_slash : (s : Text) → length (skip_slash s) ≤ length s
unfolding skip_slash
length-skip_slash [] = omega arith
length-skip_slash (c ∷ s) = ground (arith, length-skip_slash s)

is_clean-append : (p r : Text) → is_clean (p ++ r) ≡ (is_clean p && is_clean r)
is_clean-append [] r = refl
is_clean-append (c ∷ p) r = ground (arith, is_clean-append p r)

-- What a round of the inner loop reads.
abbrev AtSlash : Text → Type 0
AtSlash [] = Unit
AtSlash (c ∷ s) = c ≡ b'/'

record IsRead (s component rest : Text) : Type 0 where
  whole : s ≡ component ++ rest
  free : Lacks b'/' component
  clean : is_clean component ≡ true
  stops : AtSlash rest

read_component-none : (s : Text) → read_component s ≡ none → is_clean s ≡ false
unfolding read_component
read_component-none [] h = cc
read_component-none (c ∷ s) h = ground (arith, read_component-none s)

-- A byte that the inner loop passes over.
abbrev IsPlain : ℕ → Type 0
IsPlain c = (c ≢ b'/') × (c ≢ 0) × (c ≢ 92)

read_component-step :
    (c : ℕ) (s : Text) {q : Text × Text}
    → read_component (c ∷ s) ≡ some q
    → ((c ≡ b'/') × (q ≡ ([], c ∷ s)))
      ⊎ (IsPlain c × ((r : Text × Text) × (read_component s ≡ some r) × (q ≡ (c ∷ r.0, r.1))))
unfolding read_component
read_component-step c s {q} h = elim (ℕ_discrete c b'/') [
  | yes e ↦ inl (e, ground arith)
  | no e ↦ inr (elim (Option-cases (read_component s)) [
    | inl n ↦ absurd (ground (arith, n))
    | inr (r, m) ↦ ((e, ground arith, ground arith), (r, m, ground (arith, m)))
  ])
]

read_component-some : (s : Text) (q : Text × Text) → read_component s ≡ some q → IsRead s q.0 q.1
read_component-some [] q h =
    unfold read_component in
    subst (λ (r : Text × Text). IsRead [] r.0 r.1) {x = ([], [])} (cc h)
      (record { whole = refl; free = tt; clean = refl; stops = tt })
read_component-some (c ∷ s) q h = elim (read_component-step c s h) [
  | inl (e, k) ↦ rw k (record { whole = refl; free = tt; clean = refl; stops = e })
  | inr (plain, (r, m, k)) ↦
      let ih = read_component-some s r m in
      rw k (record {
        whole = ap (◌∷◌ c) ih.whole;
        free = (plain.0, ih.free);
        clean = ground (arith, ih.clean);
        stops = ih.stops;
      })
]

-- The reference parts of what a round reads.
components-read :
    (c : ℕ) (component rest : Text)
    → Lacks b'/' (c ∷ component)
    → AtSlash rest
    → components ((c ∷ component) ++ rest) ≡ (c ∷ component) ∷ components rest
unfolding components nonempty
components-read c component [] h k =
    ap nonempty (ap fields (append-nil (c ∷ component)) ∙ fields-Lacks (c ∷ component) h)
components-read c component (x ∷ rest) h k =
    rw k (ap nonempty (fields-append (c ∷ component) rest h))

-- A path that does not start with a slash has a first component.
accepts : ℕ → Text → Bool
accepts level s = is_clean s && is_some (levels level (components s))

NoSlashFirst : Text → Type 0
NoSlashFirst [] = Unit
NoSlashFirst (c ∷ s) = c ≢ b'/'

skip_slash-NoSlashFirst : (s : Text) → NoSlashFirst (skip_slash s)
unfolding skip_slash NoSlashFirst
skip_slash-NoSlashFirst [] = tt
skip_slash-NoSlashFirst (c ∷ s) = elim (ℕ_discrete c b'/') [
  | yes e ↦ rw (e) (skip_slash-NoSlashFirst s)
  | no e ↦ rw (==_ne c b'/' e) e
]

-- A round of the outer loop, against the reference.
accepts-none : (level : ℕ) (s : Text) → read_component s ≡ none → accepts level s ≡ false
unfolding accepts
accepts-none level s h = rw (read_component-none s h) refl

abbrev accepts_next : Option ℕ → Text → Bool
accepts_next none rest = false
accepts_next (some level) rest = accepts level (skip_slash rest)

and-false : (b : Bool) → (b && false) ≡ false
and-false true = refl
and-false false = refl

accepts-split :
    (level c : ℕ) (component rest : Text)
    → Lacks b'/' (c ∷ component)
    → is_clean (c ∷ component) ≡ true
    → AtSlash rest
    → accepts level ((c ∷ component) ++ rest)
      ≡ accepts_next (level_after level (c ∷ component)) rest
unfolding accepts
accepts-split level c component rest free clean stops =
    rw (is_clean-append (c ∷ component) rest, clean, components-read c component rest free stops)
      (by_level (level_after level (c ∷ component)))
  where
    by_level :
        (o : Option ℕ)
        → (is_clean rest && is_some (o >>= λ l. levels l (components rest))) ≡ accepts_next o rest
    by_level none = and-false (is_clean rest)
    by_level (some l) = rw (is_clean-skip_slash rest, components-skip_slash rest) refl

accepts-some :
    (level c : ℕ) (s component rest : Text)
    → IsRead (c ∷ s) component rest
    → c ≢ b'/'
    → accepts level (c ∷ s) ≡ accepts_next (level_after level component) rest
accepts-some level c s [] [] read h = absurd (omega (arith, ap length read.whole))
accepts-some level c s [] (x ∷ rest) read h = absurd (h (ground (arith, read.whole, read.stops)))
accepts-some level c s (x ∷ component) rest read h =
    rw read.whole (accepts-split level x component rest read.free read.clean read.stops)

read_component-length :
    (c : ℕ) (s component rest : Text)
    → IsRead (c ∷ s) component rest
    → c ≢ b'/'
    → length rest ≤ length s
read_component-length c s [] [] read h = absurd (omega (arith, ap length read.whole))
read_component-length c s [] (x ∷ rest) read h = absurd (h (ground (arith, read.whole, read.stops)))
read_component-length c s (x ∷ component) rest read h =
    omega (arith, ap length read.whole, length-append component rest)

valid_from-accepts :
    (fuel level : ℕ) (s : Text)
    → NoSlashFirst s
    → length s < fuel
    → valid_from fuel level s ≡ some (accepts level s)
unfolding NoSlashFirst valid_from
valid_from-accepts zero level s h k = absurd (omega arith)
valid_from-accepts (suc fuel) level [] h k = unfold accepts components fields nonempty in refl
valid_from-accepts (suc fuel) level (c ∷ s) h k = elim (Option-cases (read_component (c ∷ s))) [
  | inl e ↦ rw (e, valid_from) (ap some (sym (accepts-none level (c ∷ s) e)))
  | inr ((component, rest), e) ↦
      let read = read_component-some (c ∷ s) (component, rest) e in
      let short = read_component-length c s component rest read h in
      rw (e, valid_from)
        (next (level_after level component) rest (λ l.
            valid_from-accepts fuel l (skip_slash rest) (skip_slash-NoSlashFirst rest)
              (omega (arith, length-skip_slash rest)))
          ∙ ap some (sym (accepts-some level c s component rest read h)))
]
  where
    next :
        (o : Option ℕ) (rest : Text)
        → ((l : ℕ) → valid_from fuel l (skip_slash rest) ≡ some (accepts l (skip_slash rest)))
        → (elim o [ none ↦ some false | some l ↦ valid_from fuel l (skip_slash rest) ])
          ≡ some (accepts_next o rest)
    next none rest ih = refl
    next (some l) rest ih = ih l

-- The check, for every path: its bytes are clean, and no component leads above the start.
pub is_valid_path-levels :
    (path : Text) → is_valid_path path ≡ (is_clean path && is_some (levels 0 (components path)))
unfolding is_valid_path accepts
is_valid_path-levels path =
    rw
      (
        valid_from-accepts (suc (length path)) 0 (skip_slash path) (skip_slash-NoSlashFirst path)
            (omega (arith, length-skip_slash path)),
        is_clean-skip_slash path,
        components-skip_slash path,
      )
      refl
