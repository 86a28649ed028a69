-- ===== src/Server/MountPoint/Confinement.antt =====
-- A path that passes the check stays below the directory it is taken relative to.
use httplib.Base.{
  suc, ◌≡◌, ◌≢◌, refl, sym, ap, ◌∙◌, true, false, ◌&&◌, Option, none, some, List, [], ◌∷◌, ◌++◌,
  ◌>>=◌, if◌then◌else◌, Text, codes, length, eq_text, ne_of_eq_text, ==_ne, All, arith, and-true,
  Bool-cases, inl, inr,
}
use httplib.Server.MountPoint.{level_after, is_valid_path}
use httplib.Server.MountPoint.Components.{
  components, is_clean, levels, is_some, is_valid_path-levels,
}

-- The directories that some components lead through, the innermost first; `none` is a `..` that
-- would leave the start.
unfoldable pub resolve : List Text → List Text → Option (List Text)
resolve dirs [] = some dirs
resolve [] (p ∷ ps) =
    let deeper = resolve (p ∷ []) ps in
    let same = resolve [] ps in
    if eq_text p (codes ".") then same else if eq_text p (codes "..") then none else deeper
resolve (d ∷ dirs) (p ∷ ps) =
    let deeper = resolve (p ∷ d ∷ dirs) ps in
    let same = resolve (d ∷ dirs) ps in
    let up = resolve dirs ps in
    if eq_text p (codes ".") then same else if eq_text p (codes "..") then up else deeper

-- Counting levels is resolving, with only the number of directories kept.
levels-resolve :
    (dirs ps : List Text) → levels (length dirs) ps ≡ (resolve dirs ps >>= λ ds. some (length ds))
unfolding resolve level_after
levels-resolve dirs [] = refl
levels-resolve [] (p ∷ ps) = elim (Bool-cases (eq_text p (codes "."))) [
  | inl e ↦ rw e (levels-resolve [] ps)
  | inr e ↦ elim (Bool-cases (eq_text p (codes ".."))) [
    | inl d ↦ rw (e, d) refl
    | inr d ↦ rw (e, d) (levels-resolve (p ∷ []) ps)
  ]
]
levels-resolve (x ∷ dirs) (p ∷ ps) = elim (Bool-cases (eq_text p (codes "."))) [
  | inl e ↦ rw e (levels-resolve (x ∷ dirs) ps)
  | inr e ↦ elim (Bool-cases (eq_text p (codes ".."))) [
    | inl d ↦
        rw (e, d, ==_ne (suc (length dirs)) 0 (omega arith))
          (ap (λ l. levels l ps) {y = length dirs} (omega arith) ∙ levels-resolve dirs ps)
    | inr d ↦
        rw (e, d)
          (ap (λ l. levels l ps) {y = length (p ∷ x ∷ dirs)} (omega arith)
            ∙ levels-resolve (p ∷ x ∷ dirs) ps)
  ]
]

is_some-length : (o : Option (List Text)) → is_some (o >>= λ ds. some (length ds)) ≡ is_some o
is_some-length none = refl
is_some-length (some ds) = refl

-- The check, for every path: it holds exactly if the path has neither a null byte nor a backslash
-- and its components, resolved one by one, never leave the directory they start from.
pub is_valid_path-resolve :
    (path : Text) → is_valid_path path ≡ (is_clean path && is_some (resolve [] (components path)))
is_valid_path-resolve path =
    is_valid_path-levels path
    ∙ ap (λ b. is_clean path && b)
        (ap is_some (levels-resolve [] (components path))
          ∙ is_some-length (resolve [] (components path)))

-- A directory name: a step down.
abbrev pub IsName : Text → Type 0
IsName p = (p ≢ codes ".") × (p ≢ codes "..")

abbrev Leads : List Text → List Text → Type 0
Leads dirs ps = (to : List Text) × (resolve dirs ps ≡ some to) × All IsName to

tests-IsName :
    (p : Text) → eq_text p (codes ".") ≡ false → eq_text p (codes "..") ≡ false → IsName p
tests-IsName p a b = (ne_of_eq_text p _ a, ne_of_eq_text p _ b)

-- What resolves has resolved prefixes, through names only.
resolve-prefix :
    (dirs ps qs : List Text)
    → All IsName dirs
    → is_some (resolve dirs (ps ++ qs)) ≡ true
    → Leads dirs ps
unfolding resolve
resolve-prefix dirs [] qs h e = (dirs, refl, h)
resolve-prefix [] (p ∷ ps) qs h e = elim (Bool-cases (eq_text p (codes "."))) [
  | inl same ↦ rw same (resolve-prefix [] ps qs h (rw same at e))
  | inr other ↦ elim (Bool-cases (eq_text p (codes ".."))) [
    | inl up ↦ absurd (ground (arith, other, up))
    | inr down ↦
        rw (other, down)
          (resolve-prefix (p ∷ []) ps qs (tests-IsName p other down, tt) (rw (other, down) at e))
  ]
]
resolve-prefix (d ∷ dirs) (p ∷ ps) qs h e = elim (Bool-cases (eq_text p (codes "."))) [
  | inl same ↦ rw same (resolve-prefix (d ∷ dirs) ps qs h (rw same at e))
  | inr other ↦ elim (Bool-cases (eq_text p (codes ".."))) [
    | inl up ↦ rw (other, up) (resolve-prefix dirs ps qs h.1 (rw (other, up) at e))
    | inr down ↦
        rw (other, down)
          (resolve-prefix (p ∷ d ∷ dirs) ps qs (tests-IsName p other down, h)
            (rw (other, down) at e))
  ]
]

-- If a path passes the check, then each first part of its components leads from the start down a
-- list of names: at no point is the path above the directory it is taken relative to.
pub is_valid_path-confined :
    (path : Text) (ps qs : List Text)
    → is_valid_path path ≡ true
    → components path ≡ ps ++ qs
    → (dirs : List Text) × (resolve [] ps ≡ some dirs) × All IsName dirs
is_valid_path-confined path ps qs valid split = resolve-prefix [] ps qs tt (
    rw split at
      (and-true (is_clean path) (is_some (resolve [] (components path)))
        (sym (is_valid_path-resolve path) ∙ valid)).1)
