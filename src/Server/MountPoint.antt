-- ===== src/Server/MountPoint.antt =====
-- lib/server/mount_point_entry.cpp: the check of a relative path, and the handler of a static mount
-- point.
pub mod Components
pub mod Confinement
pub mod Serving
use httplib.Base.{
  ℕ, zero, suc, ◌+◌, ◌-◌, Bool, true, false, Option, none, some, List, [], ◌∷◌, ◌++◌, ◌>>=◌, ◌==◌,
  if◌then◌else◌, Text, codes, length, null, eq_text, ends_with, starts_with,
}
use mathlib.Core.Option

-- `while (i < path.size() && path[i] == '/') i++`. An index `i` into the path is the text from `i`
-- on.
unfoldable pub skip_slash : Text → Text
skip_slash [] = []
skip_slash (c ∷ s) = let rest = skip_slash s in if c == b'/' then rest else c ∷ s

-- The inner loop: the bytes up to the next slash, and the text from there on. `none` is the
-- `return false` on a null byte or a backslash.
unfoldable pub read_component : Text → Option (Text × Text)
read_component [] = some ([], [])
read_component (c ∷ s) =
    let more = read_component s in
    if c == b'/'
    then some ([], c ∷ s)
    else if c == 0
    then none
    else if c == 92
    then none
    else (more >>= λ r. some (c ∷ r.0, r.1))

-- The level behind a component. `none` is the `return false` on a `..` at level 0.
unfoldable pub level_after : ℕ → Text → Option ℕ
level_after level component =
    if eq_text component (codes ".")
    then some level
    else if eq_text component (codes "..")
    then if level == 0 then none else some (level - 1)
    else some (level + 1)

-- The outer loop, on fuel; `none` means that the fuel ran out.
unfoldable pub valid_from : ℕ → ℕ → Text → Option Bool
valid_from zero level s = none
valid_from (suc fuel) level [] = some true
valid_from (suc fuel) level (c ∷ s) = elim (read_component (c ∷ s)) [
  | none ↦ some false
  | some (component, rest) ↦ elim (level_after level component) [
    | none ↦ some false
    | some level' ↦ valid_from fuel level' (skip_slash rest)
  ]
]

-- Each round uses up a component, so a round more than there are bytes is enough.
unfoldable pub is_valid_path : Text → Bool
unfolding valid_from skip_slash
is_valid_path path = Option.get_or (valid_from (suc (length path)) 0 (skip_slash path)) false
