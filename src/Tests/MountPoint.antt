-- ===== src/Tests/MountPoint.antt =====
-- Paths that the check for mounted directories accepts and refuses.
use httplib.Base.{ℕ, ◌≡◌, refl, true, false, ◌&&◌, some, List, [], ◌∷◌, Text, codes, All}
use httplib.Server.MountPoint.{is_valid_path}
use httplib.Server.MountPoint.Components.{components, is_clean, is_some}
use httplib.Server.MountPoint.Confinement.{
  resolve, is_valid_path-resolve, IsName, is_valid_path-confined,
}

accepts_up_and_down : is_valid_path (codes "a/../b") ≡ true
unfolding is_valid_path httplib.Server.MountPoint.read_component
    httplib.Server.MountPoint.level_after httplib.Base.eq_text
accepts_up_and_down = refl

refuses_above : is_valid_path (codes "/a/../../b") ≡ false
unfolding is_valid_path httplib.Server.MountPoint.read_component
    httplib.Server.MountPoint.level_after httplib.Base.eq_text
refuses_above = refl

is_valid_path-resolve_example :
    is_valid_path (codes "a/../../b")
    ≡ (is_clean (codes "a/../../b") && is_some (resolve [] (components (codes "a/../../b"))))
is_valid_path-resolve_example = is_valid_path-resolve (codes "a/../../b")

is_valid_path-confined_example :
    (dirs : List Text) × (resolve [] (codes "a" ∷ codes ".." ∷ []) ≡ some dirs) × All IsName dirs
unfolding is_valid_path components httplib.Server.MountPoint.read_component
    httplib.Server.MountPoint.level_after httplib.Base.eq_text
is_valid_path-confined_example =
    is_valid_path-confined (codes "a/../b") (codes "a" ∷ codes ".." ∷ []) (codes "b" ∷ []) refl refl
