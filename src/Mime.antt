-- ===== src/Mime.antt =====
-- lib/mime_types.hpp. `mime_map` is a `std::map`: its entries are put in one by one, and one whose
-- key is there already is dropped. The map is an association list; its order is not looked at.
mod FromA
mod FromI
mod FromP
mod FromT
pub mod MediaTypes
use httplib.Base.{
  ℕ, Bool, Option, none, some, List, [], ◌∷◌, ◌++◌, Text, codes, eq_text, if◌then◌else◌,
}
use httplib.Mime.FromA.{from_a}
use httplib.Mime.FromI.{from_i}
use httplib.Mime.FromP.{from_p}
use httplib.Mime.FromT.{from_t}

abbrev pub Types : Type 0
Types = List (Text × Text)

-- `std::map::insert` of an entry of the initializer list.
unfoldable pub insert_type : Text × Text → Types → Types
insert_type e [] = e ∷ []
insert_type e (t ∷ ts) = let rest = insert_type e ts in if eq_text e.0 t.0 then t ∷ ts else t ∷ rest

unfoldable pub insert_types : List (Text × Text) → Types → Types
unfolding insert_type
insert_types [] types = types
insert_types (e ∷ es) types = insert_types es (insert_type e types)

unfoldable pub find_type : Text → Types → Option Text
find_type key [] = none
find_type key (t ∷ ts) = let rest = find_type key ts in if eq_text key t.0 then some t.1 else rest

abbrev pub mime_list : List (Text × Text)
mime_list = from_a ++ (from_i ++ (from_p ++ from_t))

unfoldable pub mime_map : Types
unfolding insert_types
mime_map = insert_types mime_list []

abbrev pub octet_stream : Text
octet_stream = codes "application/octet-stream"

unfoldable pub get_mime_type : Text → Text
unfolding find_type mime_map
get_mime_type extension = elim (find_type extension mime_map) [
  | none ↦ octet_stream
  | some type ↦ type
]
