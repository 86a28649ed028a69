-- ===== src/Mime/MediaTypes.antt =====
-- What `get_mime_type` of lib/mime_types.hpp may answer.
use httplib.Base.{
  ℕ, ◌≡◌, refl, Bool, true, false, ◌&&◌, ◌||◌, not, Option, none, some, [], ◌∷◌, Text, leb, ◌==◌,
  null, eq_text, if◌then◌else◌, inl, inr, Bool-cases, and-true,
}
use httplib.Mime.{
  Types, insert_type, insert_types, find_type, mime_list, mime_map, octet_stream, get_mime_type,
}

-- The bytes of the names of registered types: letters, digits, `+`, `-`, `.` and `_`.
abbrev is_name : ℕ → Bool
is_name c =
    (leb b'a' c && leb c b'z')
    || ((leb b'A' c && leb c b'Z')
        || ((leb b'0' c && leb c b'9') || (c == b'+' || (c == b'-' || (c == b'.' || c == b'_')))))

abbrev all_names : Text → Bool
all_names [] = true
all_names (c ∷ s) = is_name c && all_names s

-- A name, at least one byte of which comes first, a slash and another name.
abbrev names_around : Bool → Text → Bool
names_around first [] = false
names_around first (c ∷ s) =
    if c == b'/'
    then not first && (not (null s) && all_names s)
    else is_name c && names_around false s

-- A type, a slash and a subtype: no space, no end of a line and no separator of fields.
abbrev pub is_media_type : Text → Bool
is_media_type = names_around true

abbrev all_media_types : Types → Bool
all_media_types [] = true
all_media_types (t ∷ ts) = is_media_type t.1 && all_media_types ts

-- Of the list as it is written.
mime_list-media_types : all_media_types mime_list ≡ true
mime_list-media_types = refl

insert_type-media_types :
    (e : Text × Text) (ts : Types)
    → is_media_type e.1 ≡ true
    → all_media_types ts ≡ true
    → all_media_types (insert_type e ts) ≡ true
unfolding insert_type
insert_type-media_types e [] h k = rw h refl
insert_type-media_types e (t ∷ ts) h k =
    let parts = and-true (is_media_type t.1) (all_media_types ts) k in
    elim (Bool-cases (eq_text e.0 t.0)) [
      | inl same ↦ rw same k
      | inr new ↦ rw (new, parts.0) (insert_type-media_types e ts h parts.1)
    ]

insert_types-media_types :
    (es ts : Types)
    → all_media_types es ≡ true
    → all_media_types ts ≡ true
    → all_media_types (insert_types es ts) ≡ true
unfolding insert_types
insert_types-media_types [] ts h k = k
insert_types-media_types (e ∷ es) ts h k =
    let parts = and-true (is_media_type e.1) (all_media_types es) h in
    insert_types-media_types es (insert_type e ts) parts.1 (insert_type-media_types e ts parts.0 k)

abbrev found_media_type : Option Text → Bool
found_media_type none = true
found_media_type (some type) = is_media_type type

find_type-media_type :
    (key : Text) (ts : Types)
    → all_media_types ts ≡ true
    → found_media_type (find_type key ts) ≡ true
unfolding find_type
find_type-media_type key [] h = refl
find_type-media_type key (t ∷ ts) h =
    let parts = and-true (is_media_type t.1) (all_media_types ts) h in
    elim (Bool-cases (eq_text key t.0)) [
      | inl e ↦ rw e parts.0
      | inr e ↦ rw e (find_type-media_type key ts parts.1)
    ]

-- Whatever the extension, the answer is a media type: two names that are not empty, of letters,
-- digits, `+`, `-`, `.` and `_`, with a slash between them. So no answer can end a line of the header
-- or start a parameter of the field.
pub get_mime_type-media_type : (extension : Text) → is_media_type (get_mime_type extension) ≡ true
unfolding get_mime_type mime_map
get_mime_type-media_type extension = by_found (find_type extension mime_map) (
    find_type-media_type extension mime_map
      (insert_types-media_types mime_list [] mime_list-media_types refl))
  where
    by_found :
        (o : Option Text)
        → found_media_type o ≡ true
        → is_media_type (elim o [ none ↦ octet_stream | some type ↦ type ]) ≡ true
    by_found none h = refl
    by_found (some type) h = h
