-- ===== src/Server/MountPoint/Serving.antt =====
-- `mount_point_entry::operator()` of lib/server/mount_point_entry.cpp. The file system is a
-- parameter: what `std::filesystem` says of a path. An error code of a query is its answer false, as
-- the source takes it.
use httplib.Base.{
  ℕ, ◌≡◌, refl, sym, Bool, true, List, [], ◌∷◌, ◌++◌, Text, codes, if◌then◌else◌, inl, inr, ◌⊎◌,
  Bool-cases,
}
use httplib.Server.MountPoint.{is_valid_path}
use httplib.Server.Response.{
  Calls, Format, set_error_content, set_json_content, set_string_content, status_ok,
  status_not_found,
}

pub record FileSystem : Type 0 where
  -- `path / name`
  pub append : Text → Text → Text
  pub exists_path : Text → Bool
  pub has_filename : Text → Bool
  pub is_regular_file : Text → Bool
  pub is_directory : Text → Bool

pub data DirFormat : Type 0 where
  json html : DirFormat

-- `html::format_dir_to_json` and `html::format_dir_to_html`, and whether they set their error code.
pub record Listing (J : Type 0) : Type 0 where
  pub to_json : Text → J
  pub to_html : Text → Text
  pub fails : Text → Bool

pub record MountPointEntry : Type 0 where
  pub base_dir : Text
  pub enabled_dir : Bool
  pub dir_type : DirFormat
  pub default_doc_name : List Text

-- A call of `set_file_content` for a path, or other calls of the response.
pub data Serving (J : Type 0) : Type 0 where
  serves_file : Text → Serving J
  answers : Calls J → Serving J

abbrev pub status_bad_request : ℕ
status_bad_request = 400

abbrev pub status_forbidden : ℕ
status_forbidden = 403

abbrev pub status_internal_error : ℕ
status_internal_error = 500

-- The loop over the names of documents of a directory.
unfoldable pub find_doc : FileSystem → Text → List Text → Text
find_doc fs path [] = path
find_doc fs path (doc_name ∷ names) =
    let rest = find_doc fs path names in
    if fs.is_regular_file (fs.append path doc_name) then fs.append path doc_name else rest

module _ {J : Type 0} (format : Format) (server : Text) (fs : FileSystem) (listing : Listing J)
    (entry : MountPointEntry) where
  abbrev fail_with : ℕ → Calls J
  fail_with status = set_error_content format server status

  abbrev pub list_as : DirFormat → Text → Calls J
  list_as json path = set_json_content (listing.to_json path) status_ok
  list_as html path =
      set_string_content (listing.to_html path) (codes "text/html; charset=utf-8") status_ok

  unfoldable pub serve_dir : Text → Calls J
  serve_dir path =
      if entry.enabled_dir
      then list_as entry.dir_type path
        ++ (if listing.fails path then fail_with status_internal_error else [])
      else fail_with status_forbidden

  -- What is done for the path that is left when the documents of a directory were looked for.
  unfoldable pub serve_path : Text → Serving J
  unfolding serve_dir
  serve_path path =
      if fs.has_filename path
      then (if fs.is_regular_file path
          then serves_file path
          else answers (fail_with status_not_found))
      else if fs.is_directory path
      then answers (serve_dir path)
      else answers (fail_with status_forbidden)

  unfoldable pub with_doc : Text → Text
  unfolding find_doc
  with_doc path = if fs.has_filename path then path else find_doc fs path entry.default_doc_name

  unfoldable pub serve : Text → Serving J
  unfolding serve_path with_doc is_valid_path
  serve relative_path =
      if is_valid_path relative_path
      then (if fs.exists_path (fs.append entry.base_dir relative_path)
          then serve_path (with_doc (fs.append entry.base_dir relative_path))
          else answers (fail_with status_not_found))
      else answers (fail_with status_bad_request)

-- A name of a list.
abbrev pub OneOf : Text → List Text → Type 0
OneOf name [] = ⊥
OneOf name (n ∷ names) = (name ≡ n) ⊎ OneOf name names

-- The path itself, or one of the documents in it.
abbrev pub IsDocOf : FileSystem → List Text → Text → Text → Type 0
IsDocOf fs names path p =
    (p ≡ path) ⊎ ((name : Text) × OneOf name names × (p ≡ fs.append path name))

find_doc-IsDocOf :
    (fs : FileSystem) (path : Text) (names : List Text)
    → IsDocOf fs names path (find_doc fs path names)
unfolding find_doc
find_doc-IsDocOf fs path [] = inl refl
find_doc-IsDocOf fs path (n ∷ names) = elim (Bool-cases (fs.is_regular_file (fs.append path n))) [
  | inl e ↦ rw e (inr (n, inl refl, refl))
  | inr e ↦ rw e (elim (find_doc-IsDocOf fs path names) [
    | inl same ↦ inl same
    | inr (name, among, there) ↦ inr (name, inr among, there)
  ])
]

module _ {J : Type 0} (format : Format) (server : Text) (fs : FileSystem) (listing : Listing J)
    (entry : MountPointEntry) where
  with_doc-IsDocOf :
      (path : Text)
      → IsDocOf fs entry.default_doc_name path (with_doc format server fs listing entry path)
  unfolding with_doc
  with_doc-IsDocOf path = elim (Bool-cases (fs.has_filename path)) [
    | inl e ↦ rw e (inl refl)
    | inr e ↦ rw e (find_doc-IsDocOf fs path entry.default_doc_name)
  ]

  serve_path-file :
      (path p : Text)
      → serve_path format server fs listing entry path ≡ serves_file p
      → (p ≡ path) × (fs.is_regular_file p ≡ true)
  unfolding serve_path
  serve_path-file path p h = elim (Bool-cases (fs.has_filename path)) [
    | inl e ↦ elim (Bool-cases (fs.is_regular_file path)) [
      | inl k ↦ let same : path ≡ p = path_of (rw (e, k) at h) in (sym same, rw (← same) k)
      | inr k ↦ absurd (no_answer (rw (e, k) at h))
    ]
    | inr e ↦ elim (Bool-cases (fs.is_directory path)) [
      | inl k ↦ absurd (no_answer (rw (e, k) at h))
      | inr k ↦ absurd (no_answer (rw (e, k) at h))
    ]
  ]
    where
      path_of : {q : Text} → ◌≡◌ {A = Serving J} (serves_file q) (serves_file p) → q ≡ p
      path_of e = cc

      no_answer : {calls : Calls J} → ◌≡◌ {A = Serving J} (answers calls) (serves_file p) → ⊥
      no_answer e = cc

  -- A file is only served for a relative path that passes the check, whose path under the directory of
  -- the mount exists; the file is that path or, in it, one of the names for documents, and it is a
  -- regular file.
  pub served_file :
      (relative_path p : Text)
      → serve format server fs listing entry relative_path ≡ serves_file p
      → (is_valid_path relative_path ≡ true)
        × (fs.exists_path (fs.append entry.base_dir relative_path) ≡ true)
        × (fs.is_regular_file p ≡ true)
        × IsDocOf fs entry.default_doc_name (fs.append entry.base_dir relative_path) p
  unfolding serve
  served_file relative_path p h = elim (Bool-cases (is_valid_path relative_path)) [
    | inl v ↦ elim (Bool-cases (fs.exists_path (fs.append entry.base_dir relative_path))) [
      | inl e ↦
          let path : Text = fs.append entry.base_dir relative_path in
          let file =
            serve_path-file (with_doc format server fs listing entry path) p
              (rw (serve, v, e) at h) in
          (v, e, file.1, rw (file.0) (with_doc-IsDocOf path))
      | inr e ↦ absurd (no_answer (rw (serve, v, e) at h))
    ]
    | inr v ↦ absurd (no_answer (rw (serve, v) at h))
  ]
    where
      no_answer : {calls : Calls J} → ◌≡◌ {A = Serving J} (answers calls) (serves_file p) → ⊥
      no_answer e = cc
