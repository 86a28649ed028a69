-- ===== src/Tests/Serving.antt =====
-- A mounted directory with one file.
use httplib.Base.{ℕ, ◌≡◌, refl, true, false, [], ◌∷◌, ◌++◌, codes, eq_text}
use httplib.Server.MountPoint.{is_valid_path}
use httplib.Server.MountPoint.Serving.{
  FileSystem, Listing, MountPointEntry, json, serve, IsDocOf, served_file,
}
use httplib.Tests.Parameters.{two_reasons}

abbrev disk : FileSystem
disk = record {
  append = λ path name. path ++ (codes "/" ++ name);
  exists_path = λ path. eq_text path (codes "/srv/a.txt");
  has_filename = λ path. true;
  is_regular_file = λ path. eq_text path (codes "/srv/a.txt");
  is_directory = λ path. false;
}

abbrev listing : Listing ℕ
listing = record { to_json = λ path. 0; to_html = λ path. []; fails = λ path. false }

abbrev mounted : MountPointEntry
mounted = record {
  base_dir = codes "/srv";
  enabled_dir = false;
  dir_type = json;
  default_doc_name = codes "index.html" ∷ [];
}

served_file_example :
    (is_valid_path (codes "a.txt") ≡ true)
    × (disk.exists_path (disk.append mounted.base_dir (codes "a.txt")) ≡ true)
    × (disk.is_regular_file (codes "/srv/a.txt") ≡ true)
    × IsDocOf disk mounted.default_doc_name
        (disk.append mounted.base_dir (codes "a.txt"))
        (codes "/srv/a.txt")
unfolding serve httplib.Server.MountPoint.read_component httplib.Server.MountPoint.level_after
    eq_text
served_file_example =
    served_file two_reasons (codes "httplib") disk listing mounted (codes "a.txt")
      (codes "/srv/a.txt") refl
