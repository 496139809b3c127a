-- ===== src/Files/Tests.antt =====
-- Runs of cmd/lomob/upload-files.go with toy primitives, and its theorems there.
use lomo_backup.Common.{
  ◌≡◌, ◌≢◌, ◌⊎◌, ◌++◌, refl, true, false, none, some, Option, List, [], ◌∷◌, Bytes, codes, bytes_eq,
  map, arith,
}
use lomo_backup.Io.{IoError, Result, ok, err}
use lomo_backup.Io.File.{opened, os_file, file_write}
use lomo_backup.Crypto.Toy.{toy, toy-IsLawful}
use lomo_backup.Crypto.{decrypt_stream}
use lomo_backup.Upload.Request.{RemoteInfo}
use lomo_backup.Files.{Object, put, upload_encrypt_file_to_s3}
use lomo_backup.Scan.{trim}
use lomo_backup.Image.{flatten_scan_root_dir, root_of}
use lomo_backup.Files.Folders.{
  split, split_path, id_of, known_or_made, folders_below, folder_for, folder_at, root_key,
  dir_parts,
}
use lomo_backup.Files.Folders.Found.{IsCoherent, folder_for-uncached, start-IsCoherent}
use lomo_backup.Common.Int.{pos}
use lomo_backup.Types.{FileInfo}
use lomo_backup.Files.Drive.{Cloud, DriveState, drive_file}
use lomo_backup.Files.Drive.Stores.{in_cloud, is_none, drive_file-Stores}
use lomo_backup.Files.Puts.{upload_encrypt_file_to_s3-decrypts}

abbrev nothing_there : Bytes → Bytes → Result (Option RemoteInfo)
nothing_there bucket key = ok none

abbrev takes_all : Bytes → Object → Option IoError
takes_all bucket o = none

upload_encrypt_file_to_s3-decrypts_example :
    (o : Object) × (upload_encrypt_file_to_s3 toy
        (λ b. b)
        (λ b. b)
        nothing_there
        takes_all
        40
        (codes "bucket")
        (codes "f")
        (codes "hi there")
        (codes "key")
      ≡ some (put o none))
    × (o.key ≡ codes "f")
    × (o.hash ≡ toy.sha256 o.body)
    × (decrypt_stream toy os_file file_write 40 (opened o.body 0) (opened [] 0) (codes "key")
        ≡ some (record { dst = opened (codes "hi there") 8; error = none }))
upload_encrypt_file_to_s3-decrypts_example =
    upload_encrypt_file_to_s3-decrypts toy toy-IsLawful (λ b. b) (λ b. b) nothing_there takes_all 40
      (codes "bucket") (codes "f") (codes "hi there") (codes "key") (ground arith) (omega arith)
      (omega arith) refl

-- A cloud that names a folder by its parent and its name.
abbrev folder : Bytes → Bytes → Result Bytes
folder name parent = ok (parent ++ codes ">" ++ name)

abbrev no_error : Bytes → Option IoError
no_error path = none

abbrev joined : Bytes → Bytes → Bytes
joined a b = a ++ codes "/" ++ b

abbrev known_then : List (Bytes × Bytes)
known_then =
    (codes "home_me/a/b", codes "top>home_me>a>b")
    ∷ (codes "home_me/a", codes "top>home_me>a")
    ∷ (codes "home_me", codes "top>home_me")
    ∷ ([], codes "top")
    ∷ []

found :
    folder_for folder no_error joined
      (codes "top")
      (codes "/home/me")
      (codes "a/b/f.txt")
      (([], codes "top") ∷ [])
    ≡ ok (known_then, codes "top>home_me>a>b")
unfolding folder_for known_or_made id_of split split_path folders_below trim flatten_scan_root_dir
    bytes_eq
found = refl

named : root_key folder no_error joined (codes "/home/me") ≢ []
unfolding trim flatten_scan_root_dir
named h = absurd (ground (arith, h))

folder_for-uncached_example :
    IsCoherent folder no_error joined (codes "top") known_then
    × (folder_at folder no_error joined (codes "top") (
          root_key folder no_error joined (codes "/home/me")
          ∷ dir_parts folder no_error joined (codes "a/b/f.txt"))
        ≡ ok (codes "top>home_me>a>b"))
folder_for-uncached_example =
    folder_for-uncached folder no_error joined (codes "top") (codes "/home/me") (codes "a/b/f.txt")
      (([], codes "top") ∷ []) known_then (codes "top>home_me>a>b") named
      (start-IsCoherent folder no_error joined (codes "top")) found

abbrev cloud : Cloud
cloud = record {
  folder = folder;
  create_file = λ name parent body. ok (codes "id");
  update_metadata = λ file_id orig enc. none;
  stat = no_error;
  content = λ path. ok (codes "hi there");
  join = joined;
  hex = λ b. b;
}

abbrev a_file : FileInfo
a_file = record {
  id = 1;
  dir_id = 2;
  iso_id = pos 0;
  name = codes "a/b/f.txt";
  hash_local = codes "00";
  hash_remote = [];
  size = 8;
  mod_time = 3;
}

abbrev before : DriveState
before = record {
  tables = record {
    dirs = [];
    files = [];
    isos = [];
    parts = [];
    last_dir = 0;
    last_file = 0;
    last_iso = 0;
  };
  known = ([], codes "top") ∷ [];
  goes_on = true;
}

rooted : root_of 2 ((2, codes "/home/me") ∷ []) ≡ some (codes "/home/me")
unfolding root_of
rooted = refl

drive_file-Stores_example :
    (body : Bytes) × (decrypt_stream toy os_file file_write 40
        (opened body 0)
        (opened [] 0)
        (codes "key")
      ≡ some (record { dst = opened (codes "hi there") 8; error = none }))
    × (((e : IoError) × (cloud.create_file (split_path a_file.name).1 (codes "top>home_me>a>b") body
            ≡ err e)
          × (drive_file toy cloud 40
                (codes "key")
                (codes "top")
                ((2, codes "/home/me") ∷ [])
                a_file
                before
              ≡ some (record { tables = before.tables; known = known_then; goes_on = false })))
        ⊎ ((file_id : Bytes) × (cloud.create_file
                (split_path a_file.name).1
                (codes "top>home_me>a>b")
                body
              ≡ ok file_id)
            × (drive_file toy cloud 40
                  (codes "key")
                  (codes "top")
                  ((2, codes "/home/me") ∷ [])
                  a_file
                  before
                ≡ some (record {
                  tables = record before.tables {
                    files = map (in_cloud 1 (cloud.hex (toy.sha256 body))) before.tables.files;
                  };
                  known = known_then;
                  goes_on = is_none (
                      cloud.update_metadata file_id a_file.hash_local
                        (cloud.hex (toy.sha256 body)));
                }))))
drive_file-Stores_example =
    drive_file-Stores toy toy-IsLawful cloud 40 (codes "key") (codes "top")
      ((2, codes "/home/me") ∷ []) a_file before (codes "/home/me") (codes "hi there")
      (codes "top>home_me>a>b") known_then (ground arith) (omega arith) (omega arith) rooted found
      refl
