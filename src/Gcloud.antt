-- ===== src/Gcloud.antt =====
-- common/gcloud/upload.go: what `DriveClient` makes of the calls of the Drive API, which are the
-- parameter `DriveService`, and listFileTreeInGDrive of cmd/lomob/list-cloud.go. A time is a number; its
-- text is a parameter.
pub mod Again
pub mod Toy
mod Tests
use lomo_backup.Common.{
  ℕ, zero, suc, Bool, true, false, Option, none, some, List, [], ◌∷◌, ◌++◌, Bytes, codes, map,
  bytes_eq, not, ◌&&◌, if◌then◌else◌,
}
use lomo_backup.Io.{IoError, wrong_parent, Result, ok, err}
use lomo_backup.Io.Run.{Action, Call, pure, raise, ◌>>=◌, ◌>>◌}

-- `drive.File`, with the fields that the code asks for.
pub record DriveFile : Type 0 where
  pub id : Bytes
  pub name : Bytes
  pub parents : List Bytes
  pub size : ℕ
  pub mime_type : Bytes
  pub created_time : Bytes
  pub app_properties : List (Bytes × Bytes)

-- The calls: a list of files by a query and with a page size, if one is set; a new file, with what a
-- reader in R gives unless it is a folder; a file, to which other fields can be given; and the content
-- of a file, by a reader in S.
pub record DriveService (V R S : Type 0) : Type 0 where
  pub list : Bytes → Option ℕ → Action V (List DriveFile)
  pub create : DriveFile → Option R → Action V DriveFile
  pub get : Bytes → Action V DriveFile
  pub update : Bytes → DriveFile → Call V
  pub download : Bytes → Action V S

-- `mimiTypeFolder`
abbrev pub mime_type_folder : Bytes
mime_type_folder = codes "application/vnd.google-apps.folder"

-- The query of `GetFileID`.
unfoldable pub query : Bytes → Bytes → Bytes
query filename parent =
    let named = codes "name = '" ++ (filename ++ codes "'") in
    if bytes_eq parent []
    then named
    else named ++ (codes " and '" ++ (parent ++ codes "' in parents"))

-- What `GetFileID` makes of the files listed: the id and the first parent of the first one, or nothing.
unfoldable pub first_id : List DriveFile → Bytes × Bytes
first_id [] = ([], [])
first_id (f ∷ _) = (f.id, elim f.parents [ [] ↦ [] | p ∷ _ ↦ p ])

-- A folder and a file of `ListFiles`: `types.DirInfo` and `types.FileInfo`, as it fills them.
pub record CloudDir : Type 0 where
  pub ref_id : Bytes
  pub path : Bytes
  pub mod_time : ℕ

pub record CloudFile : Type 0 where
  pub ref_id : Bytes
  pub name : Bytes
  pub size : ℕ
  pub mod_time : ℕ
  pub hash_local : Bytes
  pub hash_remote : Bytes

-- The value of a key, or the empty text.
unfoldable pub property : Bytes → List (Bytes × Bytes) → Bytes
property key [] = []
property key ((k, a) ∷ ps) = let later = property key ps in if bytes_eq k key then a else later

-- `time.Parse` leaves time zero behind an error.
unfoldable pub as_dir : (Bytes → ℕ) → DriveFile → CloudDir
as_dir parse_time f = record { ref_id = f.id; path = f.name; mod_time = parse_time f.created_time }

unfoldable pub as_file : (Bytes → ℕ) → DriveFile → CloudFile
as_file parse_time f = record {
  ref_id = f.id;
  name = f.name;
  size = f.size;
  mod_time = parse_time f.created_time;
  hash_local = property (codes "hash_orig") f.app_properties;
  hash_remote = property (codes "hash_enc") f.app_properties;
}

-- The loop of `ListFiles`.
unfoldable pub parted : (Bytes → ℕ) → List DriveFile → List CloudDir × List CloudFile
parted parse_time [] = ([], [])
parted parse_time (f ∷ fs) =
    let (dirs, files) = parted parse_time fs in
    if bytes_eq f.mime_type mime_type_folder
    then (as_dir parse_time f ∷ dirs, files)
    else (dirs, as_file parse_time f ∷ files)

-- A new file, of which only some fields are set.
unfoldable pub file_to_create : Bytes → Bytes → Bytes → Bytes → DriveFile
file_to_create filename parent created_time mime_type = record {
  id = [];
  name = filename;
  parents = if bytes_eq parent [] then [] else parent ∷ [];
  size = 0;
  mime_type = mime_type;
  created_time = created_time;
  app_properties = [];
}

module _ {V R S : Type 0} (srv : DriveService V R S) where
  -- `GetFile`
  unfoldable pub get_file : Bytes → Action V S
  get_file file_id = srv.download file_id

  -- `GetFileID`
  unfoldable pub get_file_id : Bytes → Bytes → Action V (Bytes × Bytes)
  get_file_id filename parent = do
    files ← srv.list (query filename parent) (some 1)
    pure (first_id files)

  -- `UpdateFileMetadata`
  unfoldable pub update_file_metadata : Bytes → List (Bytes × Bytes) → Call V
  update_file_metadata file_id metadata = do
    file ← srv.get file_id
    srv.update file_id (record file { app_properties = metadata })

  module _ (format : ℕ → Bytes) where
    -- `CreateFile`: without a reader it is a folder.
    unfoldable pub create_file : Bytes → Bytes → Option R → ℕ → Action V Bytes
    create_file filename parent none mod_time = do
      f ← srv.create (file_to_create filename parent (format mod_time) mime_type_folder) none
      pure f.id
    create_file filename parent (some r) mod_time = do
      f ← srv.create (file_to_create filename parent (format mod_time) []) (some r)
      pure f.id

    -- What follows the search: a file that is missing is made, and one with another first parent is an
    -- error.
    found_or_created : Bytes → Bytes → Option R → ℕ → Bytes × Bytes → Action V (Bool × Bytes)
    found_or_created filename parent r mod_time (file_id, pid) =
        if bytes_eq file_id []
        then (do made ← create_file filename parent r mod_time; pure (false, made))
        else if not (bytes_eq parent []) && not (bytes_eq pid parent)
        then raise wrong_parent
        else pure (true, file_id)

    -- `GetAndCreateFileIDIfNotExist`
    unfoldable pub get_and_create_file_id_if_not_exist :
        Bytes → Bytes → Option R → ℕ → Action V (Bool × Bytes)
    unfolding found_or_created
    get_and_create_file_id_if_not_exist filename parent r mod_time = do
      found ← get_file_id filename parent
      found_or_created filename parent r mod_time found

  -- `ListFiles`
  unfoldable pub list_files : (Bytes → ℕ) → Bytes → Action V (List CloudDir × List CloudFile)
  list_files parse_time folder_id = do
    files ← srv.list (codes "'" ++ (folder_id ++ codes "' in parents")) none
    pure (parted parse_time files)
