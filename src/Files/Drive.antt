-- ===== src/Files/Drive.antt =====
-- cmd/lomob/upload-files.go, the loop of `uploadFilesToGdrive`. The client, the file system, and the
-- encoding of a hash are parameters; the client reads what the encryptor gives until its end.
pub mod Stores
use lomo_backup.Common.{
  ℕ, Bool, true, false, Option, none, some, List, [], ◌∷◌, Bytes, if◌then◌else◌,
}
use lomo_backup.Types.{FileInfo, iso_id_cloud}
use lomo_backup.Io.{IoError, Result, ok, err}
use lomo_backup.Io.File.{File, opened, os_file}
use lomo_backup.Io.Copy.{Copied, copy}
use lomo_backup.Io.CryptoStream
use lomo_backup.Io.CryptoStream.{Slice, CryptoStreamReader}
use lomo_backup.Crypto.{
  Primitives, copy_buffer, gen_salt, new_encryptor, derive_key_from_master_key,
}
use lomo_backup.Dbx.{Tables}
use lomo_backup.Dbx.Iso.{update_file_iso_id_and_remote_hash, list_files_not_in_iso_and_cloud}
use lomo_backup.Dbx.Scan.{list_scan_root_dirs}
use lomo_backup.Image.{root_of}
use lomo_backup.Files.Folders.{split_path, folder_for}

-- The calls of the Drive client, `os.Stat`, the content of a file, `filepath.Join`, and the printing of
-- a hash.
pub record Cloud : Type 0 where
  pub folder : Bytes → Bytes → Result Bytes
  pub create_file : Bytes → Bytes → Bytes → Result Bytes
  pub update_metadata : Bytes → Bytes → Bytes → Option IoError
  pub stat : Bytes → Option IoError
  pub content : Bytes → Result Bytes
  pub join : Bytes → Bytes → Bytes
  pub hex : Bytes → Bytes

-- The tables and the folders that are known, and whether the loop goes on.
pub record DriveState : Type 0 where
  pub tables : Tables
  pub known : List (Bytes × Bytes)
  pub goes_on : Bool

module _ (P : Primitives) (C : Cloud) (fuel : ℕ) (master_key root_id : Bytes)
    (roots : List (ℕ × Bytes)) where
  abbrev pub stopped : DriveState → DriveState
  stopped s = record s { goes_on = false }

  -- After `CreateFile`: the row first, and then the metadata.
  created_file : FileInfo → DriveState → Bytes → Result Bytes → DriveState
  created_file f s hash (err e) = stopped s
  created_file f s hash (ok file_id) = record s {
    tables = update_file_iso_id_and_remote_hash iso_id_cloud f.id hash s.tables;
    goes_on = elim (C.update_metadata file_id f.hash_local hash) [ some e ↦ false | none ↦ true ];
  }

  -- The client has read the encryptor; it fails if that did.
  body_read :
      FileInfo → DriveState → Bytes → Option (Copied (CryptoStreamReader File)) → Option DriveState
  unfolding created_file
  body_read f s parent none = none
  body_read f s parent (some c) = some (elim c.error [
    | some e ↦ stopped s
    | none ↦
        created_file f s (C.hex (CryptoStream.get_hash_encrypt P.sha256 c.state))
          (C.create_file (split_path f.name).1 parent c.bytes)
  ])

  encryptor_for :
      FileInfo → DriveState → Bytes → Result (CryptoStreamReader File) → Option DriveState
  unfolding body_read
  encryptor_for f s parent (err e) = some (stopped s)
  encryptor_for f s parent (ok en) =
      body_read f s parent (copy (CryptoStream.read os_file) copy_buffer fuel en)

  salt_for : FileInfo → DriveState → Bytes → Bytes → Result Slice → Option DriveState
  unfolding encryptor_for
  salt_for f s parent plain (err e) = some (stopped s)
  salt_for f s parent plain (ok salt) = encryptor_for f s parent (
      new_encryptor P os_file (opened plain 0)
        (derive_key_from_master_key P master_key salt.elements) salt true)

  file_opened : FileInfo → DriveState → Bytes → Result Bytes → Option DriveState
  unfolding salt_for
  file_opened f s parent (err e) = some (stopped s)
  file_opened f s parent (ok plain) = salt_for f s parent plain (gen_salt P plain)

  in_folder :
      FileInfo → Bytes → DriveState → Result (List (Bytes × Bytes) × Bytes) → Option DriveState
  unfolding file_opened
  in_folder f scan_root s (err e) = some (stopped s)
  in_folder f scan_root s (ok (known, parent)) =
      file_opened f (record s { known = known }) parent (C.content (C.join scan_root f.name))

  below_root : FileInfo → DriveState → Option Bytes → Option DriveState
  unfolding in_folder
  below_root f s none = some (stopped s)
  below_root f s (some scan_root) =
      in_folder f scan_root s (folder_for C.folder C.stat C.join root_id scan_root f.name s.known)

  -- One file of the loop; `none` if the fuel of a copy runs out.
  unfoldable pub drive_file : FileInfo → DriveState → Option DriveState
  unfolding below_root
  drive_file f s = below_root f s (root_of f.dir_id roots)

  then_files : (DriveState → Option DriveState) → Option DriveState → Option DriveState
  then_files next none = none
  then_files next (some s) = let more = next s in if s.goes_on then more else some s

  unfoldable pub drive_files : List FileInfo → DriveState → Option DriveState
  unfolding then_files
  drive_files [] s = some s
  drive_files (f ∷ files) s = then_files (drive_files files) (drive_file f s)

-- `uploadFilesToGdrive` behind its options, with the id of the folder for all uploads.
unfoldable pub upload_files_to_gdrive :
    Primitives → Cloud → ℕ → Bytes → Bytes → Tables → Option DriveState
upload_files_to_gdrive P C fuel master_key root_id t =
    drive_files P C fuel master_key root_id (list_scan_root_dirs t)
      (list_files_not_in_iso_and_cloud C.join t)
      (record { tables = t; known = ([], root_id) ∷ []; goes_on = true })
