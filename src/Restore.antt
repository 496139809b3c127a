-- ===== src/Restore.antt =====
-- cmd/lomob/restore.go: an encrypted file is got from the cloud and decrypted. The service, the reader
-- of what it sends, and the primitives are parameters.
pub mod Aws
pub mod Gdrive
mod Tests
use lomo_backup.Common.{ℕ, Option, none, some, List, [], ◌∷◌, Bytes}
use lomo_backup.Io.{ReadResult, ReadSeeker, Result, ok, err}
use lomo_backup.Io.Run.{Action, pure, ◌>>=◌}
use lomo_backup.Io.File.{File, opened, file_write}
use lomo_backup.Crypto.{
  Primitives, MasterDecryptor, Decrypted, decrypt_stream, new_master_decryptor, master_write,
}
use lomo_backup.Crypto.Master.{written_to}
use lomo_backup.Files.Folders.{split}
use lomo_backup.Gcloud.{DriveService, get_file, get_file_id}
use lomo_backup.Client.{Service, Got, get_object}

module _ (P : Primitives) {V R S : Type 0} (svc : Service V R S) (read : S → ℕ → ReadResult S)
    (fuel : ℕ) where
  -- The file that `GetObject` has written through the decryptor.
  unfoldable pub restored : Option (Got (MasterDecryptor File)) → Option (Decrypted File)
  restored none = none
  restored (some g) = some (record { dst = written_to g.writer; error = g.error })

  -- `restoreAwsFile` behind its options: the new file and the error; `none` if the fuel of the copy
  -- runs out.
  unfoldable pub restore_aws_file : Bytes → Bytes → Bytes → V → Option (Decrypted File) × V
  unfolding restored
  restore_aws_file bucket src master_key v =
      let (g, v') =
        get_object svc (master_write P file_write) read fuel bucket src
          (new_master_decryptor P file_write (opened [] 0) master_key) v in
      (restored g, v')

module _ {V R S : Type 0} (srv : DriveService V R S) where
  -- The loop over the names of a path, from a folder on: also where nothing is found, and the id is
  -- empty.
  unfoldable pub followed : List Bytes → Bytes → Action V Bytes
  followed [] fid = pure fid
  followed (name ∷ names) fid = do found ← get_file_id srv name fid; followed names found.0

  -- The file that a path leads to below a folder for all uploads.
  unfoldable pub opened_in_drive : Bytes → Bytes → Action V S
  opened_in_drive upload_root_folder src = do
    root ← get_file_id srv upload_root_folder []
    fid ← followed (split b'/' src) root.0
    get_file srv fid

  module _ (P : Primitives) (body : ReadSeeker S) (fuel : ℕ) where
    decrypted : Bytes → Result S × V → Option (Decrypted File) × V
    decrypted master_key (err e, v) = (some (record { dst = opened [] 0; error = some e }), v)
    decrypted master_key (ok s, v) =
        (decrypt_stream P body file_write fuel s (opened [] 0) master_key, v)

    -- `restoreGdriveFile` behind its options, for a service whose bodies are read by `body`: the new
    -- file and the error; `none` if the fuel of a loop runs out.
    unfoldable pub restore_gdrive_file : Bytes → Bytes → Bytes → V → Option (Decrypted File) × V
    unfolding decrypted
    restore_gdrive_file upload_root_folder src master_key v =
        decrypted master_key (opened_in_drive upload_root_folder src v)
