-- ===== src/Restore/Gdrive.antt =====
-- `restoreGdriveFile` follows the path of a file and decrypts what is there.
use lomo_backup.Common.{
  ℕ, ◌+◌, ◌<◌, ◌≡◌, ◌≢◌, refl, ap, ◌∙◌, none, some, List, [], ◌∷◌, Bytes, length, take, All,
}
use lomo_backup.Io.{ok, ReadSeeker, Sends}
use lomo_backup.Io.Run.{Action, ◌>>=◌, then_ok}
use lomo_backup.Io.Cipher.{IsByte}
use lomo_backup.Io.File.{opened, file_write}
use lomo_backup.Io.File.Write.{IsWritten, file_write-Accepts}
use lomo_backup.Crypto.{Primitives, IsLawful, block_size}
use lomo_backup.Crypto.Encrypt.{encrypted}
use lomo_backup.Crypto.Received.{decrypt_stream-Sends}
use lomo_backup.Dbx.Table.{select}
use lomo_backup.Files.Folders.{split}
use lomo_backup.Gcloud.{DriveFile, DriveService, first_id, get_file, get_file_id}
use lomo_backup.Gcloud.Again.{IsQuotable, lies_in, FindsFiles, get_file_id_lem}
use lomo_backup.Restore.{followed, opened_in_drive, decrypted, restore_gdrive_file}

-- Where names lead to, from a folder on, among the files of a drive: the first file with each name in
-- the folder before.
pub data Leads (fs : List DriveFile) : Bytes → List Bytes → Bytes → Type 0 where
  there : {id : Bytes} → Leads fs id [] id
  through :
      {folder name id : Bytes} {names : List Bytes} (f : DriveFile) (others : List DriveFile)
      → IsQuotable name
      → IsQuotable folder
      → folder ≢ []
      → select (lies_in name folder) fs ≡ f ∷ others
      → Leads fs f.id names id
      → Leads fs folder (name ∷ names) id

module _ {V R S : Type 0} (srv : DriveService V R S) (files : V → List DriveFile)
    (finds : FindsFiles srv files) (v : V) where
  followed-Leads :
      {folder id : Bytes} {names : List Bytes}
      → Leads (files v) folder names id
      → followed srv names folder v ≡ (ok id, v)
  unfolding followed first_id
  followed-Leads there = refl
  followed-Leads (through {folder} {name} {id} {names} f others q q' some_folder e l) =
      then_ok (get_file_id srv name folder) (λ found. followed srv names found.0)
        (get_file_id_lem srv files finds (λ t. []) name folder q q' some_folder v
          ∙ ap (λ fs. (ok (first_id (take 1 fs)), v)) e)
      ∙ followed-Leads l

  module _ (P : Primitives) (L : IsLawful P) (body : ReadSeeker S) (Inv : S → Bytes → Type 0)
      (sends : (n : ℕ) → 0 < n → Sends body.read n Inv) where
    -- In a drive that finds the files it has, where the folder for all uploads is found and the parts
    -- of the path lead from it to a file, whose content is a file of bytes encrypted under the master key
    -- and is sent, in reads of any sizes of which the last may come together with the end: with fuel above the size of that, restoring leaves a
    -- file that has the original bytes, without an error.
    pub restore_gdrive_file-restores :
        (fuel : ℕ) (root src master_key iv plain root_id parent id : Bytes) (s : S) (v' : V)
        → All IsByte plain
        → length iv ≡ block_size
        → length plain + 16 < fuel
        → get_file_id srv root [] v ≡ (ok (root_id, parent), v)
        → Leads (files v) root_id (split b'/' src) id
        → srv.download id v ≡ (ok s, v')
        → Inv s (encrypted P master_key iv plain)
        → restore_gdrive_file srv P body fuel root src master_key v
          ≡ (some (record { dst = opened plain (length plain); error = none }), v')
    unfolding restore_gdrive_file decrypted opened_in_drive get_file
    restore_gdrive_file-restores fuel root src master_key iv plain root_id parent id s v' bytes
          block enough root_is leads got i =
        let (dst, did, holds) =
          decrypt_stream-Sends P L plain bytes file_write IsWritten file_write-Accepts body Inv
            sends master_key iv fuel s (opened [] 0) [] block enough i refl in
        let rest : Bytes → Action V S = get_file srv in
        ap (decrypted srv P body fuel master_key) (
          then_ok (get_file_id srv root []) (λ r. followed srv (split b'/' src) r.0 >>= rest)
            root_is
          ∙ then_ok (followed srv (split b'/' src) root_id) rest (followed-Leads leads)
          ∙ got)
        ∙ ap (λ d. (d, v')) (did ∙ ap (λ f. some (record { dst = f; error = none })) holds)
