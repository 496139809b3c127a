-- ===== src/Files/Drive/Stores.antt =====
-- What `uploadFilesToGdrive` stores of a file.
use lomo_backup.Common.{
  ℕ, ◌+◌, ◌<◌, ◌^◌, ◌≡◌, refl, ap, ◌∙◌, Bool, true, false, Option, none, some, List, [], ◌∷◌, Bytes,
  length, length-append, map, ◌==◌, if◌then◌else◌, ◌⊎◌, inl, inr, All, arith,
}
use lomo_backup.Common.Int.{pos}
use lomo_backup.Types.{FileInfo, iso_id_cloud}
use lomo_backup.Io.{IoError, Result, ok, err}
use lomo_backup.Io.Cipher.{xor_from, length-xor_from, IsByte}
use lomo_backup.Io.File.{opened, os_file, file_write}
use lomo_backup.Io.File.Read.{IsReading, file_read-Serves}
use lomo_backup.Io.File.Write.{IsWritten, file_write-Accepts}
use lomo_backup.Io.CryptoStream
use lomo_backup.Io.CryptoStream.Read.{copy-sealed}
use lomo_backup.Crypto.{Primitives, IsLawful, copy_buffer, decrypt_stream}
use lomo_backup.Crypto.Encrypt.{file_key, encrypted, new_encryptor_lem}
use lomo_backup.Crypto.Decrypt.{decrypt-encrypted}
use lomo_backup.Dbx.{FileRow}
use lomo_backup.Dbx.Table.{update}
use lomo_backup.Dbx.Iso.{update_file_iso_id_and_remote_hash}
use lomo_backup.Image.{root_of}
use lomo_backup.Files.Puts.{gen_salt_lem}
use lomo_backup.Files.Folders.{split_path, folder_for}
use lomo_backup.Files.Drive.{
  Cloud, DriveState, created_file, body_read, encryptor_for, salt_for, file_opened, in_folder,
  below_root, drive_file,
}

-- A row, where that of a file is said to be in the cloud.
abbrev pub in_cloud : ℕ → Bytes → FileRow → FileRow
in_cloud file_id hash r =
    if r.id == file_id then record r { iso_id = iso_id_cloud; hash_remote = hash } else r

abbrev pub is_none : Option IoError → Bool
is_none none = true
is_none (some e) = false

module _ (P : Primitives) (L : IsLawful P) (C : Cloud) (fuel : ℕ) (master_key root_id : Bytes)
    (roots : List (ℕ × Bytes)) where
  update-in_cloud :
      (i : ℕ) (hash : Bytes) (rows : List FileRow)
      → update (λ r. r.id == i) (λ r. record r { iso_id = iso_id_cloud; hash_remote = hash }) rows
        ≡ map (in_cloud i hash) rows
  unfolding update
  update-in_cloud i hash [] = refl
  update-in_cloud i hash (r ∷ rows) = ap (λ t. in_cloud i hash r ∷ t) (update-in_cloud i hash rows)

  created_cases :
      (f : FileInfo) (s : DriveState) (body : Bytes) {parent : Bytes} {result : Option DriveState}
      → result
        ≡ some (
            created_file P C fuel master_key root_id roots f s
              (C.hex (P.sha256 body))
              (C.create_file (split_path f.name).1 parent body))
      → (made : Result Bytes) → C.create_file (split_path f.name).1 parent body ≡ made
      → ((e : IoError) × (C.create_file (split_path f.name).1 parent body ≡ err e)
          × (result ≡ some (record { tables = s.tables; known = s.known; goes_on = false })))
        ⊎ ((file_id : Bytes) × (C.create_file (split_path f.name).1 parent body ≡ ok file_id)
            × (result
                ≡ some (record {
                  tables = record s.tables {
                    files = map (in_cloud f.id (C.hex (P.sha256 body))) s.tables.files;
                  };
                  known = s.known;
                  goes_on =
                      is_none (C.update_metadata file_id f.hash_local (C.hex (P.sha256 body)));
                })))
  unfolding created_file update_file_iso_id_and_remote_hash
  created_cases f s body did (err e) made = inl (
    e,
    made,
    did
        ∙ ap
            (λ r.
              some (created_file P C fuel master_key root_id roots f s (C.hex (P.sha256 body)) r))
            made,
  )
  created_cases f s body did (ok file_id) made = inr (
    file_id,
    made,
    did
        ∙ ap
            (λ r.
              some (created_file P C fuel master_key root_id roots f s (C.hex (P.sha256 body)) r))
            made
        ∙ ap
            (λ rows. some (record {
              tables = record s.tables { files = rows };
              known = s.known;
              goes_on = is_none (C.update_metadata file_id f.hash_local (C.hex (P.sha256 body)));
            }))
            (update-in_cloud f.id (C.hex (P.sha256 body)) s.tables.files),
  )

  -- For a file of bytes below 2^63 - 16 whose scan root is known, whose folder is found or made, and fuel
  -- above its size and the salt: there is a body which decrypts to the file under the same master key,
  -- and the client is given this body for a file of that name in that folder. If it refuses that, the
  -- tables are as before and the loop ends. If it takes it, then of the rows of the files just those with
  -- the id of the file are changed, to say that it is in the cloud, with the printed hash of the body; and
  -- the loop goes on if and only if the client takes the metadata too. In both cases the folders that are
  -- known then stay known.
  pub drive_file-Stores :
      (f : FileInfo) (s : DriveState) (scan_root plain parent : Bytes)
      (known : List (Bytes × Bytes))
      → All IsByte plain
      → length plain + 16 < 2 ^ 63
      → length plain + 16 < fuel
      → root_of f.dir_id roots ≡ some scan_root
      → folder_for C.folder C.stat C.join root_id scan_root f.name s.known ≡ ok (known, parent)
      → C.content (C.join scan_root f.name) ≡ ok plain
      → (body : Bytes) × (decrypt_stream P os_file file_write fuel
            (opened body 0)
            (opened [] 0)
            master_key
          ≡ some (record { dst = opened plain (length plain); error = none }))
        × (((e : IoError) × (C.create_file (split_path f.name).1 parent body ≡ err e)
              × (drive_file P C fuel master_key root_id roots f s
                  ≡ some (record { tables = s.tables; known = known; goes_on = false })))
            ⊎ ((file_id : Bytes) × (C.create_file (split_path f.name).1 parent body ≡ ok file_id)
                × (drive_file P C fuel master_key root_id roots f s
                    ≡ some (record {
                      tables = record s.tables {
                        files = map (in_cloud f.id (C.hex (P.sha256 body))) s.tables.files;
                      };
                      known = known;
                      goes_on =
                          is_none (C.update_metadata file_id f.hash_local (C.hex (P.sha256 body)));
                    }))))
  unfolding drive_file created_file CryptoStream.get_hash_encrypt
  drive_file-Stores f s scan_root plain parent known bytes small enough rooted found content =
      let (salt, salt_is, block) = gen_salt_lem P L plain in
      let n_pos : 0 < copy_buffer = omega arith in
      let key = file_key P master_key salt.elements in
      let body = encrypted P master_key salt.elements plain in
      let size : length body < fuel = omega (
        arith,
        length-append salt.elements (xor_from key 0 plain),
        length-xor_from key 0 plain,
        block,
      ) in
      let (en, copied, (orig, given)) =
        copy-sealed os_file copy_buffer (IsReading plain copy_buffer n_pos)
          (file_read-Serves plain copy_buffer n_pos) salt key plain fuel (opened plain 0)
          (pos (length plain)) n_pos (record { done = 0; is_open = refl; left = refl }) size in
      let (back, undid, is_plain) =
        decrypt-encrypted P L plain bytes file_write IsWritten file_write-Accepts master_key
          salt.elements block fuel (opened [] 0) [] (omega arith) refl in
      let s' = record s { known = known } in
      (
        body,
        undid ∙ ap (λ x. some (record { dst = x; error = none })) is_plain,
        created_cases f s' body
            (ap (below_root P C fuel master_key root_id roots f s) rooted
              ∙ ap (in_folder P C fuel master_key root_id roots f scan_root s) found
              ∙ ap (file_opened P C fuel master_key root_id roots f s' parent) content
              ∙ ap (salt_for P C fuel master_key root_id roots f s' parent plain) salt_is
              ∙ ap (encryptor_for P C fuel master_key root_id roots f s' parent)
                  (new_encryptor_lem P L plain (omega arith) master_key salt 0 block)
              ∙ ap (body_read P C fuel master_key root_id roots f s' parent) copied
              ∙ ap
                  (λ h. some (
                    created_file P C fuel master_key root_id roots f s' (C.hex (P.sha256 h))
                      (C.create_file (split_path f.name).1 parent body)))
                  given)
            (C.create_file (split_path f.name).1 parent body) refl,
      )
