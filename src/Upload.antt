-- ===== src/Upload.antt =====
-- cmd/lomob/upload-iso.go: the checks of an ISO image and the parts in which it is uploaded. SHA-256
-- and the two encodings of a hash are parameters. The file is given by its content, and is read with
-- the buffer of `io.Copy` and a round for each byte and one more.
pub mod Tiles
pub mod Fresh
pub mod Raw
pub mod Encrypted
pub mod Request
pub mod Command
pub mod PartHash
pub mod Metafile
mod Tests
use lomo_backup.Common.{
  ℕ, zero, suc, ◌+◌, ◌-◌, ◌/◌, Bool, true, false, not, ◌&&◌, Option, none, some, List, [], ◌∷◌,
  Bytes, length, ◌==◌, bytes_eq, if◌then◌else◌,
}
use lomo_backup.Io.{IoError, Result, ok, err}
use lomo_backup.Io.File.{opened}
use lomo_backup.Types.{IsoInfo, PartInfo, part_uploading}
use lomo_backup.Dbx.{Tables}
use lomo_backup.Dbx.Iso.{get_iso_by_name, update_iso_remote_hash}
use lomo_backup.Dbx.Iso.Parts.{get_parts_by_iso_id, insert_iso_parts}
use lomo_backup.Hash.{
  calculate_hash_file, calculate_multi_parts_hash, concat_and_calculate_base64_hash, length_of_part,
}
use lomo_backup.Crypto.{copy_buffer}

-- Why an upload is refused. `iso_missing` stands for the panic on a `nil` image.
pub data UploadError : Type 0 where
  iso_missing : UploadError
  size_differs : UploadError
  hash_differs : UploadError
  bad_part_size : UploadError
  io_failed : IoError → UploadError
  db_failed : UploadError
  out_of_fuel : UploadError

pub data Validated : Type 0 where
  valid : IsoInfo → Validated
  invalid_iso : UploadError → Validated

-- `(isoFile, isoInfo, parts, err)` of `prepareUploadParts`, and the tables it leaves.
pub data Prepared : Type 0 where
  prepared : IsoInfo → List PartInfo → Tables → Prepared
  not_prepared : UploadError → Prepared

-- `numParts` without the hashes: a last part that is empty when the size is a multiple.
abbrev pub num_parts : ℕ → ℕ → ℕ
num_parts size part_size = size / part_size + 1

-- A new part, whose fields beside number, size and hashes are zero.
abbrev pub bare_part : ℕ → ℕ → Bytes → Bytes → PartInfo
bare_part number size hash_local hash_remote = record {
  iso_id = 0;
  part_no = number;
  size = size;
  status = part_uploading;
  etag = [];
  hash_local = hash_local;
  hash_remote = hash_remote;
  create_time = 0;
}

-- The loop over the parts without hashes: `n` parts from number `no` on.
unfoldable pub parts_without : ℕ → ℕ → ℕ → ℕ → List PartInfo
parts_without part_size number remaining zero = []
parts_without part_size number remaining (suc n) =
    let part_length = length_of_part part_size remaining in
    bare_part number part_length [] []
    ∷ parts_without part_size (suc number) (remaining - part_length) n

-- Where the loop of `uploadRawParts` puts each part of the file, behind `end`.
unfoldable pub raw_ranges : ℕ → List PartInfo → List (ℕ × ℕ)
raw_ranges end [] = []
raw_ranges end (p ∷ parts) = (end, end + p.size) ∷ raw_ranges (end + p.size) parts

module _ (sha256 hex base64 : Bytes → Bytes) where
  -- The loop with the hashes of the parts.
  unfoldable pub parts_with : ℕ → ℕ → ℕ → List Bytes → List PartInfo
  parts_with part_size number remaining [] = []
  parts_with part_size number remaining (h ∷ hashes) =
      let part_length = length_of_part part_size remaining in
      bare_part number part_length (hex h) (base64 h)
      ∷ parts_with part_size (suc number) (remaining - part_length) hashes

  hash_checked : IsoInfo → Option (Result Bytes) → Validated
  hash_checked iso none = invalid_iso out_of_fuel
  hash_checked iso (some (err e)) = invalid_iso (io_failed e)
  hash_checked iso (some (ok hash)) =
      if bytes_eq (hex hash) iso.hash_local then valid iso else invalid_iso hash_differs

  size_checked : Bytes → Option IsoInfo → Validated
  unfolding hash_checked
  size_checked content none = invalid_iso iso_missing
  size_checked content (some iso) =
      let checked =
        hash_checked iso
          (calculate_hash_file sha256 copy_buffer (suc (length content)) (opened content 0)) in
      if length content == iso.size then checked else invalid_iso size_differs

  -- `validateISO`
  unfoldable pub validate_iso : Bytes → Bytes → Tables → Validated
  unfolding size_checked
  validate_iso name content t = size_checked content (get_iso_by_name name t)

  -- `db.InsertIsoParts`, and what follows it.
  inserted : IsoInfo → List PartInfo → (Tables → Prepared) → Option Tables → Prepared
  inserted iso parts next none = not_prepared db_failed
  inserted iso parts next (some t) = next t

  with_hashes : IsoInfo → ℕ → ℕ → Tables → Option (Result (List Bytes)) → Prepared
  unfolding inserted
  with_hashes iso part_size now t none = not_prepared out_of_fuel
  with_hashes iso part_size now t (some (err e)) = not_prepared (io_failed e)
  with_hashes iso part_size now t (some (ok hashes)) =
      let parts = parts_with part_size 1 iso.size hashes in
      let hash = concat_and_calculate_base64_hash sha256 base64 hashes in
      inserted iso parts
        (λ t'.
          prepared (record iso { hash_remote = hash }) parts
            (update_iso_remote_hash iso.id hash t'))
        (insert_iso_parts iso.id now parts t)

  fresh_parts : Bytes → IsoInfo → ℕ → Bool → ℕ → Tables → Prepared
  unfolding with_hashes inserted
  fresh_parts content iso part_size true now t = with_hashes iso part_size now t (
      calculate_multi_parts_hash sha256 copy_buffer (suc (length content)) (opened content 0)
        (length content) part_size (suc (length content)))
  fresh_parts content iso part_size false now t =
      let parts = parts_without part_size 1 iso.size (num_parts iso.size part_size) in
      if part_size == 0
      then not_prepared bad_part_size
      else inserted iso parts (λ t'. prepared iso parts t') (insert_iso_parts iso.id now parts t)

  parts_for : Bytes → ℕ → Bool → ℕ → Tables → Validated → Prepared
  unfolding fresh_parts
  parts_for content part_size cal_hash now t (invalid_iso e) = not_prepared e
  parts_for content part_size cal_hash now t (valid iso) = elim (get_parts_by_iso_id iso.id t) [
    | [] ↦ fresh_parts content iso part_size cal_hash now t
    | p ∷ parts ↦ prepared iso (p ∷ parts) t
  ]

  -- `prepareUploadParts` at time `now`: the parts in the database, or else new ones.
  unfoldable pub prepare_upload_parts : Bytes → Bytes → ℕ → Bool → ℕ → Tables → Prepared
  unfolding parts_for
  prepare_upload_parts name content part_size cal_hash now t =
      parts_for content part_size cal_hash now t (validate_iso name content t)
