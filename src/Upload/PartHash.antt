-- ===== src/Upload/PartHash.antt =====
-- cmd/lomob/upload-iso.go, `calculatePartHash` behind its options: what it prints. The loop has int64
-- numbers that do not leave the range 0 to the file's size.
pub mod Agrees
use lomo_backup.Common.{
  ℕ, zero, suc, ◌+◌, ◌-◌, Option, none, some, List, Bytes, length, map, ◌==◌, if◌then◌else◌,
}
use lomo_backup.Common.Int.{pos}
use lomo_backup.Io.{IoError, Result, ok, err}
use lomo_backup.Io.Copy.{Copied, copy}
use lomo_backup.Io.File.{File, opened}
use lomo_backup.Io.PartReader.{FilePartReadSeeker, new_file_part_read_seeker, read}
use lomo_backup.Crypto.{copy_buffer}
use lomo_backup.Hash.{calculate_multi_parts_hash, concat_and_calculate_base64_hash, length_of_part}

-- The hashes of all parts and the overall one, that of one part, nothing, or an error.
pub data PartHash : Type 0 where
  all_printed : List Bytes → Bytes → PartHash
  one_printed : Bytes → PartHash
  nothing_printed : PartHash
  part_failed : IoError → PartHash

module _ (sha256 base64 : Bytes → Bytes) (copy_fuel : ℕ) where
  all_hashed : Option (Result (List Bytes)) → Option PartHash
  all_hashed none = none
  all_hashed (some (err e)) = some (part_failed e)
  all_hashed (some (ok parts)) =
      some (all_printed (map base64 parts) (concat_and_calculate_base64_hash sha256 base64 parts))

  one_hashed : Option (Copied FilePartReadSeeker) → Option PartHash
  one_hashed none = none
  one_hashed (some c) =
      some (elim c.error [ some e ↦ part_failed e | none ↦ one_printed (base64 (sha256 c.bytes)) ])

  -- The loop: the parts before the number asked for are only counted.
  part_from : ℕ → ℕ → ℕ → File → ℕ → ℕ → ℕ → Option PartHash
  unfolding one_hashed
  part_from part_size part_number zero f curr remaining count = none
  part_from part_size part_number (suc fuel) f curr remaining count =
      let part_length = length_of_part part_size remaining in
      let next =
        part_from part_size part_number fuel f (curr + part_length) (remaining - part_length)
          (suc count) in
      if remaining == 0
      then some nothing_printed
      else if part_number == count
      then one_hashed (
          copy read copy_buffer copy_fuel
            (new_file_part_read_seeker f (pos curr) (pos (curr + part_length))))
      else next

  -- Number 0 asks for all parts; `none` if the fuel of a loop runs out.
  unfoldable pub calculate_part_hash : ℕ → Bytes → ℕ → ℕ → Option PartHash
  unfolding all_hashed part_from
  calculate_part_hash fuel content part_size part_number =
      if part_number == 0
      then all_hashed (
          calculate_multi_parts_hash sha256 copy_buffer copy_fuel (opened content 0)
            (length content) part_size fuel)
      else part_from part_size part_number fuel (opened content 0) 0 (length content) 1
