-- ===== src/Hash.antt =====
-- common/hash/hash.go: the hash of a file and of each of its parts. SHA-256 is a parameter, and a
-- hash is `Sum` of the text written to it.
pub mod Parts
mod Tests
use lomo_backup.Common.{
  ℕ, zero, suc, ◌+◌, ◌-◌, Option, none, some, List, [], ◌∷◌, ◌++◌, Bytes, ltb, ◌==◌, if◌then◌else◌,
  map,
}
use lomo_backup.Common.Int.{pos}
use lomo_backup.Io.{Result, ok, err, ReadSeeker}
use lomo_backup.Io.Copy.{Copied, copy}
use lomo_backup.Io.File.{File, file_read}
use lomo_backup.Io.PartReader.{FilePartReadSeeker, new_file_part_read_seeker, read}

-- `partLength` of a round.
unfoldable pub length_of_part : ℕ → ℕ → ℕ
length_of_part part_size remaining = if ltb remaining part_size then remaining else part_size

module _ (sha256 : Bytes → Bytes) where
  -- `CalculateHashBytes`
  abbrev pub calculate_hash_bytes : Bytes → Bytes
  calculate_hash_bytes buffer = sha256 buffer

  module _ (buffer copy_fuel : ℕ) where
    -- `CalculateHashFile` behind `os.Open`.
    file_hashed : Option (Copied File) → Option (Result Bytes)
    file_hashed none = none
    file_hashed (some c) = some (elim c.error [ some e ↦ err e | none ↦ ok (sha256 c.bytes) ])

    unfoldable pub calculate_hash_file : File → Option (Result Bytes)
    unfolding file_hashed
    calculate_hash_file f = file_hashed (copy file_read buffer copy_fuel f)

    -- After the copy of one part: `remaining` and `curr` move by its length, and the loop goes on.
    part_hashed :
        (File → ℕ → ℕ → List Bytes → Option (Result (List Bytes)))
        → ℕ
        → ℕ
        → ℕ
        → List Bytes
        → Option (Copied FilePartReadSeeker)
        → Option (Result (List Bytes))
    part_hashed continue curr remaining part_length hashes none = none
    part_hashed continue curr remaining part_length hashes (some c) =
        let next =
          continue c.state.f (curr + part_length) (remaining - part_length)
            (hashes ++ sha256 c.bytes ∷ []) in
        elim c.error [ some e ↦ some (err e) | none ↦ next ]

    -- The loop over the parts. Its numbers are int64 that do not leave the range 0 to the file's size;
    -- `none` if the fuel runs out first, as it does on parts of size 0.
    hash_parts : ℕ → ℕ → File → ℕ → ℕ → List Bytes → Option (Result (List Bytes))
    unfolding part_hashed
    hash_parts part_size zero f curr remaining hashes = none
    hash_parts part_size (suc fuel) f curr remaining hashes =
        let part_length = length_of_part part_size remaining in
        let prs = new_file_part_read_seeker f (pos curr) (pos (curr + part_length)) in
        let round =
          part_hashed (hash_parts part_size fuel) curr remaining part_length hashes
            (copy read buffer copy_fuel prs) in
        if remaining == 0 then some (ok hashes) else round

    -- `CalculateMultiPartsHash` of an open file whose size is `size`.
    unfoldable pub calculate_multi_parts_hash : File → ℕ → ℕ → ℕ → Option (Result (List Bytes))
    unfolding hash_parts
    calculate_multi_parts_hash f size part_size fuel = hash_parts part_size fuel f 0 size []

-- The text that `ConcatAndCalculateBase64Hash` hashes: all the hashes in turn. Writing to a hash does
-- not fail.
abbrev pub concat : List Bytes → Bytes
concat [] = []
concat (p ∷ parts) = p ++ concat parts

module _ (sha256 base64 : Bytes → Bytes) where
  -- `ConcatAndCalculateBase64Hash`, with the base 64 encoding a parameter.
  unfoldable pub concat_and_calculate_base64_hash : List Bytes → Bytes
  concat_and_calculate_base64_hash parts = base64 (sha256 (concat parts))
