-- ===== src/Upload/PartHash/Agrees.antt =====
-- The hash that `calculatePartHash` prints for one part is the one it prints among those of all parts.
use lomo_backup.Common.{
  ℕ, zero, suc, ◌+◌, ◌-◌, ◌<◌, ◌≤◌, ◌^◌, ◌≡◌, sym, ap, ◌∙◌, Option, none, some, Bytes, length, drop,
  map, get_elem?, arith,
}
use lomo_backup.Common.Int.{pos}
use lomo_backup.Io.Copy.{copy}
use lomo_backup.Io.File.{opened}
use lomo_backup.Io.PartReader.{new_file_part_read_seeker, read}
use lomo_backup.Io.PartReader.Read.{copy-part}
use lomo_backup.Crypto.{copy_buffer}
use lomo_backup.Hash.{length_of_part, concat_and_calculate_base64_hash}
use lomo_backup.Hash.Parts.{
  pieces, pieces_within, within_enough, part_bounds, rest_pieces, none_left,
  calculate_multi_parts_hash_lem,
}
use lomo_backup.Upload.PartHash.{
  PartHash, all_printed, one_printed, nothing_printed, all_hashed, one_hashed, part_from,
  calculate_part_hash,
}

-- What is printed of a piece, if there is one.
unfoldable pub shown : (Bytes → Bytes) → (Bytes → Bytes) → Option Bytes → PartHash
shown sha256 base64 none = nothing_printed
shown sha256 base64 (some piece) = one_printed (base64 (sha256 piece))

module _ (sha256 base64 : Bytes → Bytes) (content : Bytes) (small : length content < 2 ^ 63)
    (part_size : ℕ) (size_pos : 0 < part_size) (copy_fuel : ℕ)
    (enough : length content < copy_fuel) where
  buffer_pos : 0 < copy_buffer
  buffer_pos = omega arith

  no_part_left :
      (fuel j curr count : ℕ)
      → length content ≤ curr
      → part_from sha256 base64 copy_fuel part_size
          (count + j)
          (suc fuel)
          (opened content 0)
          curr
          0
          count
        ≡ some (
            shown sha256 base64
              (get_elem? (pieces_within (suc fuel) part_size (drop curr content)) j))
  unfolding part_from shown
  no_part_left fuel j curr count past =
      rw
        (none_left sha256 content small copy_buffer buffer_pos part_size size_pos copy_fuel enough
          (suc fuel) curr past)
        (ground arith)

  part_reached :
      (fuel curr remaining count : ℕ)
      → 0 < remaining
      → part_from sha256 base64 copy_fuel part_size count
          (suc fuel)
          (opened content 0)
          curr
          remaining
          count
        ≡ one_hashed sha256 base64 copy_fuel (
            copy read copy_buffer copy_fuel (
              new_file_part_read_seeker
                (opened content 0)
                (pos curr)
                (pos (curr + length_of_part part_size remaining))))
  unfolding part_from
  part_reached fuel curr remaining count some_left = ground arith

  part_counted :
      (fuel j curr remaining count : ℕ)
      → 0 < remaining
      → part_from sha256 base64 copy_fuel part_size
          (count + suc j)
          (suc fuel)
          (opened content 0)
          curr
          remaining
          count
        ≡ part_from sha256 base64 copy_fuel part_size
            (suc count + j)
            fuel
            (opened content 0)
            (curr + length_of_part part_size remaining)
            (remaining - length_of_part part_size remaining)
            (suc count)
  unfolding part_from
  part_counted fuel j curr remaining count some_left = ground arith

  part_from_lem :
      (fuel j curr remaining count : ℕ)
      → curr + remaining ≡ length content
      → remaining < fuel
      → part_from sha256 base64 copy_fuel part_size
          (count + j)
          fuel
          (opened content 0)
          curr
          remaining
          count
        ≡ some
            (shown sha256 base64 (get_elem? (pieces_within fuel part_size (drop curr content)) j))
  unfolding one_hashed shown
  part_from_lem zero j curr remaining count whole short = absurd (omega arith)
  part_from_lem (suc fuel) j curr zero count whole short =
      no_part_left fuel j curr count (omega arith)
  part_from_lem (suc fuel) zero curr (suc r) count whole short =
      let remaining = suc r in
      let pl = length_of_part part_size remaining in
      let (pl_pos, pl_le) =
        part_bounds sha256 content small copy_buffer buffer_pos part_size size_pos copy_fuel enough
          remaining (omega arith) in
      let (s, copied, at) =
        copy-part content small curr (curr + pl) copy_buffer buffer_pos (omega arith) 0 copy_fuel
          (omega arith) (omega arith) (omega arith) in
      let here : count + 0 ≡ count = omega arith in
      ap
        (λ n.
          part_from sha256 base64 copy_fuel part_size n (suc fuel) (opened content 0) curr remaining
            count)
        here
      ∙ part_reached fuel curr remaining count (omega arith)
      ∙ ap (one_hashed sha256 base64 copy_fuel) copied
      ∙ ap (λ ps. some (shown sha256 base64 (get_elem? ps 0)))
          (sym (
            rest_pieces sha256 content small copy_buffer buffer_pos part_size size_pos copy_fuel
              enough fuel curr remaining (omega arith) whole))
  part_from_lem (suc fuel) (suc j) curr (suc r) count whole short =
      let remaining = suc r in
      let pl = length_of_part part_size remaining in
      let (pl_pos, pl_le) =
        part_bounds sha256 content small copy_buffer buffer_pos part_size size_pos copy_fuel enough
          remaining (omega arith) in
      part_counted fuel j curr remaining count (omega arith)
      ∙ part_from_lem fuel j (curr + pl) (remaining - pl) (suc count) (omega arith) (omega arith)
      ∙ ap (λ ps. some (shown sha256 base64 (get_elem? ps (suc j))))
          (sym (
            rest_pieces sha256 content small copy_buffer buffer_pos part_size size_pos copy_fuel
              enough fuel curr remaining (omega arith) whole))

  numbered :
      (fuel k : ℕ)
      → calculate_part_hash sha256 base64 copy_fuel fuel content part_size (suc k)
        ≡ part_from sha256 base64 copy_fuel part_size
            (1 + k)
            fuel
            (opened content 0)
            0
            (length content)
            1
  unfolding calculate_part_hash
  numbered fuel k = ground arith

  -- For a file below 2^63, parts of at least one byte, and fuel above the file's size: number 0 prints
  -- the hashes of the pieces of the file and the hash of these, and a number above 0 prints the hash of
  -- the piece with that number, counted from 1, or nothing behind the last piece.
  pub calculate_part_hash-agrees :
      (fuel k : ℕ)
      → length content < fuel
      → (calculate_part_hash sha256 base64 copy_fuel fuel content part_size 0
          ≡ some (
              all_printed (map base64 (map sha256 (pieces part_size content))) (
                concat_and_calculate_base64_hash sha256 base64
                  (map sha256 (pieces part_size content)))))
        × (calculate_part_hash sha256 base64 copy_fuel fuel content part_size (suc k)
            ≡ some (shown sha256 base64 (get_elem? (pieces part_size content) k)))
  unfolding calculate_part_hash all_hashed pieces
  calculate_part_hash-agrees fuel k short = (
    ap (all_hashed sha256 base64 copy_fuel)
        (calculate_multi_parts_hash_lem sha256 content small copy_buffer buffer_pos part_size
          size_pos copy_fuel enough 0 fuel (omega arith) short).0,
    numbered fuel k
        ∙ part_from_lem fuel k 0 (length content) 1 (omega arith) short
        ∙ ap (λ ps. some (shown sha256 base64 (get_elem? ps k)))
            (within_enough part_size size_pos fuel (length content) content (omega arith)
              (omega arith)),
  )
