-- ===== src/Upload/Fresh.antt =====
-- `prepareUploadParts` of an image that has no parts yet.
use mathlib.Core.Path.{ap₂}
use lomo_backup.Common.{
  ℕ, zero, suc, ◌-◌, ◌<◌, ◌≤◌, ◌^◌, ◌≡◌, refl, sym, ap, ◌∙◌, true, some, List, [], ◌∷◌, Bytes,
  length, take, drop, length-take, length-drop, map, All, arith,
}
use lomo_backup.Types.{IsoInfo, PartInfo, part_uploading}
use lomo_backup.Crypto.{copy_buffer}
use lomo_backup.Dbx.{Tables}
use lomo_backup.Dbx.Iso.{update_iso_remote_hash, update_iso}
use lomo_backup.Dbx.Iso.Parts.{get_parts_by_iso_id, insert_iso_parts}
use lomo_backup.Dbx.Iso.Stored.{stored, IsAscending, get_parts-insert}
use lomo_backup.Hash.{length_of_part, concat_and_calculate_base64_hash}
use lomo_backup.Hash.Parts.{pieces, pieces_within, piece_lem, calculate_multi_parts_hash_lem}
use lomo_backup.Upload.{
  Prepared, valid, validate_iso, prepared, prepare_upload_parts, parts_with, parts_for, fresh_parts,
  with_hashes, inserted,
}

module _ (sha256 hex base64 : Bytes → Bytes) (part_size : ℕ) (content : Bytes) where
  -- The part that stands for a piece: its number, its length, and its hash printed in two ways.
  unfoldable pub described_part : ℕ → Bytes → PartInfo
  described_part number piece = record {
    iso_id = 0;
    part_no = number;
    size = length piece;
    status = part_uploading;
    etag = [];
    hash_local = hex (sha256 piece);
    hash_remote = base64 (sha256 piece);
    create_time = 0;
  }

  -- The pieces numbered from `number` on.
  unfoldable pub described_parts : ℕ → List Bytes → List PartInfo
  unfolding described_part
  described_parts number [] = []
  described_parts number (piece ∷ later) =
      described_part number piece ∷ described_parts (suc number) later

  -- The parts of the file, and the hash of their hashes.
  abbrev pub new_parts : List PartInfo
  new_parts = described_parts 1 (pieces part_size content)

  abbrev pub parts_hash : Bytes
  parts_hash =
      concat_and_calculate_base64_hash sha256 base64 (map sha256 (pieces part_size content))

  described_parts-above :
      (low number : ℕ) (ps : List Bytes)
      → low ≤ number
      → All (λ q. low ≤ q.part_no) (described_parts number ps)
  unfolding described_parts described_part
  described_parts-above low number [] h = tt
  described_parts-above low number (p ∷ ps) h =
      (h, described_parts-above low (suc number) ps (omega arith))

  described_parts-IsAscending :
      (number : ℕ) (ps : List Bytes) → IsAscending (described_parts number ps)
  unfolding described_parts described_part IsAscending
  described_parts-IsAscending number [] = tt
  described_parts-IsAscending number (p ∷ ps) = (
    described_parts-above number (suc number) ps (omega arith),
    described_parts-IsAscending (suc number) ps,
  )

  -- What the loop makes of the hashes of the pieces.
  pub parts_with-described :
      (fuel number : ℕ) (s : Bytes)
      → parts_with sha256 hex base64 part_size number
          (length s)
          (map sha256 (pieces_within fuel part_size s))
        ≡ described_parts number (pieces_within fuel part_size s)
  unfolding parts_with described_parts described_part pieces_within
  parts_with-described zero number s = refl
  parts_with-described (suc fuel) number [] = refl
  parts_with-described (suc fuel) number (c ∷ s) =
      let (first, rest) = piece_lem part_size (c ∷ s) in
      let pl = length_of_part part_size (length (c ∷ s)) in
      let within : pl ≤ length (c ∷ s) = unfold length_of_part in ground arith in
      let sized : pl ≡ length (take part_size (c ∷ s)) =
        omega (arith, length-take pl (c ∷ s), ap length first) in
      let left : length (c ∷ s) - pl ≡ length (drop part_size (c ∷ s)) =
        sym (length-drop pl (c ∷ s)) ∙ ap length rest in
      ap₂ ◌∷◌
        (ap
          (λ n. record {
            iso_id = 0;
            part_no = number;
            size = n;
            status = part_uploading;
            etag = [];
            hash_local = hex (sha256 (take part_size (c ∷ s)));
            hash_remote = base64 (sha256 (take part_size (c ∷ s)));
            create_time = 0;
          })
          sized)
        (ap
            (λ n.
              parts_with sha256 hex base64 part_size (suc number) n
                (map sha256 (pieces_within fuel part_size (drop part_size (c ∷ s)))))
            left
          ∙ parts_with-described fuel (suc number) (drop part_size (c ∷ s)))

  get_parts-update_hash :
      (iso_id : ℕ) (hash : Bytes) (t : Tables)
      → get_parts_by_iso_id iso_id (update_iso_remote_hash iso_id hash t)
        ≡ get_parts_by_iso_id iso_id t
  unfolding get_parts_by_iso_id update_iso_remote_hash update_iso
  get_parts-update_hash iso_id hash t = refl

  parts_with-new_parts :
      parts_with sha256 hex base64 part_size 1
        (length content)
        (map sha256 (pieces part_size content))
      ≡ new_parts
  unfolding pieces
  parts_with-new_parts = parts_with-described (length content) 1 content

  -- A valid image below 2^63 without parts, cut into parts of at least one byte that the database
  -- takes: the caller gets the parts of the file, which are its consecutive pieces, numbered from 1, each
  -- with its length and its hash in both prints, and the hash of their hashes; and the database has
  -- these parts for the image, in this order.
  pub prepare_upload_parts-fresh :
      (name : Bytes) (now : ℕ) (t t' : Tables) (iso : IsoInfo)
      → length content < 2 ^ 63
      → 0 < part_size
      → validate_iso sha256 hex base64 name content t ≡ valid iso
      → length content ≡ iso.size
      → get_parts_by_iso_id iso.id t ≡ []
      → insert_iso_parts iso.id now new_parts t ≡ some t'
      → (prepare_upload_parts sha256 hex base64 name content part_size true now t
          ≡ prepared
              (record iso { hash_remote = parts_hash })
              new_parts
              (update_iso_remote_hash iso.id parts_hash t'))
        × (get_parts_by_iso_id iso.id (update_iso_remote_hash iso.id parts_hash t')
            ≡ map (stored iso.id now) new_parts)
  unfolding prepare_upload_parts parts_for fresh_parts with_hashes inserted
  prepare_upload_parts-fresh name now t t' iso small pos_size checked sized nothing into =
      let (hashed, whole) =
        calculate_multi_parts_hash_lem sha256 content small copy_buffer (omega arith) part_size
          pos_size (suc (length content)) (omega arith) 0 (suc (length content)) (omega arith)
          (omega arith) in
      let finished : Tables → Prepared = λ u.
        prepared (record iso { hash_remote = parts_hash }) new_parts
          (update_iso_remote_hash iso.id parts_hash u) in
      let made : List PartInfo → Prepared = λ ps.
        inserted sha256 hex base64 iso ps
          (λ u.
            prepared (record iso { hash_remote = parts_hash }) ps
              (update_iso_remote_hash iso.id parts_hash u))
          (insert_iso_parts iso.id now ps t) in
      (
        ap (parts_for sha256 hex base64 content part_size true now t) checked
            ∙ (rw (parts_for, nothing))
            ∙ ap (with_hashes sha256 hex base64 iso part_size now t) hashed
            ∙ ap
                (λ n. made (
                  parts_with sha256 hex base64 part_size 1 n
                    (map sha256 (pieces part_size content))))
                (sym sized)
            ∙ ap made (parts_with-new_parts)
            ∙ ap (inserted sha256 hex base64 iso new_parts finished) into,
        get_parts-update_hash iso.id parts_hash t'
            ∙ get_parts-insert iso.id now new_parts t t'
                (described_parts-IsAscending 1 (pieces part_size content)) nothing into,
      )
