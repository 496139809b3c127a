-- ===== src/Upload/Tiles.antt =====
-- The parts of an image and what `uploadRawParts` reads for them.
use mathlib.Core.Path.{ap₂}
use lomo_backup.Common.{
  ℕ, zero, suc, ◌+◌, ◌-◌, ◌≡◌, refl, sym, ap, ◌∙◌, List, [], ◌∷◌, Bytes, length, take, drop, map,
  length-drop, drop-drop, arith,
}
use lomo_backup.Hash.{length_of_part}
use lomo_backup.Hash.Parts.{pieces, pieces_within, piece_lem}
use lomo_backup.Upload.{parts_with, raw_ranges}

-- The bytes of a range.
abbrev pub range_of : Bytes → ℕ × ℕ → Bytes
range_of content (a, e) = take (e - a) (drop a content)

module _ (sha256 hex base64 : Bytes → Bytes) (part_size : ℕ) (content : Bytes) where
  tiles_from :
      (fuel number curr remaining : ℕ) (s : Bytes)
      → drop curr content ≡ s
      → length s ≡ remaining
      → map (range_of content) (
          raw_ranges curr (
            parts_with sha256 hex base64 part_size number remaining
              (map sha256 (pieces_within fuel part_size s))))
        ≡ pieces_within fuel part_size s
  unfolding parts_with raw_ranges pieces_within
  tiles_from zero number curr remaining s h l = refl
  tiles_from (suc fuel) number curr remaining [] h l = refl
  tiles_from (suc fuel) number curr remaining (c ∷ s) h l =
      let pl = length_of_part part_size remaining in
      let (first, rest) = piece_lem part_size (c ∷ s) in
      let whole : curr + pl - curr ≡ pl = omega arith in
      let sized : length_of_part part_size (length (c ∷ s)) ≡ pl =
        ap (length_of_part part_size) l in
      let behind : drop (curr + pl) content ≡ drop part_size (c ∷ s) =
        sym (drop-drop curr pl (curr + pl) content refl)
        ∙ ap (drop pl) h
        ∙ ap (λ m. drop m (c ∷ s)) (sym sized)
        ∙ rest in
      let left : length (drop part_size (c ∷ s)) ≡ remaining - pl =
        ap length (sym rest ∙ ap (λ m. drop m (c ∷ s)) sized)
        ∙ length-drop pl (c ∷ s)
        ∙ ap (λ m. m - pl) l in
      ap₂ ◌∷◌
        (ap (λ m. take m (drop curr content)) whole
          ∙ ap (take pl) h
          ∙ ap (λ m. take m (c ∷ s)) (sym sized)
          ∙ first)
        (tiles_from fuel (suc number) (curr + pl) (remaining - pl) (drop part_size (c ∷ s)) behind
          left)

  hashes_from :
      (number remaining : ℕ) (hashes : List Bytes)
      → map (λ p. p.hash_remote) (parts_with sha256 hex base64 part_size number remaining hashes)
        ≡ map base64 hashes
  unfolding parts_with
  hashes_from number remaining [] = refl
  hashes_from number remaining (h ∷ hs) = ap (λ t. base64 h ∷ t) (hashes_from (suc number) _ hs)

  -- For the parts that are made from the hashes of the pieces of a file: what the ranges of the upload
  -- read are these pieces, in order, and each part carries the encoded hash of its own range.
  pub raw_ranges-parts_with :
      let parts =
        parts_with sha256 hex base64 part_size 1
          (length content)
          (map sha256 (pieces part_size content)) in
      (map (range_of content) (raw_ranges 0 parts) ≡ pieces part_size content)
      × (map (λ p. p.hash_remote) parts
          ≡ map (λ r. base64 (sha256 (range_of content r))) (raw_ranges 0 parts))
  unfolding pieces
  raw_ranges-parts_with =
      let tiles = tiles_from (length content) 1 0 (length content) content refl refl in
      (
        tiles,
        hashes_from 1 (length content)
              (map sha256 (pieces_within (length content) part_size content))
            ∙ ap (λ t. map base64 (map sha256 t)) (sym tiles)
            ∙ map_thrice _,
      )
    where
      map_thrice :
          (rs : List (ℕ × ℕ))
          → map base64 (map sha256 (map (range_of content) rs))
            ≡ map (λ r. base64 (sha256 (range_of content r))) rs
      map_thrice [] = refl
      map_thrice (r ∷ rs) = ap (λ t. base64 (sha256 (range_of content r)) ∷ t) (map_thrice rs)
