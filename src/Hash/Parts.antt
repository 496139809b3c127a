-- ===== src/Hash/Parts.antt =====
-- `CalculateMultiPartsHash` hashes the pieces of the file, one by one.
use native.Mathlib.Decide.{dec_lt}
use mathlib.Core.Path.{ap₂}
use lomo_backup.Common.{
  ℕ, zero, suc, ◌+◌, ◌-◌, ◌<◌, ◌≤◌, ◌^◌, ◌≡◌, refl, sym, ap, ◌∙◌, some, List, [], ◌∷◌, ◌++◌, Bytes,
  length, take, drop, length-drop, take_all, drop_all, drop-drop, append_assoc, append-nil,
  take-append-drop, map, arith,
}
use lomo_backup.Common.Int.{pos}
use lomo_backup.Io.{ok}
use lomo_backup.Io.Copy.{copy}
use lomo_backup.Io.File.{File, opened}
use lomo_backup.Io.PartReader.{new_file_part_read_seeker, read}
use lomo_backup.Io.PartReader.Read.{copy-part}
use lomo_backup.Hash.{calculate_multi_parts_hash, hash_parts, part_hashed, length_of_part, concat}

-- A text cut into pieces of `n` bytes, the last of which may be shorter.
unfoldable pub pieces_within : ℕ → ℕ → Bytes → List Bytes
pieces_within zero n s = []
pieces_within (suc fuel) n [] = []
pieces_within (suc fuel) n (c ∷ s) = take n (c ∷ s) ∷ pieces_within fuel n (drop n (c ∷ s))

unfoldable pub pieces : ℕ → Bytes → List Bytes
unfolding pieces_within
pieces n s = pieces_within (length s) n s

pub within_enough :
    (n : ℕ)
    → 0 < n
    → (fuel more : ℕ) (s : Bytes) → length s ≤ fuel
    → length s ≤ more
    → pieces_within fuel n s ≡ pieces_within more n s
unfolding pieces_within
within_enough n h zero zero [] k l = refl
within_enough n h zero (suc more) [] k l = refl
within_enough n h (suc fuel) zero [] k l = refl
within_enough n h (suc fuel) (suc more) [] k l = refl
within_enough n h zero more (c ∷ s) k l = absurd (omega arith)
within_enough n h (suc fuel) zero (c ∷ s) k l = absurd (omega arith)
within_enough n h (suc fuel) (suc more) (c ∷ s) k l =
    ap (λ t. take n (c ∷ s) ∷ t)
      (within_enough n h fuel more (drop n (c ∷ s)) (omega (arith, length-drop n (c ∷ s)))
        (omega (arith, length-drop n (c ∷ s))))

concat-within :
    (n : ℕ) → 0 < n → (fuel : ℕ) (s : Bytes) → length s ≤ fuel → concat (pieces_within fuel n s) ≡ s
unfolding pieces_within
concat-within n h zero [] k = refl
concat-within n h zero (c ∷ s) k = absurd (omega arith)
concat-within n h (suc fuel) [] k = refl
concat-within n h (suc fuel) (c ∷ s) k =
    ap (λ t. take n (c ∷ s) ++ t)
      (concat-within n h fuel (drop n (c ∷ s)) (omega (arith, length-drop n (c ∷ s))))
    ∙ take-append-drop n (c ∷ s)

pub piece_lem :
    (part_size : ℕ) (t : Bytes)
    → (take (length_of_part part_size (length t)) t ≡ take part_size t)
      × (drop (length_of_part part_size (length t)) t ≡ drop part_size t)
unfolding length_of_part
piece_lem part_size t = elim (dec_lt (length t) part_size) [
  | yes short ↦ ground (
    arith,
    take_all part_size t (omega arith),
    drop_all part_size t (omega arith),
    take_all (length t) t (omega arith),
    drop_all (length t) t (omega arith),
  )
  | no long ↦ ground arith
]

module _ (sha256 : Bytes → Bytes) (content : Bytes) (small : length content < 2 ^ 63) (buffer : ℕ)
    (buffer_pos : 0 < buffer) (part_size : ℕ) (size_pos : 0 < part_size) (copy_fuel : ℕ)
    (enough : length content < copy_fuel) where
  pub part_bounds :
      (remaining : ℕ)
      → 0 < remaining
      → (0 < length_of_part part_size remaining) × (length_of_part part_size remaining ≤ remaining)
  unfolding length_of_part
  part_bounds remaining h = ground arith

  pieces_cons :
      (fuel : ℕ) (t : Bytes)
      → 0 < length t
      → pieces_within (suc fuel) part_size t
        ≡ take (length_of_part part_size (length t)) t
          ∷ pieces_within fuel part_size (drop (length_of_part part_size (length t)) t)
  unfolding pieces_within
  pieces_cons fuel [] h = absurd (omega arith)
  pieces_cons fuel (c ∷ t) h =
      let (first, rest) = piece_lem part_size (c ∷ t) in
      ap₂ ◌∷◌ (sym first) (ap (pieces_within fuel part_size) (sym rest))

  -- The pieces of what is left, and those of what is left behind a part.
  pub rest_pieces :
      (fuel curr remaining : ℕ)
      → 0 < remaining
      → curr + remaining ≡ length content
      → let part_length = length_of_part part_size remaining in
        pieces_within (suc fuel) part_size (drop curr content)
        ≡ take ((curr + part_length) - curr) (drop curr content)
          ∷ pieces_within fuel part_size (drop (curr + part_length) content)
  rest_pieces fuel curr remaining h k =
      let len : length (drop curr content) ≡ remaining = omega (arith, length-drop curr content) in
      let pl = length_of_part part_size remaining in
      let same : pl ≡ (curr + pl) - curr = omega arith in
      pieces_cons fuel (drop curr content) (omega arith)
      ∙ ap
          (λ r.
            take (length_of_part part_size r) (drop curr content)
            ∷ pieces_within fuel part_size (drop (length_of_part part_size r) (drop curr content)))
          len
      ∙ ap₂ ◌∷◌ (ap (λ m. take m (drop curr content)) same)
          (ap (pieces_within fuel part_size) (drop-drop curr pl (curr + pl) content refl))

  pub none_left :
      (fuel curr : ℕ)
      → length content ≤ curr
      → pieces_within fuel part_size (drop curr content) ≡ []
  unfolding pieces_within
  none_left zero curr h = refl
  none_left (suc fuel) curr h = rw (drop_all curr content h)

  round_lem :
      (fuel : ℕ) (f : File) (curr remaining : ℕ) (hashes : List Bytes)
      → 0 < remaining
      → let part_length = length_of_part part_size remaining in
        hash_parts sha256 buffer copy_fuel part_size (suc fuel) f curr remaining hashes
        ≡ part_hashed sha256 buffer copy_fuel
            (hash_parts sha256 buffer copy_fuel part_size fuel)
            curr
            remaining
            part_length
            hashes
            (copy read buffer copy_fuel
              (new_file_part_read_seeker f (pos curr) (pos (curr + part_length))))
  unfolding hash_parts
  round_lem fuel f curr remaining hashes h = ground arith

  stop_lem :
      (fuel : ℕ) (f : File) (curr : ℕ) (hashes : List Bytes)
      → hash_parts sha256 buffer copy_fuel part_size (suc fuel) f curr 0 hashes ≡ some (ok hashes)
  unfolding hash_parts
  stop_lem fuel f curr hashes = ground arith

  hash_parts_lem :
      (fuel place curr remaining : ℕ) (hashes : List Bytes)
      → place < 2 ^ 63
      → curr + remaining ≡ length content
      → remaining < fuel
      → hash_parts sha256 buffer copy_fuel part_size fuel
          (opened content place)
          curr
          remaining
          hashes
        ≡ some (ok (hashes ++ map sha256 (pieces_within fuel part_size (drop curr content))))
  unfolding part_hashed
  hash_parts_lem zero place curr remaining hashes h k l = ground arith
  hash_parts_lem (suc fuel) place curr zero hashes h k l =
      stop_lem fuel (opened content place) curr hashes
      ∙ ap (λ t. some (ok t))
          (sym (append-nil hashes)
            ∙ ap (λ t. hashes ++ map sha256 t) (sym (none_left (suc fuel) curr (omega arith))))
  hash_parts_lem (suc fuel) place curr (suc r) hashes h k l =
      let remaining = suc r in
      let pl = length_of_part part_size remaining in
      let (pl_pos, pl_le) = part_bounds remaining (omega arith) in
      let (s, copied, at) =
        copy-part content small curr (curr + pl) buffer buffer_pos (omega arith) place copy_fuel h
          (omega arith) (omega arith) in
      round_lem fuel (opened content place) curr remaining hashes (omega arith)
      ∙ ap
          (part_hashed sha256 buffer copy_fuel (hash_parts sha256 buffer copy_fuel part_size fuel)
            curr remaining pl hashes)
          copied
      ∙ ap
          (λ st.
            hash_parts sha256 buffer copy_fuel part_size fuel st.f (curr + pl) (remaining - pl)
              (hashes ++ sha256 (take ((curr + pl) - curr) (drop curr content)) ∷ []))
          at.is_part
      ∙ hash_parts_lem fuel at.place (curr + pl) (remaining - pl) _ at.place_small (omega arith)
          (omega arith)
      ∙ ap (λ t. some (ok t))
          (append_assoc hashes _ _
            ∙ ap (λ t. hashes ++ map sha256 t)
                (sym (rest_pieces fuel curr remaining (omega arith) k)))

  -- For a file below 2^63, parts of at least one byte, and fuel above the file's size: wherever the
  -- file stands, the hashes are those of the pieces of the content, in their order, and the pieces
  -- together are the content.
  pub calculate_multi_parts_hash_lem :
      (place fuel : ℕ)
      → place < 2 ^ 63
      → length content < fuel
      → (calculate_multi_parts_hash sha256 buffer copy_fuel
            (opened content place)
            (length content)
            part_size
            fuel
          ≡ some (ok (map sha256 (pieces part_size content))))
        × (concat (pieces part_size content) ≡ content)
  unfolding calculate_multi_parts_hash pieces
  calculate_multi_parts_hash_lem place fuel h k = (
    hash_parts_lem fuel place 0 (length content) [] h (omega arith) k
        ∙ ap (λ t. some (ok (map sha256 t)))
            (within_enough part_size size_pos fuel (length content) content (omega arith)
              (omega arith)),
    concat-within part_size size_pos (length content) content (omega arith),
  )
