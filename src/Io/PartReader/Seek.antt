-- ===== src/Io/PartReader/Seek.antt =====
-- `Seek` on a part of an open file: it goes to the place asked for, held within the part.
use native.Mathlib.Decide.{dec_lt}
use lomo_backup.Common.{ℕ, suc, ◌+◌, ◌-◌, ◌≤◌, ◌<◌, ◌^◌, min, ◌≡◌, none, Bytes, arith}
use lomo_backup.Common.Int.{
  ℤ, pos, negsuc, pos_part, neg_part, ◌+ℤ◌, add64_pos, sub64_pos, add64_negsuc, add64_below,
  sub64_negsuc,
}
use lomo_backup.Io.{Whence, seek_start, seek_current, seek_end, seek_other, SeekResult}
use lomo_backup.Io.File.{file_seek}
use lomo_backup.Io.PartReader.{FilePartReadSeeker, seek, to_edge, to_place, to_end}
use lomo_backup.Io.PartReader.Read.{part}

-- Where `whence` counts from, in a part of `size` bytes read up to `done`.
abbrev pub origin : ℕ → ℕ → Whence → ℕ
origin size done seek_start = 0
origin size done seek_current = done
origin size done seek_end = size
origin size done seek_other = 0

-- An integer held within 0 and `size`.
abbrev pub hold : ℕ → ℤ → ℕ
hold size (pos n) = min n size
hold size (negsuc n) = 0

abbrev pub IsWhence : Whence → Type 0
IsWhence seek_other = ⊥
IsWhence _ = Unit

module _ (content : Bytes) (p a e c : ℕ) (before : a ≤ c) (within : c ≤ e) where
  abbrev sought : ℕ → SeekResult FilePartReadSeeker
  sought t = record { state = part content (a + t) a e (a + t); position = pos t; error = none }

  module _ (small : e < 2 ^ 63) where
    to_start_lem : to_edge (part content p a e c) (pos a) (pos 0) ≡ sought 0
    unfolding to_edge file_seek
    to_start_lem = ground arith

    to_edge_lem : to_edge (part content p a e c) (pos e) (pos (e - a)) ≡ sought (e - a)
    unfolding to_edge file_seek
    to_edge_lem = ground arith

    to_end_lem : to_end (part content p a e c) ≡ sought (e - a)
    unfolding to_end file_seek
    to_end_lem = ground (arith, sub64_pos e a (omega arith) (omega arith))

    to_place_lem :
        (x t : ℕ) → x ≡ a + t → x < 2 ^ 63 → to_place (part content p a e c) (pos x) ≡ sought t
    unfolding to_place file_seek
    to_place_lem x t h k =
        ground (arith, sub64_pos x a (omega arith) (omega arith), add64_pos a (x - a) (omega arith))

  -- For the three origins, and an offset with which no sum leaves the range of int64: the answer is
  -- the place asked for, held within the part, and the reader and its file stand there.
  pub seek_lem :
      (offset : ℤ) (whence : Whence)
      → IsWhence whence
      → e + pos_part offset < 2 ^ 63
      → neg_part offset < 2 ^ 63
      → seek (part content p a e c) offset whence
        ≡ sought (hold (e - a) (pos (origin (e - a) (c - a) whence) +ℤ offset))
  unfolding seek
  seek_lem (pos n) seek_start w h k =
      let size = sub64_pos e a (omega arith) (omega arith) in
      let place = add64_pos a n (omega arith) in
      let small : e < 2 ^ 63 = omega arith in
      rw (seek, size, place)
        (ground (arith, to_start_lem small, to_edge_lem small, to_place_lem small (a + n) n))
  seek_lem (negsuc n) seek_start w h k = ground (arith, to_start_lem (omega arith))
  seek_lem (pos n) seek_current w h k =
      rw (seek, add64_pos c n (omega arith))
        (ground (arith, to_end_lem (omega arith), to_place_lem (omega arith) (c + n) (c - a + n)))
  seek_lem (negsuc n) seek_current w h k = elim (dec_lt n c) [
    | yes less ↦
        rw (seek, add64_negsuc c n (omega arith) less)
          (ground (
            arith,
            to_start_lem (omega arith),
            to_place_lem (omega arith) (c - suc n) (c - suc n - a),
          ))
    | no more ↦
        rw (seek, add64_below c n (omega arith) (omega arith))
          (ground (arith, to_start_lem (omega arith)))
  ]
  seek_lem (pos n) seek_end w h k =
      rw (seek, sub64_pos e a (omega arith) (omega arith))
        (ground (arith, to_edge_lem (omega arith)))
  seek_lem (negsuc n) seek_end w h k =
      let size = sub64_pos e a (omega arith) (omega arith) in
      let back = sub64_negsuc n (omega arith) in
      elim (dec_lt n (e - a)) [
        | yes less ↦
            let place = add64_negsuc e n (omega arith) (omega arith) in
            rw (seek, size, back, place)
              (ground (arith, to_place_lem (omega arith) (e - suc n) (e - suc n - a)))
        | no more ↦ rw (seek, size, back) (ground (arith, to_start_lem (omega arith)))
      ]
  seek_lem offset seek_other w h k = absurd w
