-- ===== src/Io/PartReader/Read.antt =====
-- `Read` on a part of an open file: it serves the bytes of the part, wherever the file stands.
use native.Mathlib.Decide.{dec_lt}
use lomo_backup.Io.Copy.{copy, copy-Serves}
use lomo_backup.Common.{
  ℕ, ◌+◌, ◌-◌, ◌≤◌, ◌<◌, ◌^◌, min, ◌≡◌, refl, none, some, [], Bytes, length, take, drop,
  length-take, length-drop, drop-drop, take-add, sym, arith, ap, ◌∙◌, ◌⊎◌,
}
use lomo_backup.Common.Int.{pos, add64_pos, sub64_pos}
use lomo_backup.Io.{eof, seek_current, ReadResult, Served, at_end, given, Serves}
use lomo_backup.Io.File.{opened, file_read, file_seek}
use lomo_backup.Io.PartReader.{
  FilePartReadSeeker, new_file_part_read_seeker, advance, fail, read_at_current, read_found,
  read_moved, read,
}

min_cases : (n m : ℕ) → ((n ≤ m) × (min n m ≡ n)) ⊎ ((m < n) × (min n m ≡ m))
min_cases n m = grind arith

-- The part [a, e) of an open file that stands at `p`, read up to `c`.
abbrev pub part : Bytes → ℕ → ℕ → ℕ → ℕ → FilePartReadSeeker
part content p a e c = record { f = opened content p; start = pos a; end = pos e; current = pos c }

module _ (content : Bytes) (small : length content < 2 ^ 63) where
  file_read_within :
      (p n : ℕ)
      → 0 < n
      → p + n ≤ length content
      → file_read (opened content p) n
        ≡ record { state = opened content (p + n); bytes = take n (drop p content); error = none }
  unfolding file_read
  file_read_within p n h k =
      let len : length (take n (drop p content)) ≡ n =
        omega (arith, length-take n (drop p content), length-drop p content) in
      ground (arith, len)

  advance_lem :
      (a e c n : ℕ)
      → 0 < n
      → c + n ≤ length content
      → advance (part content c a e c) (file_read (opened content c) n) ≡ record {
        state = part content (c + n) a e (c + n);
        bytes = take n (drop c content);
        error = none;
      }
  unfolding advance
  advance_lem a e c n h k =
      let len : length (take n (drop c content)) ≡ n =
        omega (arith, length-take n (drop c content), length-drop c content) in
      ap (advance (part content c a e c)) (file_read_within c n h k)
      ∙ ground (arith, len, add64_pos c n (omega arith))

  -- What one read gives of a part that is not at its end, and where it leaves the reader.
  abbrev next_read : ℕ → ℕ → ℕ → ℕ → ReadResult FilePartReadSeeker
  next_read a e c n = record {
    state = part content (c + n) a e (c + n);
    bytes = take n (drop c content);
    error = none;
  }

  read_at_current_lem :
      (a e c n : ℕ)
      → 0 < n
      → c < e
      → e ≤ length content
      → read_at_current (part content c a e c) n ≡ next_read a e c (min n (e - c))
  unfolding read_at_current
  read_at_current_lem a e c n h k l = ground (
    arith,
    sub64_pos e c (omega arith) (omega arith),
    advance_lem a e c n,
    advance_lem a e c (e - c),
    min_cases n (e - c),
  )

  -- The file is moved to the part's own place first.
  read_lem :
      (p a e c n : ℕ)
      → p < 2 ^ 63
      → 0 < n
      → read (part content p a e c) n ≡ read_at_current (part content c a e c) n
  unfolding read_found read_moved file_seek
  read_lem p a e c n h k =
      let found : file_seek (opened content p) (pos 0) seek_current
          ≡ record { state = opened content p; position = pos p; error = none } =
        rw (file_seek, add64_pos p 0 (omega arith)) (ground arith) in
      unfold read in ap (read_found (part content p a e c) n) found ∙ ground arith

  module _ (a e n : ℕ) (n_pos : 0 < n) (within : e ≤ length content) where
    -- A reader of the part, between two reads: what it has left is the part behind `current`.
    pub record IsReading (s : FilePartReadSeeker) (rest : Bytes) : Type 0 where
      pub place : ℕ
      pub done : ℕ
      pub is_part : s ≡ part content place a e done
      pub place_small : place < 2 ^ 63
      pub done_le : done ≤ e
      pub left : rest ≡ take (e - done) (drop done content)

    next_read-Served :
        (c k : ℕ)
        → 0 < k
        → k ≤ n
        → c + k ≤ e
        → Served IsReading n (take (e - c) (drop c content)) (next_read a e c k)
    next_read-Served c k h short fits =
        let len : length (take k (drop c content)) ≡ k =
          omega (arith, length-take k (drop c content), length-drop c content) in
        given (λ z. omega (arith, ap length z)) (omega arith)
          (rw (← drop-drop c k (c + k) content refl)
            (sym (take-add k (e - (c + k)) (e - c) (drop c content) (omega arith))))
          (record {
            place = c + k;
            done = c + k;
            is_part = refl;
            place_small = omega arith;
            done_le = omega arith;
            left = refl;
          })

    at_end_lem :
        (c : ℕ)
        → e ≤ c
        → read_at_current (part content c a e c) n
          ≡ record { state = part content c a e c; bytes = []; error = some eof }
    unfolding read_at_current fail
    at_end_lem c h = ground arith

    read_part-Served :
        (p c : ℕ)
        → p < 2 ^ 63
        → c ≤ e
        → Served IsReading n (take (e - c) (drop c content)) (read (part content p a e c) n)
    read_part-Served p c h k = elim (dec_lt c e) [
      | yes more ↦
          rw (read_lem p a e c n h n_pos, read_at_current_lem a e c n n_pos more within)
            (next_read-Served c (min n (e - c)) (omega arith) (omega arith) (omega arith))
      | no over ↦
          let c_eq : c ≡ e = omega arith in
          let nothing : e - c ≡ 0 = omega arith in
          rw (read_lem p a e c n h n_pos, at_end_lem c (omega arith), nothing)
            (at_end refl (record {
              place = c;
              done = c;
              is_part = refl;
              place_small = omega arith;
              done_le = omega arith;
              left = rw nothing;
            }))
    ]

    pub read-Serves : Serves read n IsReading
    read-Serves s rest inv =
        rw (inv.is_part, inv.left) (read_part-Served inv.place inv.done inv.place_small inv.done_le)

    -- Copying a new reader of the part [a, e) of an open file, which may stand anywhere, writes the
    -- bytes of the part and reports no error.
    pub copy-part :
        (p fuel : ℕ)
        → p < 2 ^ 63
        → a ≤ e
        → e - a < fuel
        → (s : FilePartReadSeeker) × (copy read n fuel
              (new_file_part_read_seeker (opened content p) (pos a) (pos e))
            ≡ some (record { state = s; bytes = take (e - a) (drop a content); error = none }))
          × IsReading s []
    copy-part p fuel h k l =
        copy-Serves read n IsReading read-Serves fuel _ _
          (omega (arith, length-take (e - a) (drop a content)))
          (record {
            place = p;
            done = a;
            is_part = refl;
            place_small = h;
            done_le = k;
            left = refl;
          })
