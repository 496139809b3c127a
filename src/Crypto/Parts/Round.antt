-- ===== src/Crypto/Parts/Round.antt =====
-- One round of the loop of `encryptCmd`, from its numbers to the state of the next round.
use lomo_backup.Common.{
  ℕ, suc, ◌+◌, ◌-◌, ◌<◌, ◌≤◌, ◌^◌, ◌≡◌, refl, ap, ◌∙◌, false, Option, none, some, List, [], ◌∷◌,
  ◌++◌, Bytes, length, ltb, if◌then◌else◌, arith,
}
use lomo_backup.Common.Int.{ℤ, pos, add64, sub64, add64_pos, sub64_pos, eqb_ℤ}
use lomo_backup.Io.{Result, ok, WriteResult}
use lomo_backup.Io.MultiWriter.{multi_write}
use lomo_backup.Io.File.{File}
use lomo_backup.Io.CryptoStream.{Slice}
use lomo_backup.Crypto.{Primitives, salt_len}
use lomo_backup.Crypto.Parts.{
  Encryptor, PartsLoop, PartsEncrypted, encrypt_part, part_length, part_start, part_end, part_done,
  part_created, encrypt_rounds,
}

module _ (P : Primitives) (fuel : ℕ) {W : Type 0} (write : W → Bytes → WriteResult W)
    (create : ℕ → Result W) (key : Bytes) (salt : Slice) (s : ℕ) (src : File) where
  abbrev pub loop_at : W → List W → ℤ → ℤ → ℤ → ℤ → Option Encryptor → PartsLoop W
  loop_at dst parts start end curr remaining en = record {
    dst = dst;
    parts = parts;
    start = start;
    end = end;
    curr = curr;
    remaining = remaining;
    encryptor = en;
  }

  -- The length of the next part, with `left` bytes to go.
  abbrev pub taken : ℕ → ℕ
  taken left = if ltb left s then left else s

  abbrev length_at : PartsLoop W → ℤ
  length_at = part_length P fuel write create key salt (pos s) src

  abbrev start_at : PartsLoop W → ℤ
  start_at = part_start P fuel write create key salt (pos s) src

  abbrev end_at : PartsLoop W → ℤ
  end_at = part_end P fuel write create key salt (pos s) src

  -- A round is made while bytes are left.
  pub round_lem :
      (rounds left : ℕ) (dst : W) (parts : List W) (start end curr : ℤ) (en : Option Encryptor)
      → 0 < left
      → encrypt_rounds P fuel write create key salt
          (pos s)
          src
          (suc rounds)
          (loop_at dst parts start end curr (pos left) en)
        ≡ part_created P fuel write create key salt
            (pos s)
            src
            (encrypt_rounds P fuel write create key salt (pos s) src rounds)
            (loop_at dst parts start end curr (pos left) en)
            (create (length parts + 1))
  unfolding encrypt_rounds
  round_lem rounds left dst parts start end curr en h =
      let more : eqb_ℤ (pos left) (pos 0) ≡ false = ground arith in rw more refl

  length_lem :
      (dst : W) (parts : List W) (start end curr : ℤ) (left : ℕ) (en : Option Encryptor)
      → length_at (loop_at dst parts start end curr (pos left) en) ≡ pos (taken left)
  length_lem dst parts start end curr left en = ground arith

  module _ (continue : PartsLoop W → Option (PartsEncrypted W)) (lp : PartsLoop W) where
    created_lem :
        (a e : ℤ) (pf : W) (en : Encryptor) (w : W × W) (made : Result W)
        → made ≡ ok pf
        → start_at lp ≡ a
        → end_at lp ≡ e
        → encrypt_part P fuel key salt (multi_write write write) src a e lp.encryptor (lp.dst, pf)
          ≡ some (record { encryptor = some en; writer = w; error = none })
        → part_created P fuel write create key salt (pos s) src continue lp made
          ≡ continue (
              loop_at w.0
                (lp.parts ++ w.1 ∷ [])
                a
                e
                (add64 lp.curr (length_at lp))
                (sub64 lp.remaining (sub64 e a))
                (some en))
    unfolding part_created part_done
    created_lem a e pf en w made m starts ends done =
        ap (part_created P fuel write create key salt (pos s) src continue lp) m
        ∙ ap (part_done P fuel write create key salt (pos s) src continue lp) (
            ap
              (λ x.
                encrypt_part P fuel key salt (multi_write write write) src x (end_at lp)
                  lp.encryptor (lp.dst, pf))
              starts
            ∙ ap
                (λ x.
                  encrypt_part P fuel key salt (multi_write write write) src a x lp.encryptor
                    (lp.dst, pf))
                ends
            ∙ done)
        ∙ ap
            (λ x. continue (
              loop_at w.0 (lp.parts ++ w.1 ∷ []) x (end_at lp) (add64 lp.curr (length_at lp))
                (sub64 lp.remaining (sub64 (end_at lp) x)) (some en)))
            starts
        ∙ ap
            (λ x. continue (
              loop_at w.0 (lp.parts ++ w.1 ∷ []) a x (add64 lp.curr (length_at lp))
                (sub64 lp.remaining (sub64 x a)) (some en)))
            ends

  module _ (continue : PartsLoop W → Option (PartsEncrypted W)) (dst : W) (parts : List W) (pf : W)
      (en' : Encryptor) (w : W × W) (made : Result W) (create_lem : made ≡ ok pf) (left : ℕ) where
    -- Behind the first part.
    pub later_round :
        (start : ℤ) (d c : ℕ) (en : Encryptor)
        → 0 < c
        → c + left < 2 ^ 63
        → d + left < 2 ^ 63
        → encrypt_part P fuel key salt
            (multi_write write write)
            src
            (pos d)
            (pos (d + taken left))
            (some en)
            (dst, pf)
          ≡ some (record { encryptor = some en'; writer = w; error = none })
        → part_created P fuel write create key salt
            (pos s)
            src
            continue
            (loop_at dst parts start (pos d) (pos c) (pos left) (some en))
            made
          ≡ continue (
              loop_at w.0
                (parts ++ w.1 ∷ [])
                (pos d)
                (pos (d + taken left))
                (pos (c + taken left))
                (pos (left - taken left))
                (some en'))
    later_round start d c en c_pos room within done =
        let lp = loop_at dst parts start (pos d) (pos c) (pos left) (some en) in
        let long = length_lem dst parts start (pos d) (pos c) left (some en) in
        let bound : taken left ≤ left = ground arith in
        created_lem continue lp (pos d) (pos (d + taken left)) pf en' w made create_lem
          (ground arith) (later_end lp start d c en c_pos within bound) done
        ∙ ap
            (λ x. continue (
              loop_at w.0 (parts ++ w.1 ∷ []) (pos d) (pos (d + taken left)) (add64 (pos c) x)
                (sub64 (pos left) (sub64 (pos (d + taken left)) (pos d))) (some en')))
            long
        ∙ ap
            (λ x. continue (
              loop_at w.0 (parts ++ w.1 ∷ []) (pos d) (pos (d + taken left)) x
                (sub64 (pos left) (sub64 (pos (d + taken left)) (pos d))) (some en')))
            (add64_pos c (taken left) (omega arith))
        ∙ ap
            (λ x. continue (
              loop_at w.0 (parts ++ w.1 ∷ []) (pos d) (pos (d + taken left)) (pos (c + taken left))
                x (some en')))
            (left_lem d bound within)
      where
        later_end :
            (lp : PartsLoop W) (start : ℤ) (d c : ℕ) (en : Encryptor)
            → 0 < c
            → d + left < 2 ^ 63
            → taken left ≤ left
            → end_at (loop_at dst parts start (pos d) (pos c) (pos left) (some en))
              ≡ pos (d + taken left)
        later_end lp start d c en c_pos within bound =
            ground (arith, add64_pos d (taken left) (omega arith))

        left_lem :
            (d : ℕ)
            → taken left ≤ left
            → d + left < 2 ^ 63
            → sub64 (pos left) (sub64 (pos (d + taken left)) (pos d)) ≡ pos (left - taken left)
        left_lem d bound within =
            let moved : d + taken left - d ≡ taken left = omega arith in
            rw
              (
                sub64_pos (d + taken left) d (omega arith) (omega arith),
                moved,
                sub64_pos left (taken left) bound (omega arith),
              )
              refl

    -- The first part, which is shorter by the salt.
    pub first_round :
        16 ≤ s
        → 16 ≤ left
        → left < 2 ^ 63
        → encrypt_part P fuel key salt
            (multi_write write write)
            src
            (pos 0)
            (pos (taken left - 16))
            none
            (dst, pf)
          ≡ some (record { encryptor = some en'; writer = w; error = none })
        → part_created P fuel write create key salt
            (pos s)
            src
            continue
            (loop_at dst parts (pos 0) (pos 0) (pos 0) (pos left) none)
            made
          ≡ continue (
              loop_at w.0
                (parts ++ w.1 ∷ [])
                (pos 0)
                (pos (taken left - 16))
                (pos (taken left))
                (pos (left - (taken left - 16)))
                (some en'))
    first_round s_long long small done =
        let bound : taken left ≤ left = ground arith in
        let over : 16 ≤ taken left = ground arith in
        let moved : taken left - 16 - 0 ≡ taken left - 16 = omega arith in
        let ends : end_at (loop_at dst parts (pos 0) (pos 0) (pos 0) (pos left) none)
            ≡ pos (taken left - 16) =
          ap (λ x. sub64 x (pos salt_len)) (length_lem dst parts (pos 0) (pos 0) (pos 0) left none)
          ∙ sub64_pos (taken left) 16 over (omega arith) in
        created_lem continue (loop_at dst parts (pos 0) (pos 0) (pos 0) (pos left) none) (pos 0)
          (pos (taken left - 16)) pf en' w made create_lem refl ends done
        ∙ ap
            (λ x. continue (
              loop_at w.0 (parts ++ w.1 ∷ []) (pos 0) (pos (taken left - 16)) x
                (sub64 (pos left) (sub64 (pos (taken left - 16)) (pos 0))) (some en')))
            (ap (λ x. add64 (pos 0) x) (length_lem dst parts (pos 0) (pos 0) (pos 0) left none)
              ∙ add64_pos 0 (taken left) (omega arith)
              ∙ ap pos (omega arith))
        ∙ ap
            (λ x. continue (
              loop_at w.0 (parts ++ w.1 ∷ []) (pos 0) (pos (taken left - 16)) (pos (taken left)) x
                (some en')))
            (ap (sub64 (pos left))
                (sub64_pos (taken left - 16) 0 (omega arith) (omega arith) ∙ ap pos moved)
              ∙ sub64_pos left (taken left - 16) (omega arith) small)
