-- ===== src/Crypto/Parts/Whole.antt =====
-- The loop of `encryptCmd`: the parts are pieces of what encrypting the file as a whole gives.
use lomo_backup.Common.{
  ℕ, zero, suc, ◌+◌, ◌-◌, ◌<◌, ◌≤◌, ◌^◌, ◌≡◌, refl, sym, ap, ◌∙◌, subst, Option, none, some, List,
  [], ◌∷◌, ◌++◌, append_assoc, append-nil, Bytes, length, length-append, take, take-add, take_all,
  length-take, arith,
}
use lomo_backup.Common.Int.{ℤ, pos}
use lomo_backup.Io.{Result, ok, WriteResult, Accepts}
use lomo_backup.Io.Cipher.{xor_from, xor_from-append, length-xor_from}
use lomo_backup.Io.MultiWriter.{multi_write, HoldsBoth, multi_write-Accepts}
use lomo_backup.Io.File.{opened}
use lomo_backup.Io.CryptoStream.{Slice}
use lomo_backup.Crypto.{Primitives, IsLawful, block_size, derive_key_from_master_key}
use lomo_backup.Crypto.Encrypt.{file_key, encrypted}
use lomo_backup.Crypto.Parts.{Encryptor, PartsEncrypted, encrypt_rounds, encrypt_in_parts}
use lomo_backup.Crypto.Parts.Sealed.{between, HasSealed, length-between, encrypt_part_lem}
use lomo_backup.Crypto.Parts.First.{first_part_lem}
use lomo_backup.Crypto.Parts.Round.{loop_at, taken, round_lem, later_round, first_round}

-- Files that have pieces of a text in turn, each of at least one byte and at most `s`.
pub data AreParts {W : Type 0} (Holds : W → Bytes → Type 0) (s : ℕ) : List W → Bytes → Type 0 where
  no_parts : AreParts Holds s [] []
  one_more :
      {parts : List W} {text : Bytes} (w : W) (piece : Bytes)
      → AreParts Holds s parts text
      → Holds w piece
      → 0 < length piece
      → length piece ≤ s
      → AreParts Holds s (parts ++ w ∷ []) (text ++ piece)

module _ (P : Primitives) (L : IsLawful P) (content : Bytes) (small : length content + 16 < 2 ^ 63)
    (master_key : Bytes) (salt : Slice) (block : length salt.elements ≡ block_size) {W : Type 0}
    (write : W → Bytes → WriteResult W) (Holds : W → Bytes → Type 0) (accepts : Accepts write Holds)
    (create : ℕ → Result W) (creates : (i : ℕ) → (w : W) × (create i ≡ ok w) × Holds w [])
    (fuel : ℕ) (enough : length content < fuel) (s : ℕ) (s_long : 16 ≤ s) where
  abbrev derived : Bytes
  derived = derive_key_from_master_key P master_key salt.elements

  abbrev key : ℕ → ℕ
  key = file_key P master_key salt.elements

  -- The encrypted file up to the first `d` bytes of the original.
  abbrev sealed : ℕ → Bytes
  sealed d = salt.elements ++ xor_from key 0 (take d content)

  abbrev sealed_first : ℕ → Bytes
  sealed_first e = salt.elements ++ xor_from key 0 (between content 0 e)

  in_range : length content < 2 ^ 63
  in_range = omega arith

  abbrev Ends : Bytes → Option (PartsEncrypted W) → Type 0
  Ends before result =
      (dst : W) × (parts : List W) × (result
        ≡ some (record { dst = dst; parts = parts; error = none }))
      × Holds dst (before ++ encrypted P master_key salt.elements content)
      × AreParts Holds s parts (encrypted P master_key salt.elements content)

  sealed-between :
      (a e : ℕ)
      → a ≤ e
      → e ≤ length content
      → sealed a ++ xor_from key a (between content a e) ≡ sealed e
  sealed-between a e ordered within =
      append_assoc salt.elements _ _
      ∙ ap (λ t. salt.elements ++ t)
          (sym (
              xor_from-append key 0 a (take a content) (between content a e)
                (omega (arith, length-take a content)))
            ∙ ap (xor_from key 0) (take-add a (e - a) e content (omega arith)))

  rounds-Ends :
      (p rounds : ℕ) (before : Bytes) (dst : W) (parts : List W) (start : ℤ) (d c left : ℕ)
      (en : Encryptor)
      → left < rounds
      → d + left ≡ length content
      → 0 < c
      → c + left < 2 ^ 63
      → HasSealed content in_range key en d
      → Holds dst (before ++ sealed d)
      → AreParts Holds s parts (sealed d)
      → Ends before (
          encrypt_rounds P fuel write create derived salt (pos s) (opened content p) rounds (
            loop_at P fuel write create derived salt s
              (opened content p)
              dst
              parts
              start
              (pos d)
              (pos c)
              (pos left)
              (some en)))
  unfolding encrypt_rounds
  rounds-Ends p zero before dst parts start d c left en l all c_pos room has holds are =
      absurd (omega arith)
  rounds-Ends p (suc rounds) before dst parts start d c zero en l all c_pos room has holds are =
      let whole : take d content ≡ content = take_all d content (omega arith) in
      (
        dst,
        parts,
        refl,
        subst (λ t. Holds dst (before ++ (salt.elements ++ xor_from key 0 t))) whole holds,
        subst (λ t. AreParts Holds s parts (salt.elements ++ xor_from key 0 t)) whole are,
      )
  rounds-Ends p (suc rounds) before dst parts start d c (suc l') en l all c_pos room has holds are =
      let src = opened content p in
      let left = suc l' in
      let m = taken P fuel write create derived salt s src left in
      let bound : m ≤ left = ground arith in
      let some_left : 0 < m = ground arith in
      let small_m : m ≤ s = ground arith in
      let within : d + m ≤ length content = omega arith in
      let piece = xor_from key d (between content d (d + m)) in
      let long : length piece ≡ m =
        length-xor_from key d (between content d (d + m))
        ∙ length-between content in_range key d (d + m) (omega arith) within
        ∙ omega arith in
      let (pf, made, empty) = creates (length parts + 1) in
      let (en', (dst', pf'), done, has', (first, second)) =
        encrypt_part_lem content in_range key P derived salt (multi_write write write)
          (HoldsBoth write write Holds Holds accepts accepts (before ++ sealed d))
          (multi_write-Accepts write write Holds Holds accepts accepts (before ++ sealed d)) fuel
          enough d (d + m) (omega arith) within src en (dst, pf) [] has
          (subst (Holds dst) (sym (append-nil _)) holds, empty) in
      let next = encrypt_rounds P fuel write create derived salt (pos s) src rounds in
      let (dst2, parts2, e, h, a) =
        rounds-Ends p rounds before dst' (parts ++ pf' ∷ []) (pos d) (d + m) (c + m) (left - m) en'
          (omega arith) (omega arith) (omega arith) (omega arith) has'
          (subst (Holds dst')
            (append_assoc before (sealed d) piece
              ∙ ap (λ t. before ++ t) (sealed-between d (d + m) (omega arith) within))
            first)
          (subst (AreParts Holds s (parts ++ pf' ∷ []))
            (sealed-between d (d + m) (omega arith) within)
            (one_more pf' piece are second (omega arith) (omega arith))) in
      (
        dst2,
        parts2,
        round_lem P fuel write create derived salt s src rounds left dst parts start (pos d) (pos c)
              (some en) (omega arith)
            ∙ later_round P fuel write create derived salt s src next dst parts pf en' (dst', pf') _
                made left start d c en c_pos room (omega arith) done
            ∙ e,
        h,
        a,
      )

  -- A file of at least 16 and less than 2^63 - 16 bytes, wherever it stands, parts of at least 16 bytes,
  -- and fuel above the size of the file: `encryptCmd` ends without an error. It appends to the
  -- destination what encrypting the file as a whole gives, and the part files have consecutive pieces of
  -- that, in order, with nothing between them or left over, each of at least one byte and at most the
  -- part size.
  pub encrypt_in_parts_lem :
      (p rounds : ℕ) (before : Bytes) (dst : W)
      → 16 ≤ length content
      → length content + 1 < rounds
      → Holds dst before
      → (dst' : W) × (parts : List W) × (encrypt_in_parts P fuel write create master_key salt
            (pos s)
            (opened content p)
            (pos (length content))
            rounds
            dst
          ≡ some (record { dst = dst'; parts = parts; error = none }))
        × Holds dst' (before ++ encrypted P master_key salt.elements content)
        × AreParts Holds s parts (encrypted P master_key salt.elements content)
  unfolding encrypt_in_parts
  encrypt_in_parts_lem p zero before dst long l holds = absurd (omega arith)
  encrypt_in_parts_lem p (suc rounds) before dst long l holds =
      let src = opened content p in
      let left = length content in
      let m = taken P fuel write create derived salt s src left in
      let bound : m ≤ left = ground arith in
      let over : 16 ≤ m = ground arith in
      let small_m : m ≤ s = ground arith in
      let e = m - 16 in
      let (pf, made, empty) = creates 1 in
      let (en', (dst', pf'), done, has', (first, second)) =
        first_part_lem content in_range P L master_key salt block (multi_write write write)
          (HoldsBoth write write Holds Holds accepts accepts before)
          (multi_write-Accepts write write Holds Holds accepts accepts before) fuel enough p e
          (dst, pf) [] (omega arith) (subst (Holds dst) (sym (append-nil _)) holds, empty) in
      let next = encrypt_rounds P fuel write create derived salt (pos s) src rounds in
      let up_to : sealed_first e ≡ sealed e =
        ap (λ k. salt.elements ++ xor_from key 0 (take k content)) (omega arith) in
      let piece_long : length (sealed_first e) ≡ m =
        ap length up_to
        ∙ length-append salt.elements (xor_from key 0 (take e content))
        ∙ omega (arith, block, length-xor_from key 0 (take e content), length-take e content) in
      let (dst2, parts2, r, h, a) =
        rounds-Ends p rounds before dst' (pf' ∷ []) (pos 0) e m (left - e) en' (omega arith)
          (omega arith) (omega arith) (omega arith) has'
          (subst (λ t. Holds dst' (before ++ t)) up_to first)
          (subst (AreParts Holds s (pf' ∷ [])) up_to
            (one_more pf' (sealed_first e) no_parts second (omega arith) (omega arith))) in
      (
        dst2,
        parts2,
        round_lem P fuel write create derived salt s src rounds left dst [] (pos 0) (pos 0) (pos 0)
              none (omega arith)
            ∙ first_round P fuel write create derived salt s src next dst [] pf en' (dst', pf') _
                made left s_long long in_range done
            ∙ r,
        h,
        a,
      )
