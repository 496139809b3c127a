-- ===== src/Crypto/Parts.antt =====
-- cmd/lomob/crypt.go, `encryptCmd` with a part size, and what it shares with `uploadEncryptParts` of
-- cmd/lomob/upload-iso.go: one encryptor over one part reader, which is moved to each part in turn.
pub mod Sealed
pub mod First
pub mod Round
pub mod Whole
pub mod RoundTrip
use lomo_backup.Common.{
  ℕ, zero, suc, ◌+◌, Bool, true, false, Option, none, some, List, [], ◌∷◌, ◌++◌, Bytes, length,
  ◌==◌, if◌then◌else◌,
}
use lomo_backup.Common.Int.{ℤ, pos, add64, sub64, ltb_ℤ, eqb_ℤ}
use lomo_backup.Io.{IoError, count_differs, Result, ok, err, WriteResult}
use lomo_backup.Io.File.{File}
use lomo_backup.Io.CopyInto.{CopiedInto, copy_into}
use lomo_backup.Io.MultiWriter.{multi_write}
use lomo_backup.Io.PartReader.{
  FilePartReadSeeker, new_file_part_read_seeker, set_start_end, part_reader,
}
use lomo_backup.Io.CryptoStream
use lomo_backup.Io.CryptoStream.{Slice, CryptoStreamReader}
use lomo_backup.Crypto.{
  Primitives, salt_len, new_encryptor, derive_key_from_master_key, copy_buffer,
}

-- The encryptor, which has the reader `prs`.
abbrev pub Encryptor : Type 0
Encryptor = CryptoStreamReader FilePartReadSeeker

-- A round of the loop behind the making of its files: the encryptor, the writer and the error.
pub record PartWritten (W : Type 0) : Type 0 where
  pub encryptor : Option Encryptor
  pub writer : W
  pub error : Option IoError

module _ (P : Primitives) (fuel : ℕ) (key : Bytes) (salt : Slice) where
  module _ {W : Type 0} (write : W → Bytes → WriteResult W) where
    -- `n` must be the length of the part.
    copied_part : ℤ → ℤ → Option (CopiedInto Encryptor W) → Option (PartWritten W)
    copied_part start end none = none
    copied_part start end (some c) = some (record {
      encryptor = some c.reader;
      writer = c.writer;
      error = elim c.error [
        | some e ↦ some e
        | none ↦ if eqb_ℤ (pos c.written) (sub64 end start) then none else some count_differs
      ];
    })

    -- `io.Copy(mw, encryptor)`
    pub copy_part : ℤ → ℤ → Encryptor → W → Option (PartWritten W)
    copy_part start end en w =
        copied_part start end
          (copy_into write (CryptoStream.read part_reader) copy_buffer fuel en w)

    -- After the salt is written in front of the first part.
    salted : ℤ → ℤ → Encryptor → WriteResult W → Option (PartWritten W)
    salted start end en r = elim r.error [
      | some e ↦ some (record { encryptor = some en; writer = r.state; error = some e })
      | none ↦
          if r.written == length salt.elements
          then copy_part start end en r.state
          else some (record { encryptor = some en; writer = r.state; error = some count_differs })
    ]

    first_part : ℤ → ℤ → W → Result Encryptor → Option (PartWritten W)
    first_part start end w (err e) = some (record { encryptor = none; writer = w; error = some e })
    first_part start end w (ok en) = salted start end en (write w salt.elements)

    -- The part [start, end) of `src`; `none` if the fuel of the copy runs out.
    unfoldable pub encrypt_part : File → ℤ → ℤ → Option Encryptor → W → Option (PartWritten W)
    unfolding first_part salted copy_part copied_part
    encrypt_part src start end none w =
        first_part start end w
          (new_encryptor P part_reader (new_file_part_read_seeker src start end) key salt false)
    encrypt_part src start end (some en) w =
        copy_part start end (record en { f = set_start_end en.f start end }) w

-- The variables of the loop of `encryptCmd`; `index` is one more than the parts.
pub record PartsLoop (W : Type 0) : Type 0 where
  pub dst : W
  pub parts : List W
  pub start : ℤ
  pub end : ℤ
  pub curr : ℤ
  pub remaining : ℤ
  pub encryptor : Option Encryptor

-- The encrypted file, the files of the parts, and the error.
pub record PartsEncrypted (W : Type 0) : Type 0 where
  pub dst : W
  pub parts : List W
  pub error : Option IoError

-- `create` is `os.Create` of the part with a number.
module _ (P : Primitives) (fuel : ℕ) {W : Type 0} (write : W → Bytes → WriteResult W)
    (create : ℕ → Result W) (key : Bytes) (salt : Slice) (part_size : ℤ) (src : File) where
  abbrev pub part_length : PartsLoop W → ℤ
  part_length lp = if ltb_ℤ lp.remaining part_size then lp.remaining else part_size

  abbrev pub part_start : PartsLoop W → ℤ
  part_start lp = if eqb_ℤ lp.curr (pos 0) then lp.start else lp.end

  abbrev pub part_end : PartsLoop W → ℤ
  part_end lp =
      if eqb_ℤ lp.curr (pos 0)
      then sub64 (part_length lp) (pos salt_len)
      else add64 lp.end (part_length lp)

  pub part_done :
      (PartsLoop W → Option (PartsEncrypted W))
      → PartsLoop W
      → Option (PartWritten (W × W))
      → Option (PartsEncrypted W)
  part_done continue lp none = none
  part_done continue lp (some r) =
      let parts = lp.parts ++ r.writer.1 ∷ [] in
      let next = continue (record {
        dst = r.writer.0;
        parts = parts;
        start = part_start lp;
        end = part_end lp;
        curr = add64 lp.curr (part_length lp);
        remaining = sub64 lp.remaining (sub64 (part_end lp) (part_start lp));
        encryptor = r.encryptor;
      }) in
      elim r.error [
        | some e ↦ some (record { dst = r.writer.0; parts = parts; error = some e })
        | none ↦ next
      ]

  pub part_created :
      (PartsLoop W → Option (PartsEncrypted W)) → PartsLoop W → Result W → Option (PartsEncrypted W)
  unfolding part_done
  part_created continue lp (err e) =
      some (record { dst = lp.dst; parts = lp.parts; error = some e })
  part_created continue lp (ok pf) = part_done continue lp (
      encrypt_part P fuel key salt (multi_write write write) src (part_start lp) (part_end lp)
        lp.encryptor (lp.dst, pf))

  pub encrypt_rounds : ℕ → PartsLoop W → Option (PartsEncrypted W)
  unfolding part_created
  encrypt_rounds zero lp = none
  encrypt_rounds (suc rounds) lp =
      let next = part_created (encrypt_rounds rounds) lp (create (length lp.parts + 1)) in
      if eqb_ℤ lp.remaining (pos 0)
      then some (record { dst = lp.dst; parts = lp.parts; error = none })
      else next

-- `encryptCmd` with a part size, behind the opening of its files: `size` is that of the source.
unfoldable pub encrypt_in_parts :
    (P : Primitives) (fuel : ℕ) {W : Type 0} (write : W → Bytes → WriteResult W)
    (create : ℕ → Result W)
    → Bytes
    → Slice
    → ℤ
    → File
    → ℤ
    → ℕ
    → W
    → Option (PartsEncrypted W)
unfolding encrypt_rounds
encrypt_in_parts P fuel write create master_key salt part_size src size rounds dst =
    encrypt_rounds P fuel write create (derive_key_from_master_key P master_key salt.elements) salt
      part_size src rounds
      (record {
        dst = dst;
        parts = [];
        start = pos 0;
        end = pos 0;
        curr = pos 0;
        remaining = size;
        encryptor = none;
      })
