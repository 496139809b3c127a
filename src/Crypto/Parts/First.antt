-- ===== src/Crypto/Parts/First.antt =====
-- The first part of a file: the salt comes before it, and the encryptor is made for it.
use lomo_backup.Common.{
  ℕ, ◌-◌, ◌<◌, ◌≤◌, ◌^◌, ◌≡◌, refl, sym, ap, ◌∙◌, subst, false, none, some, ◌++◌, append_assoc,
  Bytes, length, ==_refl, arith,
}
use lomo_backup.Common.Int.{pos, ◌+ℤ◌}
use lomo_backup.Io.{WriteResult, Accepts, ok, seek_start, seek_end}
use lomo_backup.Io.Cipher.{xor_from, xor_from-nil}
use lomo_backup.Io.File.{opened}
use lomo_backup.Io.PartReader.{part_reader, new_file_part_read_seeker, seek}
use lomo_backup.Io.PartReader.Read.{part}
use lomo_backup.Io.PartReader.Seek.{seek_lem, hold}
use lomo_backup.Io.CryptoStream.{Slice}
use lomo_backup.Io.CryptoStream.Read.{fresh, new_crypto_stream_reader-made}
use lomo_backup.Crypto.{
  Primitives, IsLawful, block_size, derive_key_from_master_key, new_encryptor, encryptor_made,
}
use lomo_backup.Crypto.Encrypt.{file_key, file_stream, new_cipher_stream_lem}
use lomo_backup.Crypto.Parts.{Encryptor, encrypt_part, first_part, salted, copy_part}
use lomo_backup.Crypto.Parts.Sealed.{no_nonce, between, HasSealed, Seals, enter, copy_part-Seals}

module _ (content : Bytes) (small : length content < 2 ^ 63) where
  -- A part that begins the file goes to its end and back.
  module _ (p e : ℕ) (within : e ≤ length content) where
    seek-end :
        seek (part content p 0 e 0) (pos 0) seek_end
        ≡ record { state = part content e 0 e e; position = pos e; error = none }
    seek-end =
        let there : hold (e - 0) (pos (e - 0) +ℤ pos 0) ≡ e = ground arith in
        seek_lem content p 0 e 0 (omega arith) (omega arith) (pos 0) seek_end tt (omega arith)
          (omega arith)
        ∙ rw (there) (ground arith)

    seek-start :
        seek (part content e 0 e e) (pos 0) seek_start
        ≡ record { state = part content 0 0 e 0; position = pos 0; error = none }
    seek-start =
        seek_lem content e 0 e e (omega arith) (omega arith) (pos 0) seek_start tt (omega arith)
          (omega arith)
        ∙ ground arith

  module _ (P : Primitives) (L : IsLawful P) (master_key : Bytes) (salt : Slice)
      (block : length salt.elements ≡ block_size) where
    abbrev derived : Bytes
    derived = derive_key_from_master_key P master_key salt.elements

    abbrev key : ℕ → ℕ
    key = file_key P master_key salt.elements

    abbrev first_encryptor : ℕ → Encryptor
    first_encryptor e =
        fresh (part content 0 0 e 0) (pos e) no_nonce
          (some (file_stream P master_key salt.elements))

    new_encryptor_lem :
        (p e : ℕ)
        → e ≤ length content
        → new_encryptor P part_reader
            (new_file_part_read_seeker (opened content p) (pos 0) (pos e))
            derived
            salt
            false
          ≡ ok (first_encryptor e)
    unfolding new_encryptor encryptor_made
    new_encryptor_lem p e within = rw (
      new_encryptor,
      new_cipher_stream_lem P master_key salt.elements L block,
      new_crypto_stream_reader-made part_reader (part content p 0 e 0) (part content e 0 e e)
          (part content 0 0 e 0) (pos e) (pos 0) no_nonce
          (some (file_stream P master_key salt.elements)) (seek-end p e within)
          (seek-start p e within),
    )

    first-HasSealed :
        (e : ℕ) → e ≤ length content → HasSealed content small key (first_encryptor e) 0
    first-HasSealed e within = record {
      place = 0;
      from = 0;
      upto = e;
      current = 0;
      is_part = refl;
      place_small = omega arith;
      has_nonce = refl;
      has_stream = refl;
      plain_hash = refl;
      given_hash = sym (xor_from-nil key 0);
    }

    module _ {W : Type 0} (write : W → Bytes → WriteResult W) (Holds : W → Bytes → Type 0)
        (accepts : Accepts write Holds) (fuel : ℕ) (enough : length content < fuel) where
      salted_lem :
          (en : Encryptor) (e : ℕ) (w : W) (out : Bytes)
          → Holds w out
          → salted P fuel derived salt write (pos 0) (pos e) en (write w salt.elements)
            ≡ copy_part P fuel derived salt write (pos 0) (pos e) en (write w salt.elements).state
      unfolding salted
      salted_lem en e w out holds =
          rw
            (
              accepts.succeeds w out salt.elements holds,
              accepts.takes w out salt.elements holds,
              ==_refl (length salt.elements),
            )
            refl

      pub first_part_lem :
          (p e : ℕ) (w : W) (out : Bytes)
          → e ≤ length content
          → Holds w out
          → Seals content small key P derived salt write Holds accepts fuel enough e
              (out ++ (salt.elements ++ xor_from key 0 (between content 0 e)))
              (encrypt_part P fuel derived salt write (opened content p) (pos 0) (pos e) none w)
      unfolding encrypt_part first_part salted
      first_part_lem p e w out within holds =
          let (r, w', done, sealed, written) =
            copy_part-Seals content small key P derived salt write Holds accepts fuel enough 0 e
              (omega arith) within (first_encryptor e) (write w salt.elements).state
              (out ++ salt.elements)
              (enter content small key 0 e (omega arith) within (first_encryptor e)
                (first-HasSealed e within))
              (accepts.appends w out salt.elements holds) in
          (
            r,
            w',
            ap (first_part P fuel derived salt write (pos 0) (pos e) w)
                  (new_encryptor_lem p e within)
                ∙ salted_lem (first_encryptor e) e w out holds
                ∙ done,
            sealed,
            subst (Holds w') (append_assoc out salt.elements _) written,
          )
