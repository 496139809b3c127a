-- ===== src/Crypto.antt =====
-- common/crypto/crypto.go, and the commands of cmd/lomob/crypt.go that encrypt and decrypt a file.
-- SHA-256, Argon2id and the key stream of AES in counter mode are the parameter `Primitives`.
pub mod Encrypt
pub mod Decrypt
pub mod RoundTrip
pub mod Master
pub mod Received
pub mod Toy
pub mod Parts
mod Tests
use lomo_backup.Common.{
  ℕ, suc, ◌+◌, ◌*◌, ◌≡◌, Bool, true, false, ◌||◌, Option, none, some, [], ◌∷◌, ◌++◌, Bytes, length,
  take, drop, ltb, ◌==◌, bytes_eq, if◌then◌else◌,
}
use lomo_backup.Io.{
  IoError, eof, key_size, panicked, buffer_too_short, hash_too_short, salt_differs, count_differs,
  Result, ok, err, ReadResult, WriteResult, ReadSeeker,
}
use lomo_backup.Io.Cipher.{Stream}
use lomo_backup.Io.CopyInto.{CopiedInto, copy_into}
use lomo_backup.Io.ReadFull.{read_full}
use lomo_backup.Io.CryptoStream
use lomo_backup.Io.CryptoStream.{
  Slice, Made, made, refused, CryptoStreamReader, CryptoStreamWriter, new_crypto_stream_reader,
}

-- `aes.BlockSize`, and `SaltLen`.
abbrev pub block_size : ℕ
block_size = 16

abbrev pub salt_len : ℕ
salt_len = block_size

pub record Primitives : Type 0 where
  pub sha256 : Bytes → Bytes
  pub id_key : Bytes → Bytes → ℕ → ℕ → ℕ → ℕ → Bytes
  pub key_stream : Bytes → Bytes → ℕ → ℕ

-- The lengths that their documentation promises.
pub record IsLawful (P : Primitives) : Type 0 where
  pub length-sha256 : (b : Bytes) → length (P.sha256 b) ≡ 32
  pub length-id_key :
      (password salt : Bytes) (time memory threads key_len : ℕ)
      → length (P.id_key password salt time memory threads key_len) ≡ key_len

abbrev argon2_time : ℕ
argon2_time = 1

abbrev argon2_memory : ℕ
argon2_memory = 64 * 1024

abbrev argon2_thread : ℕ
argon2_thread = 4

abbrev pub argon2_key_length : ℕ
argon2_key_length = 32

-- `MasterDecryptor`. Once it has a decryptor, that holds the writer.
pub record MasterDecryptor (W : Type 0) : Type 0 where
  pub master_key : Bytes
  pub writer : W
  pub decryptor : Option (CryptoStreamWriter W)

-- The file that `encryptLocalFile` leaves, and what it returns.
pub record Encrypted (W : Type 0) : Type 0 where
  pub dst : W
  pub hash : Result Bytes

-- The file that a decryption leaves, and its error.
pub record Decrypted (W : Type 0) : Type 0 where
  pub dst : W
  pub error : Option IoError

module _ (P : Primitives) where
  unfoldable pub derive_key_from_master_key : Bytes → Bytes → Bytes
  derive_key_from_master_key master_key salt =
      P.id_key master_key salt argon2_time argon2_memory argon2_thread argon2_key_length

  -- `newCipherStream`: `aes.NewCipher` knows three sizes of keys, and `cipher.NewCTR` panics unless
  -- the nonce is a block.
  unfoldable pub new_cipher_stream : Bytes → Bytes → Result Stream
  new_cipher_stream key iv =
      if length key == 16 || length key == 24 || length key == 32
      then if length iv == block_size
        then ok (record { key_byte = P.key_stream key iv; used = 0 })
        else err panicked
      else err key_size

  -- `genSalt` of a file with the given content: the start of its hash. (Without a file name the salt
  -- is random.)
  unfoldable pub gen_salt : Bytes → Result Slice
  gen_salt content =
      let h = P.sha256 content in
      if ltb (length h) salt_len
      then err hash_too_short
      else ok (record { elements = take salt_len h; spare = drop salt_len h })

  -- `checkHeader` on the contents of the two files.
  unfoldable pub check_header : Bytes → Bytes → Result (Unit {0})
  check_header content encrypted = elim (gen_salt content) [
    | err e ↦ err e
    | ok salt ↦
        let header = take salt_len encrypted in
        if length header == 0
        then err eof
        else if length header == salt_len
        then if bytes_eq header salt.elements then ok tt else err salt_differs
        else err count_differs
  ]

  module _ {S : Type 0} (inner : ReadSeeker S) where
    -- The `Encryptor` is its `CryptoStreamReader`: `Read`, `Seek` and the hashes are passed on.
    encryptor_made : Made S → Result (CryptoStreamReader S)
    encryptor_made (made r) = ok r
    encryptor_made (refused e) = err e

    unfoldable pub new_encryptor : S → Bytes → Slice → Bool → Result (CryptoStreamReader S)
    unfolding encryptor_made
    new_encryptor r key iv has_header = elim (new_cipher_stream key iv.elements) [
      | err e ↦ err e
      | ok stream ↦ encryptor_made (
          new_crypto_stream_reader inner r
            (if has_header then iv else record { elements = []; spare = [] }) (some stream))
    ]

  module _ {W : Type 0} (inner_write : W → Bytes → WriteResult W) where
    -- The `Decryptor` is its `CryptoStreamWriter`.
    unfoldable pub new_decryptor : W → Bytes → Bytes → Result (CryptoStreamWriter W)
    new_decryptor w key iv = elim (new_cipher_stream key iv) [
      | err e ↦ err e
      | ok stream ↦ ok (record { f = w; stream = stream })
    ]

    abbrev pub new_master_decryptor : W → Bytes → MasterDecryptor W
    new_master_decryptor w key = record { master_key = key; writer = w; decryptor = none }

    -- The write goes to the decryptor, and `header` more bytes are reported.
    master_passed :
        MasterDecryptor W → ℕ → WriteResult (CryptoStreamWriter W) → WriteResult (MasterDecryptor W)
    master_passed md header r = record {
      state = record md { decryptor = some r.state };
      written = r.written + header;
      error = r.error;
    }

    -- The first write begins with the nonce.
    master_first :
        MasterDecryptor W → Bytes → Result (CryptoStreamWriter W) → WriteResult (MasterDecryptor W)
    master_first md p (err e) = record { state = md; written = 0; error = some e }
    master_first md p (ok d) =
        master_passed md block_size (CryptoStream.write inner_write d (drop block_size p))

    unfoldable pub master_write : MasterDecryptor W → Bytes → WriteResult (MasterDecryptor W)
    unfolding master_passed master_first
    master_write md p = elim md.decryptor [
      | some d ↦ master_passed md 0 (CryptoStream.write inner_write d p)
      | none ↦
          let iv = take block_size p in
          if ltb (length p) block_size
          then record { state = md; written = 0; error = some buffer_too_short }
          else master_first md p
              (new_decryptor md.writer (derive_key_from_master_key md.master_key iv) iv)
    ]

-- The loops of `io.Copy` have a buffer of 32 KB.
abbrev pub copy_buffer : ℕ
copy_buffer = 32 * 1024

module _ (P : Primitives) {S : Type 0} (inner : ReadSeeker S) {W : Type 0}
    (inner_write : W → Bytes → WriteResult W) (fuel : ℕ) where
  encrypted_copy : Option (CopiedInto (CryptoStreamReader S) W) → Option (Encrypted W)
  encrypted_copy none = none
  encrypted_copy (some c) = some (record {
    dst = c.writer;
    hash = elim c.error [
      | some e ↦ err e
      | none ↦ ok (CryptoStream.get_hash_encrypt P.sha256 c.reader)
    ];
  })

  encrypt_with : S → W → Result (CryptoStreamReader S) → Option (Encrypted W)
  encrypt_with src dst (err e) = some (record { dst = dst; hash = err e })
  encrypt_with src dst (ok en) =
      encrypted_copy (copy_into inner_write (CryptoStream.read inner) copy_buffer fuel en dst)

  -- `encryptLocalFile`; `none` if the fuel of the copy runs out.
  unfoldable pub encrypt_local_file : S → W → Bytes → Slice → Bool → Option (Encrypted W)
  unfolding encrypt_with encrypted_copy
  encrypt_local_file src dst master_key iv has_header = encrypt_with src dst (
      new_encryptor P inner src (derive_key_from_master_key P master_key iv.elements) iv has_header)

  -- What `decryptLocalFile` and `restoreGdriveFile` do with a stream that begins with the nonce: the
  -- writer they leave, and the error.
  decrypted_copy : Option (CopiedInto S (CryptoStreamWriter W)) → Option (Decrypted W)
  decrypted_copy none = none
  decrypted_copy (some c) = some (record { dst = c.writer.f; error = c.error })

  decrypt_with : S → W → Result (CryptoStreamWriter W) → Option (Decrypted W)
  decrypt_with src dst (err e) = some (record { dst = dst; error = some e })
  decrypt_with src dst (ok d) =
      decrypted_copy (copy_into (CryptoStream.write inner_write) inner.read copy_buffer fuel src d)

  decrypt_after_nonce : Bytes → W → Option (ReadResult S) → Option (Decrypted W)
  decrypt_after_nonce master_key dst none = none
  decrypt_after_nonce master_key dst (some r) = elim r.error [
    | some e ↦ some (record { dst = dst; error = some e })
    | none ↦
        decrypt_with r.state dst (
          new_decryptor P inner_write dst (derive_key_from_master_key P master_key r.bytes) r.bytes)
  ]

  unfoldable pub decrypt_stream : S → W → Bytes → Option (Decrypted W)
  unfolding decrypt_after_nonce decrypt_with decrypted_copy
  decrypt_stream src dst master_key =
      decrypt_after_nonce master_key dst (read_full inner.read block_size fuel src [])
