-- ===== src/Upload/Encrypted/Whole.antt =====
-- `uploadEncryptParts` gives the client the encrypted image.
use lomo_backup.Common.{ℕ, ◌+◌, ◌<◌, ◌^◌, ◌≡◌, false, Option, none, some, List, ◌++◌, Bytes, length}
use lomo_backup.Types.{PartInfo}
use lomo_backup.Io.{Result}
use lomo_backup.Io.CryptoStream.{Slice}
use lomo_backup.Crypto.{Primitives, IsLawful, block_size, derive_key_from_master_key}
use lomo_backup.Crypto.Encrypt.{file_key}
use lomo_backup.Upload.Raw.{is_uploaded}
use lomo_backup.Upload.Encrypted.{Given, EncryptUpload}
use lomo_backup.Upload.Encrypted.Sent.{Covers}

abbrev pub IsFresh : PartInfo → Type 0
IsFresh p = is_uploaded p.status ≡ false

module _ (P : Primitives) (L : IsLawful P) (content : Bytes) (small : length content + 16 < 2 ^ 63)
    (master_key : Bytes) (salt : Slice) (block : length salt.elements ≡ block_size) (fuel : ℕ)
    (enough : length content < fuel) (base64 : Bytes → Bytes) (unbase64 : Bytes → Result Bytes)
    (upload : Given → Result Bytes) (place : ℕ) where
  abbrev derived : Bytes
  derived = derive_key_from_master_key P master_key salt.elements

  abbrev key : ℕ → ℕ
  key = file_key P master_key salt.elements

  -- The loop ends without an error, and has given the client the text.
  abbrev Sends : List Given → List PartInfo → Bytes → Option EncryptUpload → Type 0
  Sends before ps text result =
      (st : EncryptUpload) × (gs : List Given) × (result ≡ some st)
      × (st.stopped ≡ none)
      × (st.sent ≡ before ++ gs)
      × Covers P base64 gs ps text
