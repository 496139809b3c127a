-- ===== src/Upload/Encrypted/Sent.antt =====
-- What `uploadEncryptParts` gives to the client.
use lomo_backup.Common.{
  ℕ, ◌+◌, ◌≡◌, refl, ap, ◌∙◌, false, Option, none, some, List, [], ◌∷◌, ◌++◌, Bytes, length, map,
  All,
}
use lomo_backup.Common.Int.{ℤ}
use lomo_backup.Types.{PartInfo}
use lomo_backup.Io.{Result, ok, err, Accepts}
use lomo_backup.Io.File.{File, opened, file_write}
use lomo_backup.Io.File.Write.{IsWritten, file_write-Accepts}
use lomo_backup.Io.MultiWriter.{multi_write, HoldsBoth}
use lomo_backup.Io.CryptoStream.{Slice}
use lomo_backup.Crypto.{Primitives}
use lomo_backup.Crypto.Parts.{Encryptor, PartWritten, encrypt_part}
use lomo_backup.Hash.{concat}
use lomo_backup.Upload.Raw.{is_uploaded}
use lomo_backup.Upload.Encrypted.{
  Given, EncryptUpload, hash_write, sized, answered, part_encrypted, upload_part,
}

-- The bytes that are given to the client for some parts.
unfoldable pub total : List PartInfo → ℕ
total [] = 0
total (p ∷ ps) = (sized p ps).size + total ps

abbrev pub IsText : Bytes → Bytes → Type 0
IsText text out = text ≡ out

pub hash_write-Accepts : Accepts hash_write IsText
hash_write-Accepts = record {
  takes = λ w out b h. refl;
  succeeds = λ w out b h. refl;
  appends = λ w out b h. ap (λ t. t ++ b) h;
}

module _ (P : Primitives) (base64 : Bytes → Bytes) where
  -- The client gets as many bytes as it is told, and their encoded hash.
  pub record IsGiven (g : Given) : Type 0 where
    pub sized_right : length g.body ≡ g.size
    pub hashed_right : g.hash ≡ base64 (P.sha256 g.body)

  -- Each part is given once, in order, and together they are the text.
  pub record Covers (gs : List Given) (ps : List PartInfo) (text : Bytes) : Type 0 where
    pub numbers : map (λ g. g.number) gs ≡ map (λ p. p.part_no) ps
    pub whole : concat (map (λ g. g.body) gs) ≡ text
    pub each : All IsGiven gs

  module _ (unbase64 : Bytes → Result Bytes) (upload : Given → Result Bytes) (src : File) (fuel : ℕ)
      (k : Bytes) (salt : Slice) where
    abbrev pub given_piece : PartInfo → Bytes → Given
    given_piece p piece = record {
      number = p.part_no;
      size = p.size;
      body = piece;
      hash = base64 (P.sha256 piece);
    }

    -- What a round leaves, whatever the client answers.
    pub record After (g : Given) (en : Encryptor) (st st' : EncryptUpload) : Type 0 where
      pub encryptor_is : st'.encryptor ≡ some en
      pub goes_on : st'.stopped ≡ st.stopped
      pub one_more : st'.sent ≡ st.sent ++ g ∷ []

    answered-After :
        (p : PartInfo) (g : Given) (h : Bytes) (en : Encryptor) (st : EncryptUpload)
        (answer : Result Bytes)
        → After g en st
            (answered P fuel k salt base64 unbase64 upload src p g h (some en) st answer)
    unfolding answered
    answered-After p g h en st (err e) = record {
      encryptor_is = refl;
      goes_on = refl;
      one_more = refl;
    }
    answered-After p g h en st (ok etag) = record {
      encryptor_is = refl;
      goes_on = refl;
      one_more = refl;
    }

    abbrev pub encrypt_at : ℤ → ℤ → Option Encryptor → Option (PartWritten (Bytes × File))
    encrypt_at start end en =
        encrypt_part P fuel k salt (multi_write hash_write file_write) src start end en
          ([], opened [] 0)

    pub upload_part-After :
        (next : EncryptUpload → Option EncryptUpload) (p : PartInfo) (start end : ℤ)
        (st : EncryptUpload) (o : Option Encryptor) (piece : Bytes) (en : Encryptor)
        → is_uploaded p.status ≡ false
        → st.encryptor ≡ o
        → encrypt_at start end o
          ≡ some (record {
            encryptor = some en;
            writer = (piece, opened piece (length piece));
            error = none;
          })
        → (st' : EncryptUpload) × (upload_part P fuel k salt base64 unbase64 upload src next p start
              end st
            ≡ next st')
          × After (given_piece p piece) en st st'
    unfolding upload_part part_encrypted
    upload_part-After next p start end st o piece en fresh is done = (
      answered P fuel k salt base64 unbase64 upload src p (given_piece p piece) (P.sha256 piece)
          (some en) st (upload (given_piece p piece)),
      rw fresh (
          ap
            (λ x.
              part_encrypted P fuel k salt base64 unbase64 upload src next p st
                (encrypt_at start end x))
            is
          ∙ ap (part_encrypted P fuel k salt base64 unbase64 upload src next p st) done),
      answered-After p (given_piece p piece) (P.sha256 piece) en st (upload (given_piece p piece)),
    )

abbrev pub HoldsPart : Bytes × File → Bytes → Type 0
HoldsPart =
    HoldsBoth hash_write file_write IsText IsWritten hash_write-Accepts file_write-Accepts []

pub holds_lem :
    {r : Encryptor} (w : Bytes × File) (piece : Bytes) (o : Option (PartWritten (Bytes × File)))
    → HoldsPart w ([] ++ piece)
    → o ≡ some (record { encryptor = some r; writer = w; error = none })
    → o
      ≡ some (record {
        encryptor = some r;
        writer = (piece, opened piece (length piece));
        error = none;
      })
holds_lem {r} (text, tmp) piece o (h, k) e =
    e
    ∙ ap (λ x. some (record { encryptor = some r; writer = (x, tmp); error = none })) h
    ∙ ap (λ x. some (record { encryptor = some r; writer = (piece, x); error = none })) k
