-- ===== src/Crypto/Tests.antt =====
-- Runs of common/crypto/crypto.go with toy primitives, and its theorems at a concrete file.
use lomo_backup.Common.{◌≡◌, refl, true, some, none, List, [], ◌++◌, Bytes, codes, length, arith}
use lomo_backup.Io.{ok}
use lomo_backup.Io.CryptoStream.{Slice}
use lomo_backup.Io.File.{File, opened, os_file, file_write}
use lomo_backup.Io.File.Write.{IsWritten, file_write-Accepts}
use lomo_backup.Crypto.Toy.{toy, toy-IsLawful}
use lomo_backup.Crypto.{encrypt_local_file, decrypt_stream}
use lomo_backup.Crypto.Encrypt.{encrypted, encrypt_local_file_lem}
use lomo_backup.Crypto.Decrypt.{decrypt-encrypted}
use lomo_backup.Common.Int.{pos}
use lomo_backup.Crypto.Parts.{encrypt_in_parts}
use lomo_backup.Crypto.Parts.Whole.{AreParts, encrypt_in_parts_lem}
use lomo_backup.Crypto.Parts.RoundTrip.{decrypt-encrypt_in_parts}
use lomo_backup.Crypto.RoundTrip.{decrypt-encrypt_local_file}

abbrev nonce : Slice
nonce = record { elements = codes "0123456789abcdef"; spare = [] }

encrypt_local_file_example :
    (dst' : File) × (encrypt_local_file toy os_file file_write 30
        (opened (codes "hi there") 3)
        (opened [] 0)
        (codes "key")
        nonce
        true
      ≡ some (record {
        dst = dst';
        hash = ok (toy.sha256 (encrypted toy (codes "key") nonce.elements (codes "hi there")));
      }))
    × IsWritten dst' ([] ++ encrypted toy (codes "key") nonce.elements (codes "hi there"))
encrypt_local_file_example =
    encrypt_local_file_lem toy toy-IsLawful (codes "hi there") (omega arith) file_write IsWritten
      file_write-Accepts (codes "key") nonce 3 30 (opened [] 0) [] refl (omega arith) refl

decrypt-encrypted_example :
    (dst' : File) × (decrypt_stream toy os_file file_write 30
        (opened (encrypted toy (codes "key") nonce.elements (codes "hi there")) 0)
        (opened [] 0)
        (codes "key")
      ≡ some (record { dst = dst'; error = none }))
    × IsWritten dst' ([] ++ codes "hi there")
decrypt-encrypted_example =
    decrypt-encrypted toy toy-IsLawful (codes "hi there") (ground arith) file_write IsWritten
      file_write-Accepts (codes "key") nonce.elements refl 30 (opened [] 0) [] (omega arith) refl

decrypt-encrypt_local_file_example :
    (out : File) × (encrypt_local_file toy os_file file_write 30
        (opened (codes "hi there") 3)
        (opened [] 0)
        (codes "key")
        nonce
        true
      ≡ some (record { dst = out; hash = ok (toy.sha256 out.content) }))
    × (decrypt_stream toy os_file file_write 30 (opened out.content 0) (opened [] 0) (codes "key")
        ≡ some (record { dst = opened (codes "hi there") 8; error = none }))
decrypt-encrypt_local_file_example =
    decrypt-encrypt_local_file toy toy-IsLawful (codes "hi there") (ground arith) (omega arith)
      (codes "key") nonce 3 30 refl (omega arith)

abbrev letters : Bytes
letters = codes "the quick brown fox jumps over the lazy dog"

encrypt_in_parts_lem_example :
    (dst' : File) × (parts : List File) × (encrypt_in_parts toy 50 file_write
        (λ i. ok (opened [] 0))
        (codes "key")
        nonce
        (pos 20)
        (opened letters 3)
        (pos (length letters))
        50
        (opened [] 0)
      ≡ some (record { dst = dst'; parts = parts; error = none }))
    × IsWritten dst' ([] ++ encrypted toy (codes "key") nonce.elements letters)
    × AreParts IsWritten 20 parts (encrypted toy (codes "key") nonce.elements letters)
encrypt_in_parts_lem_example =
    encrypt_in_parts_lem toy toy-IsLawful letters (omega arith) (codes "key") nonce refl file_write
      IsWritten file_write-Accepts (λ i. ok (opened [] 0)) (λ i. (opened [] 0, refl, refl)) 50
      (omega arith) 20 (omega arith) 3 50 [] (opened [] 0) (omega arith) (omega arith) refl

decrypt-encrypt_in_parts_example :
    (out : File) × (parts : List File) × (encrypt_in_parts toy 50 file_write
        (λ i. ok (opened [] 0))
        (codes "key")
        nonce
        (pos 20)
        (opened letters 3)
        (pos (length letters))
        50
        (opened [] 0)
      ≡ some (record { dst = out; parts = parts; error = none }))
    × AreParts IsWritten 20 parts out.content
    × (decrypt_stream toy os_file file_write 50 (opened out.content 0) (opened [] 0) (codes "key")
        ≡ some (record { dst = opened letters (length letters); error = none }))
decrypt-encrypt_in_parts_example =
    decrypt-encrypt_in_parts toy toy-IsLawful letters (ground arith) (omega arith) (omega arith)
      (codes "key") nonce 3 20 50 refl (omega arith) (omega arith)
