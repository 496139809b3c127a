-- ===== src/Hash/Tests.antt =====
-- Runs of common/hash/hash.go, and its theorem at a concrete file.
use lomo_backup.Common.{ℕ, ◌≡◌, refl, some, Bytes, List, [], ◌∷◌, codes, length, map, arith, Option}
use lomo_backup.Common.Int.{add64, sub64}
use lomo_backup.Io.{Result, ok}
use lomo_backup.Io.Copy.{copy}
use lomo_backup.Io.File.{opened, file_read, file_seek}
use lomo_backup.Io.PartReader.{read}
use lomo_backup.Hash.{calculate_multi_parts_hash, length_of_part, concat}
use lomo_backup.Hash.Parts.{pieces, calculate_multi_parts_hash_lem}

-- With the text itself for its hash.
run : ℕ → Option (Result (List Bytes))
unfolding calculate_multi_parts_hash length_of_part copy read file_read file_seek add64 sub64
run part_size =
    calculate_multi_parts_hash (λ b. b) 2 20 (opened (codes "hello world") 4) 11 part_size 20

in_threes : run 3 ≡ some (ok (codes "hel" ∷ codes "lo " ∷ codes "wor" ∷ codes "ld" ∷ []))
unfolding run
in_threes = refl

calculate_multi_parts_hash_lem_example :
    (calculate_multi_parts_hash
        (λ b. b)
        2
        20
        (opened (codes "hello world") 4)
        (length (codes "hello world"))
        3
        20
      ≡ some (ok (map (λ b. b) (pieces 3 (codes "hello world")))))
    × (concat (pieces 3 (codes "hello world")) ≡ codes "hello world")
calculate_multi_parts_hash_lem_example =
    calculate_multi_parts_hash_lem (λ b. b) (codes "hello world") (omega arith) 2 (omega arith) 3
      (omega arith) 20 (omega arith) 4 20 (omega arith) (omega arith)
