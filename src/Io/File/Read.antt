-- ===== src/Io/File/Read.antt =====
-- An open file serves what stands behind its position.
use native.Mathlib.Decide.{dec_lt}
use lomo_backup.Common.{
  ℕ, ◌+◌, ◌<◌, ◌≤◌, ◌≡◌, refl, sym, ap, ◌∙◌, none, some, [], ◌++◌, Bytes, length, take, drop,
  length-take, length-drop, length-append, take-append_length, take-append-drop, drop_all,
  drop-length-take, drop-drop, arith,
}
use lomo_backup.Io.{eof, Served, at_end, given, Serves}
use lomo_backup.Io.File.{File, opened, file_read}

module _ (content : Bytes) (n : ℕ) (n_pos : 0 < n) where
  pub record IsReading (f : File) (rest : Bytes) : Type 0 where
    pub done : ℕ
    pub is_open : f ≡ opened content done
    pub left : rest ≡ drop done content

  reads_none :
      (p : ℕ)
      → length content ≤ p
      → file_read (opened content p) n
        ≡ record { state = opened content p; bytes = []; error = some eof }
  unfolding file_read
  reads_none p h = ground arith

  reads_some :
      (p : ℕ)
      → p < length content
      → file_read (opened content p) n ≡ record {
        state = opened content (p + length (take n (drop p content)));
        bytes = take n (drop p content);
        error = none;
      }
  unfolding file_read
  reads_some p h = ground arith

  read-Served : (p : ℕ) → Served IsReading n (drop p content) (file_read (opened content p) n)
  read-Served p = elim (dec_lt p (length content)) [
    | yes more ↦
        let len = length-take n (drop p content) in
        let len' = length-drop p content in
        let k = length (take n (drop p content)) in
        rw (reads_some p more) (
          given (λ z. omega (arith, ap length z)) (omega arith)
            (sym (take-append-drop n (drop p content))
              ∙ ap (λ t. take n (drop p content) ++ t)
                  (drop-length-take n (drop p content) ∙ drop-drop p k (p + k) content refl))
            (record { done = p + k; is_open = refl; left = refl }))
    | no over ↦
        rw (reads_none p (omega arith), drop_all p content (omega arith))
          (at_end refl
            (record { done = p; is_open = refl; left = sym (drop_all p content (omega arith)) }))
  ]

  pub file_read-Serves : Serves file_read n IsReading
  file_read-Serves f rest inv = rw (inv.is_open, inv.left) (read-Served inv.done)

-- The first read of an open file gives the start that fits the buffer.
pub file_read-start :
    (start rest : Bytes) (n : ℕ)
    → 0 < n
    → length start ≡ n
    → file_read (opened (start ++ rest) 0) n
      ≡ record { state = opened (start ++ rest) n; bytes = start; error = none }
file_read-start start rest n n_pos full =
    let there : 0 < length (start ++ rest) = omega (arith, length-append start rest) in
    let first : take n (start ++ rest) ≡ start = take-append_length start rest n full in
    reads_some (start ++ rest) n n_pos 0 there
    ∙ ap (λ b. record { state = opened (start ++ rest) (0 + length b); bytes = b; error = none })
        first
    ∙ ap (λ m. record { state = opened (start ++ rest) m; bytes = start; error = none })
        (omega (arith, full))
