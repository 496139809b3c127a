-- ===== src/Common/Text.antt =====
-- Text as bytes: a Go `string` or `[]byte` is the list of its bytes.
use Prim.Native.Nat.{ℕ}
use Prim.Native.Char.{code}
use Prim.Native.String.{String}
use mathlib.Core.Bool.{Bool, true, false, ◌&&◌}
use mathlib.Core.List.{List, [], ◌∷◌}
use mathlib.Core.Path.{◌≡◌, refl}
use native.Mathlib.Omega.{arith}
use lomo_backup.Common.Tests.{◌==◌}

abbrev pub Bytes : Type 0
Bytes = List ℕ

-- The code points of a literal, which are its bytes when the text is ASCII.
abbrev pub codes : String → Bytes
codes String.[] = []
codes (String.◌∷◌ c s) = code c ∷ codes s

-- `==` on Go strings.
unfoldable pub bytes_eq : Bytes → Bytes → Bool
bytes_eq [] [] = true
bytes_eq [] (_ ∷ _) = false
bytes_eq (_ ∷ _) [] = false
bytes_eq (a ∷ s) (b ∷ t) = (a == b) && bytes_eq s t

pub bytes_eq_refl : (s : Bytes) → bytes_eq s s ≡ true
unfolding bytes_eq
bytes_eq_refl [] = refl
bytes_eq_refl (a ∷ s) = ground (arith, bytes_eq_refl s)

pub bytes_eq_sound : (s t : Bytes) → bytes_eq s t ≡ true → s ≡ t
unfolding bytes_eq
bytes_eq_sound [] [] h = refl
bytes_eq_sound [] (_ ∷ _) h = ground arith
bytes_eq_sound (_ ∷ _) [] h = ground arith
bytes_eq_sound (a ∷ s) (b ∷ t) h = ground (arith, bytes_eq_sound s t)

pub bytes_eq_comm : (s t : Bytes) → bytes_eq s t ≡ bytes_eq t s
unfolding bytes_eq
bytes_eq_comm [] [] = refl
bytes_eq_comm [] (_ ∷ _) = refl
bytes_eq_comm (_ ∷ _) [] = refl
bytes_eq_comm (a ∷ s) (b ∷ t) = ground (arith, bytes_eq_comm s t)
