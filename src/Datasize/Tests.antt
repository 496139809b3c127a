-- ===== src/Datasize/Tests.antt =====
-- Runs of common/datasize/datasize.go, and its theorems at concrete sizes.
use lomo_backup.Common.{◌≡◌, refl, [], codes, arith, Bytes, ℕ}
use lomo_backup.Datasize.{
  Parsed, decimal, string, parse, finish, scale, scale_by, one_of, trim_space, to_lower, accepted,
  overflow, bits_error, syntax_error,
}
use lomo_backup.Datasize.Parse.{reference, parse-eq-reference}
use lomo_backup.Datasize.RoundTrip.{parse-string}

print : ℕ → Bytes
unfolding string decimal
print = string

read : Bytes → Parsed
unfolding parse finish scale scale_by one_of trim_space to_lower
read = parse

prints : print 5000000000 ≡ codes "5GB"
unfolding print
prints = refl

prints_odd : print 5000001 ≡ codes "5000001B"
unfolding print
prints_odd = refl

parses : read (codes "5 Giga") ≡ accepted 5000000000
unfolding read
parses = refl

parses_max : read (codes "18446744073709551615") ≡ accepted 18446744073709551615
unfolding read
parses_max = refl

overflows : read (codes "18446744073709551616") ≡ overflow
unfolding read
overflows = refl

no_bits : read (codes "5Mb") ≡ bits_error
unfolding read
no_bits = refl

no_number : read (codes "G") ≡ syntax_error
unfolding read
no_number = refl

-- The empty text is no syntax error.
empty : read [] ≡ accepted 0
unfolding read
empty = refl

parse-string_example : parse (string 5000001) ≡ accepted 5000001
parse-string_example = parse-string 5000001 (omega arith)

parse-eq-reference_example : parse (codes "20 EB") ≡ reference (codes "20 EB")
parse-eq-reference_example = parse-eq-reference (codes "20 EB")
