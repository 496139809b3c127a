-- ===== src/Datasize.antt =====
-- common/datasize/datasize.go: byte sizes with steps of 1000, their print `String` and their parser
-- `UnmarshalText`. A `ByteSize` is a number below 2^64; texts are ASCII, since `TrimSpace` and
-- `ToLower` are modelled on bytes below 128.
pub mod Decimal
pub mod Parse
pub mod RoundTrip
mod Tests
use lomo_backup.Common.{
  ℕ, zero, suc, ◌+◌, ◌-◌, ◌*◌, ◌/◌, ◌%◌, ◌^◌, Bool, true, false, ◌&&◌, ◌||◌, Option, none, some,
  List, [], ◌∷◌, ◌++◌, Bytes, codes, bytes_eq, ltb, leb, ◌==◌, if◌then◌else◌,
}

abbrev pub kb : ℕ
kb = 1000

abbrev pub mb : ℕ
mb = 1000000

abbrev pub gb : ℕ
gb = 1000000000

abbrev pub tb : ℕ
tb = 1000000000000

abbrev pub pb : ℕ
pb = 1000000000000000

abbrev pub eb : ℕ
eb = 1000000000000000000

abbrev pub max_uint64 : ℕ
max_uint64 = 2 ^ 64 - 1

abbrev pub cutoff : ℕ
cutoff = max_uint64 / 10

-- The digits of a positive number before `out`, as `%d` prints them; one round for each digit.
digits_onto : ℕ → ℕ → Bytes → Bytes
digits_onto zero n out = out
digits_onto (suc fuel) n out =
    let rest = digits_onto fuel (n / 10) ((b'0' + n % 10) ∷ out) in if n == 0 then out else rest

-- `fmt.Sprintf("%d", n)`. A number has at most as many digits as its value.
unfoldable pub decimal : ℕ → Bytes
unfolding digits_onto
decimal n = if n == 0 then b'0' ∷ [] else digits_onto n n []

-- `ByteSize.String`
unfoldable pub string : ℕ → Bytes
string b =
    if b == 0
    then codes "0B"
    else if b % eb == 0
    then decimal (b / eb) ++ codes "EB"
    else if b % pb == 0
    then decimal (b / pb) ++ codes "PB"
    else if b % tb == 0
    then decimal (b / tb) ++ codes "TB"
    else if b % gb == 0
    then decimal (b / gb) ++ codes "GB"
    else if b % mb == 0
    then decimal (b / mb) ++ codes "MB"
    else if b % kb == 0
    then decimal (b / kb) ++ codes "KB"
    else decimal b ++ codes "B"

-- `MarshalText`, which does not fail.
unfoldable pub marshal_text : ℕ → Bytes
unfolding string
marshal_text b = string b

-- The three labels that `UnmarshalText` jumps to.
pub data ParseError : Type 0 where
  range : ParseError
  syntax : ParseError
  bits : ParseError

-- The variable that `UnmarshalText` writes, and its error.
pub record Parsed : Type 0 where
  pub size : ℕ
  pub error : Option ParseError

abbrev pub accepted : ℕ → Parsed
accepted v = record { size = v; error = none }

abbrev pub overflow : Parsed
overflow = record { size = max_uint64; error = some range }

abbrev pub syntax_error : Parsed
syntax_error = record { size = 0; error = some syntax }

abbrev pub bits_error : Parsed
bits_error = record { size = 0; error = some bits }

abbrev pub is_digit : ℕ → Bool
is_digit c = leb b'0' c && leb c b'9'

-- `strings.TrimSpace` on ASCII text.
abbrev is_space : ℕ → Bool
is_space c = c == 32 || (leb 9 c && leb c 13)

trim_left : Bytes → Bytes
trim_left [] = []
trim_left (c ∷ s) = let rest = trim_left s in if is_space c then rest else c ∷ s

-- A space is dropped if only spaces follow it.
keep_last : ℕ → Bytes → Bytes
keep_last c [] = if is_space c then [] else c ∷ []
keep_last c (d ∷ t) = c ∷ d ∷ t

trim_right : Bytes → Bytes
unfolding keep_last
trim_right [] = []
trim_right (c ∷ s) = keep_last c (trim_right s)

unfoldable pub trim_space : Bytes → Bytes
unfolding trim_left trim_right
trim_space s = trim_left (trim_right s)

-- `strings.ToLower` on ASCII text.
unfoldable pub to_lower : Bytes → Bytes
to_lower [] = []
to_lower (c ∷ s) = (if leb b'A' c && leb c b'Z' then c + 32 else c) ∷ to_lower s

unfoldable pub one_of : Bytes → List Bytes → Bool
unfolding bytes_eq
one_of s [] = false
one_of s (t ∷ ts) = bytes_eq s t || one_of s ts

-- `if val > maxUint64/m { goto Overflow }; val *= m`
unfoldable pub scale_by : ℕ → ℕ → Parsed
scale_by val m = if ltb (max_uint64 / m) val then overflow else accepted ((val * m) % 2 ^ 64)

-- The second `switch unit`, on the unit in lower case.
unfoldable pub scale : ℕ → Bytes → Parsed
scale val unit =
    if one_of unit ([] ∷ codes "b" ∷ codes "byte" ∷ [])
    then accepted val
    else if one_of unit
        (codes "k" ∷ codes "kb" ∷ codes "kilo" ∷ codes "kilobyte" ∷ codes "kilobytes" ∷ [])
    then scale_by val kb
    else if one_of unit
        (codes "m" ∷ codes "mb" ∷ codes "mega" ∷ codes "megabyte" ∷ codes "megabytes" ∷ [])
    then scale_by val mb
    else if one_of unit
        (codes "g" ∷ codes "gb" ∷ codes "giga" ∷ codes "gigabyte" ∷ codes "gigabytes" ∷ [])
    then scale_by val gb
    else if one_of unit
        (codes "t" ∷ codes "tb" ∷ codes "tera" ∷ codes "terabyte" ∷ codes "terabytes" ∷ [])
    then scale_by val tb
    else if one_of unit
        (codes "p" ∷ codes "pb" ∷ codes "peta" ∷ codes "petabyte" ∷ codes "petabytes" ∷ [])
    then scale_by val pb
    else if one_of unit (codes "E" ∷ codes "EB" ∷ codes "e" ∷ codes "eb" ∷ codes "eB" ∷ [])
    then scale_by val eb
    else syntax_error

-- What follows the loop: `unit` is trimmed, and a unit of bits is refused.
unfoldable pub finish : ℕ → Bytes → Parsed
finish val rest =
    let unit = trim_space rest in
    if one_of unit
      (codes "Kb" ∷ codes "Mb" ∷ codes "Gb" ∷ codes "Tb" ∷ codes "Pb" ∷ codes "Eb" ∷ [])
    then bits_error
    else scale val (to_lower unit)

-- The loop `ParseLoop` over `t[i:]`; `first` is `i == 0`. The sums and products are those of uint64.
parse_loop : Bool → ℕ → Bytes → Parsed
parse_loop first val [] = finish val []
parse_loop first val (c ∷ t) =
    let val10 = (val * 10) % 2 ^ 64 in
    let sum = (val10 + (c - b'0')) % 2 ^ 64 in
    let rest = parse_loop false sum t in
    if is_digit c
    then if ltb cutoff val then overflow else if ltb sum val10 then overflow else rest
    else if first
    then syntax_error
    else finish val (c ∷ t)

-- `UnmarshalText`, and `Parse`, which calls it on a zero variable.
unfoldable pub unmarshal_text : Bytes → Parsed
unfolding parse_loop
unmarshal_text t = parse_loop true 0 t

unfoldable pub parse : Bytes → Parsed
unfolding unmarshal_text
parse t = unmarshal_text t

-- `ParseString`
unfoldable pub parse_string : Bytes → Parsed
unfolding parse
parse_string s = parse s

-- `MustParse` panics where `Parse` fails.
unfoldable pub must_parse : Bytes → Option ℕ
unfolding parse
must_parse t = let v = parse t in elim v.error [ none ↦ some v.size | some _ ↦ none ]
