-- ===== src/Bytes.antt =====
-- Go strings that the code walks, as lists of bytes, with what it uses of `strings` and `strconv`.
pub mod Digits
use Prim.Native.Char.{code}
use vtessera.Common.{
  String, ◌++◌, ℕ, zero, suc, ◌+◌, ◌-◌, ◌*◌, ◌/◌, ◌%◌, ◌^◌, Bool, true, false, ◌&&◌, ◌||◌, Option,
  none, some, List, [], ◌∷◌, Ordering, compare, ltb, leb, ◌==◌, if◌then◌else◌, all, is_empty,
  length,
}

abbrev pub Bytes : Type 0
Bytes = List ℕ

-- `strings.HasPrefix` for a prefix of one byte.
unfoldable pub has_prefix : ℕ → Bytes → Bool
has_prefix c [] = false
has_prefix c (x ∷ xs) = x == c

-- `strings.ContainsAny` for two bytes.
unfoldable pub contains_any : ℕ → ℕ → Bytes → Bool
contains_any a b [] = false
contains_any a b (x ∷ xs) = (x == a || x == b) || contains_any a b xs

-- `strings.Cut` around the first byte `c`.
unfoldable pub cut : ℕ → Bytes → Bytes × Bytes × Bool
cut c [] = ([], [], false)
cut c (x ∷ xs) =
    let rest = cut c xs in if x == c then ([], xs, true) else (x ∷ rest.0, rest.1, rest.2)

-- `strings.TrimLeft`, `strings.TrimRight` and `strings.Trim`, for the bytes that pass a test.
unfoldable pub trim_left : (ℕ → Bool) → Bytes → Bytes
trim_left p [] = []
trim_left p (x ∷ xs) = let rest = trim_left p xs in if p x then rest else x ∷ xs

unfoldable pub trim_right : (ℕ → Bool) → Bytes → Bytes
trim_right p [] = []
trim_right p (x ∷ xs) = let rest = trim_right p xs in if p x && is_empty rest then [] else x ∷ rest

unfoldable pub trim : (ℕ → Bool) → Bytes → Bytes
unfolding trim_left trim_right
trim p s = trim_right p (trim_left p s)

-- Go's order on strings, byte by byte.
unfoldable pub compare_bytes : Bytes → Bytes → Ordering
compare_bytes [] [] = Ordering.eq
compare_bytes [] (y ∷ ys) = Ordering.lt
compare_bytes (x ∷ xs) [] = Ordering.gt
compare_bytes (x ∷ xs) (y ∷ ys) =
    let rest = compare_bytes xs ys in
    elim (compare x y) [
      | Ordering.lt ↦ Ordering.lt
      | Ordering.eq ↦ rest
      | Ordering.gt ↦ Ordering.gt
    ]

abbrev pub is_digit : ℕ → Bool
is_digit c = leb b'0' c && leb c b'9'

-- The number that a run of digits stands for, after those that made `acc`.
unfoldable pub from_digits : ℕ → Bytes → ℕ
from_digits acc [] = acc
from_digits acc (d ∷ ds) = from_digits (acc * 10 + (d - b'0')) ds

abbrev pub u64_mod : ℕ
u64_mod = 2 ^ 64

-- `strconv.ParseUint(s, 10, 64)`: an empty string, a byte that is no digit or a number out of
-- range is an error.
unfoldable pub parse_uint : Bytes → Option ℕ
unfolding from_digits
parse_uint [] = none
parse_uint (d ∷ ds) =
    if all is_digit (d ∷ ds)
    then if ltb (from_digits 0 (d ∷ ds)) u64_mod then some (from_digits 0 (d ∷ ds)) else none
    else none

-- The digits of `n` in front of `acc`; the fuel bounds their number.
unfoldable pub format_digits : ℕ → ℕ → Bytes → Bytes
format_digits zero n acc = acc
format_digits (suc f) n acc =
    let rest = format_digits f (n / 10) ((b'0' + n % 10) ∷ acc) in
    if ltb n 10 then (b'0' + n) ∷ acc else rest

-- `strconv.FormatUint(n, 10)`: a uint64 has at most twenty digits.
unfoldable pub format_uint : ℕ → Bytes
unfolding format_digits
format_uint n = format_digits 20 n []

-- The bytes of a Go string.
unfoldable pub utf8_char : ℕ → Bytes
utf8_char c =
    if ltb c 128
    then c ∷ []
    else if ltb c 2048
    then (192 + c / 64) ∷ (128 + c % 64) ∷ []
    else if ltb c 65536
    then (224 + c / 4096) ∷ (128 + c / 64 % 64) ∷ (128 + c % 64) ∷ []
    else (240 + c / 262144) ∷ (128 + c / 4096 % 64) ∷ (128 + c / 64 % 64) ∷ (128 + c % 64) ∷ []

unfoldable pub utf8 : String → Bytes
unfolding utf8_char
utf8 String.[] = []
utf8 (String.◌∷◌ c s) = utf8_char (code c) ++ utf8 s
