-- ===== src/Money.antt =====
-- internal/money/money.go: amounts as canonical decimal strings, and their exact conversion to and
-- from base units. An amount keeps the bytes of its string; an error keeps its sentinel and drops
-- the message around it. `Cmp` returns an `Ordering` for -1, 0 and 1.
pub mod Digits
pub mod Canonical
pub mod BaseUnits
pub mod Zero
pub mod Compare
pub mod RoundTrip
mod Tests
use vtessera.Common.{
  ℕ, ◌+◌, ◌-◌, max, Bool, true, false, not, ◌&&◌, ◌||◌, Option, none, some, List, [], ◌∷◌, ◌++◌,
  Ordering, ltb, leb, ◌==◌, if◌then◌else◌, length, is_empty, take, drop, replicate, all, Result, ok,
  err, ◌>>=◌, ◌>>◌, reject_if, ℤ, pos, negsuc,
}
use vtessera.Bytes.{
  Bytes, has_prefix, contains_any, cut, trim_left, trim, compare_bytes, is_digit, parse_uint,
  format_uint,
}

abbrev pub max_fraction_digits : ℕ
max_fraction_digits = 9

abbrev pub max_integer_digits : ℕ
max_integer_digits = 19

pub data MoneyError : Type 0 where
  overflow too_precise negative non_canonical not_a_string_value bad_scale : MoneyError

pub record Amount : Type 0 where
  pub value : Bytes

unfoldable pub all_digits : Bytes → Bool
all_digits s = all is_digit s

-- What `Parse` asks of the part behind the point.
unfoldable pub check_fraction : Bool → Bytes → Result MoneyError (Unit {0})
unfolding all_digits
check_fraction false fraction = ok tt
check_fraction true fraction = do
  reject_if (length fraction == 0 || ltb max_fraction_digits (length fraction)) non_canonical
  reject_if (not (all_digits fraction)) non_canonical

unfoldable pub parse : Bytes → Result MoneyError Amount
unfolding has_prefix all_digits check_fraction
parse s = do
  reject_if (is_empty s) non_canonical
  reject_if (has_prefix b'-' s) negative
  reject_if (has_prefix b'+' s || contains_any b'e' b'E' s) non_canonical
  let (integer, fraction, has_fraction) = cut b'.' s
  reject_if (is_empty integer || ltb max_integer_digits (length integer)) non_canonical
  reject_if (ltb 1 (length integer) && has_prefix b'0' integer) non_canonical
  reject_if (not (all_digits integer)) non_canonical
  check_fraction has_fraction fraction
  ok (record { value = s })

unfoldable pub string : Amount → Bytes
string a = a.value

abbrev pub is_zero_byte : ℕ → Bool
is_zero_byte c = c == b'0' || c == b'.'

unfoldable pub is_zero : Amount → Bool
unfolding trim
is_zero a = is_empty (trim is_zero_byte a.value)

unfoldable pub align : Bytes → Bytes → ℕ → ℕ → Bytes
align integer fraction width scale =
    replicate (width - length integer) b'0'
    ++ (integer ++ (fraction ++ replicate (scale - length fraction) b'0'))

unfoldable pub cmp : Amount → Amount → Ordering
cmp a b =
    let (ai, af, _) = cut b'.' a.value in
    let (bi, bf, _) = cut b'.' b.value in
    let scale = max (length af) (length bf) in
    let width = max (length ai) (length bi) in
    compare_bytes (align ai af width scale) (align bi bf width scale)

-- The end of `BaseUnits`, once leading zeros are gone.
unfoldable pub units_of_digits : Bytes → Result MoneyError ℕ
units_of_digits digits =
    if is_empty digits
    then ok 0
    else elim (parse_uint digits) [ none ↦ err overflow | some units ↦ ok units ]

unfoldable pub base_units : Amount → ℤ → Result MoneyError ℕ
base_units a (negsuc n) = err non_canonical
base_units a (pos decimals) = do
  reject_if (ltb max_fraction_digits decimals) non_canonical
  let (integer, fraction, _) = cut b'.' a.value
  reject_if (ltb decimals (length fraction)) too_precise
  let digits = integer ++ (fraction ++ replicate (decimals - length fraction) b'0')
  units_of_digits (trim_left (λ c. c == b'0') digits)

-- `digits`, made longer than `decimals` by zeros in front.
unfoldable pub pad_digits : Bytes → ℕ → Bytes
pad_digits digits decimals =
    if leb (length digits) decimals
    then replicate (decimals - length digits + 1) b'0' ++ digits
    else digits

unfoldable pub new_from_base_units : ℕ → ℤ → Result MoneyError Amount
new_from_base_units units (negsuc n) = err bad_scale
new_from_base_units units (pos decimals) = do
  reject_if (decimals == 0 || ltb max_fraction_digits decimals) bad_scale
  let digits = format_uint units
  reject_if (ltb (max_integer_digits + decimals) (length digits)) overflow
  let padded = pad_digits digits decimals
  let whole = length padded - decimals
  ok (record { value = take whole padded ++ (b'.' ∷ drop whole padded) })

-- The zero value of the type, which no `Parse` returns.
abbrev pub no_amount : Amount
no_amount = record { value = [] }

-- `UnmarshalJSON`, from what `encoding/json` makes of the bytes: `none` is a value that is no
-- string.
unfoldable pub unmarshal_json : Option Bytes → Result MoneyError Amount
unfolding parse
unmarshal_json none = err not_a_string_value
unmarshal_json (some s) = parse s
