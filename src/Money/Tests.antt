-- ===== src/Money/Tests.antt =====
-- Runs of the money functions, and the theorems at concrete amounts.
use vtessera.Common.{
  ◌≡◌, ◌↔◌, refl, ok, err, [], ◌∷◌, pos, Ordering, ltb, if◌then◌else◌, length, arith,
}
use vtessera.Money.Digits.{IsDecimal, units_at, fraction_of}
use vtessera.Money.Canonical.{IsCanonical, parse-iff_IsCanonical}
use vtessera.Money.BaseUnits.{base_units-exact}
use vtessera.Money.RoundTrip.{base_units-new_from_base_units}
use vtessera.Bytes.{u64_mod, cut, contains_any, trim_left, parse_uint, format_uint, compare_bytes}
use vtessera.Money.{
  Amount, parse, base_units, new_from_base_units, cmp, align, pad_digits, units_of_digits, overflow,
  too_precise, non_canonical,
}

-- "12.50"
abbrev twelve_fifty : Amount
twelve_fifty = record { value = b'1' ∷ b'2' ∷ b'.' ∷ b'5' ∷ b'0' ∷ [] }

abbrev nine_dollars : Amount
nine_dollars = record { value = b'9' ∷ [] }

run_parse : parse (b'1' ∷ b'2' ∷ b'.' ∷ b'5' ∷ b'0' ∷ []) ≡ ok twelve_fifty
unfolding parse cut contains_any
run_parse = refl

run_parse_exponent : parse (b'1' ∷ b'e' ∷ b'5' ∷ []) ≡ err non_canonical
unfolding parse cut contains_any
run_parse_exponent = refl

run_base_units : base_units twelve_fifty (pos 6) ≡ ok 12500000
unfolding base_units cut trim_left units_of_digits parse_uint
run_base_units = refl

run_render : new_from_base_units 1250 (pos 2) ≡ ok twelve_fifty
unfolding new_from_base_units format_uint pad_digits
run_render = refl

run_cmp : cmp twelve_fifty nine_dollars ≡ Ordering.gt
unfolding cmp cut align compare_bytes
run_cmp = refl

twelve_fifty-IsDecimal : IsDecimal twelve_fifty
unfolding cut
twelve_fifty-IsDecimal = record { integer_digits = refl; fraction_digits = refl }

nine_dollars-IsDecimal : IsDecimal nine_dollars
unfolding cut
nine_dollars-IsDecimal = record { integer_digits = refl; fraction_digits = refl }

parse-iff_IsCanonical_example :
    (parse (b'9' ∷ []) ≡ ok nine_dollars)
    ↔ ((nine_dollars.value ≡ b'9' ∷ []) × IsCanonical (b'9' ∷ []))
parse-iff_IsCanonical_example = parse-iff_IsCanonical (b'9' ∷ []) nine_dollars

base_units-exact_example : base_units twelve_fifty (pos 6) ≡ (
    if ltb 9 6
    then err non_canonical
    else if ltb 6 (length (fraction_of twelve_fifty))
    then err too_precise
    else if ltb (units_at 6 twelve_fifty) u64_mod
    then ok (units_at 6 twelve_fifty)
    else err overflow)
base_units-exact_example = base_units-exact twelve_fifty 6 twelve_fifty-IsDecimal

base_units-new_from_base_units_example :
    (a : Amount) × (new_from_base_units 1250 (pos 2) ≡ ok a) × (base_units a (pos 2) ≡ ok 1250)
base_units-new_from_base_units_example =
    base_units-new_from_base_units 1250 2 (omega arith) (omega arith) (omega arith)
