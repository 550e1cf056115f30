-- ===== src/Agp/Policy.antt =====
-- The policies of internal/agp/agp.go: what a route announces against what an intent asks for. An
-- error keeps that there is one and drops its message.
use vtessera.Common.{
  Bool, true, false, not, ◌&&◌, ◌||◌, none, some, List, [], ◌∷◌, if◌then◌else◌, String, str_eq,
  Dict, lookup, Result, ok, err, ◌>>=◌, ◌>>◌, reject_if,
}
use Prim.Native.String.{compare, ◌++◌ as ◌+++◌}
use text.Mathlib.Text.{is_lt}
use vtessera.Store.Query.{order_by, collect}
use vtessera.Agp.Text.{Platform, Float64, float_lt, equal_fold, join}

-- What stands in a list of JSON; `printed` is any other value, as fmt prints it; no
-- policy holds a Go integer.
pub data Scalar : Type 0 where
  flag : Bool → Scalar
  words : String → Scalar
  number : Float64 → Scalar
  json_number : String → Scalar
  printed : String → Scalar

-- A value of type `any`: a scalar, a `[]string`, or an `[]any`.
pub data PolicyValue : Type 0 where
  scalar : Scalar → PolicyValue
  strings : List String → PolicyValue
  values : List Scalar → PolicyValue

pub data PolicyError : Type 0 where
  not_announced not_met wrong_type : PolicyError

unfoldable pub is_one_of : List String → String → Bool
is_one_of [] s = false
is_one_of (x ∷ xs) s = str_eq x s || is_one_of xs s

-- `strconv.ParseBool`
unfoldable pub parse_bool : String → Result PolicyError Bool
unfolding is_one_of
parse_bool s =
    if is_one_of ("1" ∷ "t" ∷ "T" ∷ "true" ∷ "TRUE" ∷ "True" ∷ []) s
    then ok true
    else if is_one_of ("0" ∷ "f" ∷ "F" ∷ "false" ∷ "FALSE" ∷ "False" ∷ []) s
    then ok false
    else err wrong_type

unfoldable pub to_bool : PolicyValue → Result PolicyError Bool
unfolding parse_bool
to_bool (scalar (flag b)) = ok b
to_bool (scalar (words s)) = parse_bool s
to_bool (scalar (number f)) = err wrong_type
to_bool (scalar (json_number s)) = err wrong_type
to_bool (scalar (printed s)) = err wrong_type
to_bool (strings ss) = err wrong_type
to_bool (values vs) = err wrong_type

-- `slices.Sorted(maps.Keys(m))`
unfoldable pub sorted_keys {ℓ} : {V : Type ℓ} → Dict V → List String
unfolding order_by collect
sorted_keys m = order_by (λ (s t : String). is_lt (compare s t)) (collect (λ e. e.0) m)

module _ (env : Platform) where
  -- `fmt.Sprint` of a scalar.
  unfoldable pub print_scalar : Scalar → String
  print_scalar (flag true) = "true"
  print_scalar (flag false) = "false"
  print_scalar (words s) = s
  print_scalar (number f) = env.format_float f
  print_scalar (json_number s) = s
  print_scalar (printed s) = s

  -- `normalizeValue`
  unfoldable pub normalize_scalar : Scalar → Scalar
  normalize_scalar (flag b) = flag b
  normalize_scalar (words s) = words s
  normalize_scalar (number f) = number f
  normalize_scalar (json_number s) = elim (env.parse_float s) [ none ↦ words s | some f ↦ number f ]
  normalize_scalar (printed s) = printed s

  -- `fmt.Sprint(normalizeValue(v))`
  unfoldable pub sprint_normalized : PolicyValue → String
  unfolding print_scalar normalize_scalar
  sprint_normalized (scalar s) = print_scalar (normalize_scalar s)
  sprint_normalized (strings ss) = "[" +++ (join " " ss +++ "]")
  sprint_normalized (values vs) = "[" +++ (join " " (collect print_scalar vs) +++ "]")

  -- `fmt.Sprint`
  unfoldable pub sprint : PolicyValue → String
  unfolding print_scalar
  sprint (scalar s) = print_scalar s
  sprint (strings ss) = "[" +++ (join " " ss +++ "]")
  sprint (values vs) = "[" +++ (join " " (collect print_scalar vs) +++ "]")

  unfoldable pub parse_number : String → Result PolicyError Float64
  parse_number s = elim (env.parse_float s) [ none ↦ err wrong_type | some f ↦ ok f ]

  unfoldable pub to_number : PolicyValue → Result PolicyError Float64
  unfolding parse_number
  to_number (scalar (flag b)) = err wrong_type
  to_number (scalar (words s)) = parse_number s
  to_number (scalar (number f)) = ok f
  to_number (scalar (json_number s)) = parse_number s
  to_number (scalar (printed s)) = err wrong_type
  to_number (strings ss) = err wrong_type
  to_number (values vs) = err wrong_type

  unfoldable pub to_string_list : PolicyValue → Result PolicyError (List String)
  unfolding print_scalar normalize_scalar collect
  to_string_list (scalar (flag b)) = err wrong_type
  to_string_list (scalar (words s)) = ok (s ∷ [])
  to_string_list (scalar (number f)) = err wrong_type
  to_string_list (scalar (json_number s)) = err wrong_type
  to_string_list (scalar (printed s)) = err wrong_type
  to_string_list (strings ss) = ok ss
  to_string_list (values vs) = ok (collect (λ v. print_scalar (normalize_scalar v)) vs)

  unfoldable pub folds_into : String → List String → Bool
  unfolding equal_fold
  folds_into w [] = false
  folds_into w (h ∷ hs) = equal_fold env w h || folds_into w hs

  unfoldable pub share_one : List String → List String → Bool
  unfolding folds_into
  share_one [] hs = false
  share_one (w ∷ ws) hs = folds_into w hs || share_one ws hs

  unfoldable pub match_any_of : PolicyValue → PolicyValue → Result PolicyError (Unit {0})
  unfolding to_string_list share_one
  match_any_of want have = do
    wants ← to_string_list want
    haves ← to_string_list have
    reject_if (not (share_one wants haves)) not_met

  unfoldable pub match_pii : PolicyValue → PolicyValue → Result PolicyError (Unit {0})
  unfolding to_bool
  match_pii want have = do
    want_bool ← to_bool want
    have_bool ← to_bool have
    reject_if (want_bool && not have_bool) not_met

  unfoldable pub match_level : PolicyValue → PolicyValue → Result PolicyError (Unit {0})
  unfolding to_number float_lt
  match_level want have = do
    want_number ← to_number want
    have_number ← to_number have
    reject_if (float_lt have_number want_number) not_met

  unfoldable pub match_policy : String → PolicyValue → PolicyValue → Result PolicyError (Unit {0})
  unfolding match_pii match_level match_any_of sprint_normalized
  match_policy key want have =
      if str_eq key "requires_pii"
      then match_pii want have
      else if str_eq key "security_level"
      then match_level want have
      else if str_eq key "settlement_modes" || str_eq key "currencies"
      then match_any_of want have
      else reject_if (not (str_eq (sprint_normalized want) (sprint_normalized have))) not_met

  -- One constraint of `checkPolicy`; a key of the constraints that has no value is nil in Go, and
  -- does not occur.
  unfoldable pub check_key :
      Dict PolicyValue → Dict PolicyValue → String → Result PolicyError (Unit {0})
  unfolding match_policy
  check_key announced constraints key = elim (lookup key constraints) [
    | none ↦ ok tt
    | some want ↦ elim (lookup key announced) [
      | none ↦ err not_announced
      | some have ↦ match_policy key want have
    ]
  ]

  unfoldable pub check_keys :
      Dict PolicyValue → Dict PolicyValue → List String → Result PolicyError (Unit {0})
  unfolding check_key
  check_keys announced constraints [] = ok tt
  check_keys announced constraints (key ∷ keys) = do
    check_key announced constraints key
    check_keys announced constraints keys

  -- `CheckPolicy`
  unfoldable pub check_policy : Dict PolicyValue → Dict PolicyValue → Result PolicyError (Unit {0})
  unfolding check_keys sorted_keys
  check_policy announced constraints = check_keys announced constraints (sorted_keys constraints)
