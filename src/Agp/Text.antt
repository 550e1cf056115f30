-- ===== src/Agp/Text.antt =====
-- The texts of internal/agp: capabilities and slugs, with what the code uses of Go's strings. What
-- a platform gives is an argument: the case tables of Unicode, `strconv.ParseFloat` (`none`
-- is an error), the text of a float, and SHA-256 in hexadecimal.
use vtessera.Common.{
  ℕ, Bool, true, false, not, ◌&&◌, ◌||◌, Option, List, [], ◌∷◌, ltb, leb, ◌==◌, if◌then◌else◌,
  String, ℤ, pos, negsuc,
}
use Prim.Native.String.{◌++◌ as ◌+++◌}
use Prim.Native.Char.{Char, code}
use vtessera.Domain.{trim_space}

-- A float64: a whole multiple of 2 ^ -1074 where it is finite.
pub data Float64 : Type 0 where
  finite : ℤ → Float64
  negative_zero pos_inf neg_inf nan : Float64

pub record Platform : Type 0 where
  pub lower : Char → Char
  pub folds : Char → Char → Bool
  pub parse_float : String → Option Float64
  pub format_float : Float64 → String
  pub sha256_hex : String → String

unfoldable pub int_lt : ℤ → ℤ → Bool
int_lt (pos m) (pos n) = ltb m n
int_lt (pos m) (negsuc n) = false
int_lt (negsuc m) (pos n) = true
int_lt (negsuc m) (negsuc n) = ltb n m

-- The number of a finite float.
unfoldable pub float_value : Float64 → ℤ
float_value (finite z) = z
float_value negative_zero = pos 0
float_value pos_inf = pos 0
float_value neg_inf = pos 0
float_value nan = pos 0

-- Infinities from below and above: 0, 1, 2.
unfoldable pub float_class : Float64 → ℕ
float_class (finite z) = 1
float_class negative_zero = 1
float_class pos_inf = 2
float_class neg_inf = 0
float_class nan = 1

unfoldable pub is_nan : Float64 → Bool
is_nan nan = true
is_nan (finite z) = false
is_nan negative_zero = false
is_nan pos_inf = false
is_nan neg_inf = false

unfoldable pub float_lt : Float64 → Float64 → Bool
unfolding int_lt float_value float_class is_nan
float_lt a b =
    not (is_nan a)
    && not (is_nan b)
    && (ltb (float_class a) (float_class b)
        || (float_class a == float_class b && int_lt (float_value a) (float_value b)))

unfoldable pub float_eq : Float64 → Float64 → Bool
unfolding float_lt is_nan
float_eq a b = not (is_nan a) && not (is_nan b) && not (float_lt a b) && not (float_lt b a)

-- `strings.Split` at a character.
unfoldable pub split : Char → String → List String
split sep String.[] = "" ∷ []
split sep (String.◌∷◌ c s) = elim (split sep s) [
  | [] ↦ []
  | part ∷ parts ↦ if code c == code sep then "" ∷ part ∷ parts else String.◌∷◌ c part ∷ parts
]

unfoldable pub contains : Char → String → Bool
contains x String.[] = false
contains x (String.◌∷◌ c s) = code c == code x || contains x s

unfoldable pub join : String → List String → String
join sep [] = ""
join sep (s ∷ []) = s
join sep (s ∷ t ∷ rest) = s +++ (sep +++ join sep (t ∷ rest))

abbrev pub is_upper : ℕ → Bool
is_upper c = leb 65 c && leb c 90

-- a-z and 0-9
abbrev pub is_plain : ℕ → Bool
is_plain c = (leb 97 c && leb c 122) || (leb 48 c && leb c 57)

module _ (env : Platform) where
  unfoldable pub to_lower : String → String
  to_lower String.[] = ""
  to_lower (String.◌∷◌ c s) = String.◌∷◌ (env.lower c) (to_lower s)

  unfoldable pub normalize_capability : String → String
  unfolding to_lower
  normalize_capability capability = to_lower (trim_space capability)

  -- `strings.EqualFold`
  unfoldable pub equal_fold : String → String → Bool
  equal_fold String.[] String.[] = true
  equal_fold String.[] (String.◌∷◌ d t) = false
  equal_fold (String.◌∷◌ c s) String.[] = false
  equal_fold (String.◌∷◌ c s) (String.◌∷◌ d t) =
      (code c == code d || env.folds c d) && equal_fold s t
