-- ===== src/Set/Scale.antt =====
-- Scales. The source keeps a scale in a `double`; every scale is a product of the factors 0.5 and 2,
-- so it is 0, infinity or a power of two. The model keeps the exponent plus 1075: `k` from 1 to 2098
-- stands for 2 ^ (k - 1075), 0 for zero and 2099 for infinity, and products saturate where those of
-- IEEE-754 doubles do (2 ^ -1075 rounds to zero). Zero times infinity is not modelled: the second
-- factor is one of the constants or the scale of a declared composite.
use gemstone.Prelude.{
  ℕ, ◌+◌, ◌-◌, ◌^◌, String, Bool, ◌||◌, Option, none, some, ◌==◌, ltb, str_eq, if◌then◌else◌,
}
use gemstone.Set.Types.{Scale, Sign, unsigned, signed, PrimitiveType, int, float}

abbrev pub quarter : Scale
quarter = 1073

abbrev pub half : Scale
half = 1074

abbrev pub one : Scale
one = 1075

abbrev pub two : Scale
two = 1076

abbrev pub eight : Scale
eight = 1078

abbrev pub infinity : Scale
infinity = 2099

unfoldable pub mul_scale : Scale → Scale → Scale
mul_scale a b =
    if a == 0 || b == 0
    then 0
    else if a == infinity || b == infinity
    then infinity
    else if ltb infinity (a + b - one)
    then infinity
    else a + b - one

-- `sign_from_string`, `primitive_from_string` and `scale_factor_from`; `none` is the error status.
unfoldable pub sign_from_string : String → Option Sign
sign_from_string string =
    if str_eq string "unsigned"
    then some unsigned
    else if str_eq string "signed"
    then some signed
    else none

unfoldable pub primitive_from_string : String → Option PrimitiveType
primitive_from_string string =
    if str_eq string "int" then some int else if str_eq string "float" then some float else none

unfoldable pub scale_factor_from : String → Option Scale
scale_factor_from string =
    if str_eq string "half" || str_eq string "short"
    then some half
    else if str_eq string "double" || str_eq string "long"
    then some two
    else none

-- `(int) (scale * BASE_BYTES)`, for scales below 2 ^ 29.
unfoldable pub int_scale : Scale → ℕ
int_scale scale = if ltb scale quarter then 0 else 2 ^ (scale - quarter)

-- `isScaleEqual`.
unfoldable pub is_scale_equal : Scale → Scale → Bool
is_scale_equal left right = int_scale left == int_scale right
