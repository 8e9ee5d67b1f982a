-- ===== src/Promotions/Code.antt =====
-- src/promotions/promotion-math.ts: the normal form of a promo code.
use waleed_bus.Base.{
  ℕ, ◌-◌, Bool, ◌&&◌, ◌||◌, [], ◌∷◌, ◌++◌, ◌==◌, if◌then◌else◌, length, Result, ok, err, coded,
  invalid_promo_code,
}
use waleed_bus.Base.Text.{Text, within, trim, every}

-- `toUpperCase` of one code unit, exact wherever the result is made of ASCII characters; every
-- other unit stays outside ASCII, which is all that the pattern reads.
unfoldable pub upper_unit : ℕ → Text
upper_unit c =
    if within b'a' b'z' c
    then (c - 32) ∷ []
    else if c == 0xdf
    then b'S' ∷ b'S' ∷ []
    else if c == 0x131
    then b'I' ∷ []
    else if c == 0x17f
    then b'S' ∷ []
    else if c == 0xfb00
    then b'F' ∷ b'F' ∷ []
    else if c == 0xfb01
    then b'F' ∷ b'I' ∷ []
    else if c == 0xfb02
    then b'F' ∷ b'L' ∷ []
    else if c == 0xfb03
    then b'F' ∷ b'F' ∷ b'I' ∷ []
    else if c == 0xfb04
    then b'F' ∷ b'F' ∷ b'L' ∷ []
    else if within 0xfb05 0xfb06 c
    then b'S' ∷ b'T' ∷ []
    else c ∷ []

unfoldable pub to_upper_case : Text → Text
to_upper_case [] = []
to_upper_case (c ∷ t) = upper_unit c ++ to_upper_case t

-- The characters of `CODE_PATTERN`.
unfoldable pub is_code_unit : ℕ → Bool
is_code_unit c = within b'A' b'Z' c || within b'0' b'9' c || c == b'_' || c == b'-'

-- `CODE_PATTERN.test(code)`.
unfoldable pub code_pattern : Text → Bool
code_pattern t = every is_code_unit t && within 3 32 (length t)

unfoldable pub normalize_promo_code : Text → Result Text
unfolding code_pattern
normalize_promo_code raw =
    let promo_code = to_upper_case (trim raw) in
    if code_pattern promo_code then ok promo_code else err (coded 422 invalid_promo_code)
