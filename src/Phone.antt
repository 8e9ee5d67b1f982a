-- ===== src/Phone.antt =====
-- src/passenger-auth/phone.util.ts: the canonical form of an Egyptian mobile number.
pub mod Canonical
use waleed_bus.Base.{
  ℕ, Bool, true, false, not, ◌&&◌, ◌||◌, List, [], ◌∷◌, Option, none, some, ◌==◌, if◌then◌else◌,
  length, is_some,
}
use waleed_bus.Base.Text.{Text, trim, is_space, is_digit, every}

-- A character of `[\s-]`.
abbrev pub is_filler : ℕ → Bool
is_filler c = is_space c || c == b'-'

-- `replace(/[\s-]+/g, '')`.
unfoldable pub compact : Text → Text
unfolding is_space
compact [] = []
compact (c ∷ t) = let rest = compact t in if is_filler c then rest else c ∷ rest

-- `+20…` and `0020…` become `0…`.
unfoldable pub to_local : Text → Text
to_local (a ∷ b ∷ c ∷ t) =
    if a == b'+' && b == b'2' && c == b'0'
    then b'0' ∷ t
    else if a == b'0' && b == b'0' && c == b'2'
    then elim t [ [] ↦ a ∷ b ∷ c ∷ [] | d ∷ u ↦ if d == b'0' then b'0' ∷ u else a ∷ b ∷ c ∷ d ∷ u ]
    else a ∷ b ∷ c ∷ t
to_local t = t

-- `/^01\d{9}$/`.
unfoldable pub is_canonical : Text → Bool
unfolding is_digit every
is_canonical (a ∷ b ∷ t) = a == b'0' && b == b'1' && length t == 9 && every is_digit t
is_canonical _ = false

unfoldable pub normalize_phone : Text → Option Text
unfolding trim compact to_local is_canonical
normalize_phone input =
    let canonical = to_local (compact (trim input)) in
    if is_canonical canonical then some canonical else none

unfoldable pub is_phone_like : Text → Bool
unfolding normalize_phone
is_phone_like input = is_some (normalize_phone input)
