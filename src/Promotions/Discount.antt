-- ===== src/Promotions/Discount.antt =====
-- src/promotions/promotion-math.ts: the fixed discount and the validity window of a promotion.
-- Money is in thousandths of a pound, and `to_piastre` is the rounding to two decimals.
use waleed_bus.Base.{
  ℕ, ◌+◌, ◌*◌, ◌/◌, min, Bool, false, not, Option, none, some, ◌==◌, leb, ltb, if◌then◌else◌,
  invalid_promo_value, coded, Result, ok, err,
}
use waleed_bus.Schema.{PromotionType}

-- `Math.round((x + Number.EPSILON) * 100) / 100`.
unfoldable pub to_piastre : ℕ → ℕ
to_piastre x = (x + 5) / 10 * 10

unfoldable pub compute_promo_discount : PromotionType → ℕ → ℕ → Result ℕ
unfolding to_piastre
compute_promo_discount PromotionType.fixed value gross =
    if value == 0 then err (coded 422 invalid_promo_value) else ok (min (to_piastre value) gross)
compute_promo_discount PromotionType.other value gross = err (coded 422 invalid_promo_value)

pub data WindowStatus : Type 0 where
  valid inactive not_started expired : WindowStatus

-- `startsAt && new Date(startsAt) > now`.
abbrev pub after : Option ℕ → ℕ → Bool
after none now = false
after (some at) now = ltb now at

-- `expiresAt && new Date(expiresAt) <= now`.
abbrev pub reached : Option ℕ → ℕ → Bool
reached none now = false
reached (some at) now = leb at now

unfoldable pub promo_window_status : Bool → Option ℕ → Option ℕ → ℕ → WindowStatus
promo_window_status is_active starts_at expires_at now =
    if not is_active
    then inactive
    else if after starts_at now
    then not_started
    else if reached expires_at now
    then expired
    else valid
