-- ===== src/Promotions/Resolve.antt =====
-- src/promotions/promotions.service.ts: a code at checkout, inside the transaction of the booking.
use waleed_bus.Base.{
  ℕ, Bool, false, not, ◌&&◌, Option, none, some, ◌++◌, [], ◌∷◌, ◌==◌, leb, if◌then◌else◌, is_none,
  find?, count, Result, ok, err, ◌>>=◌, ◌>>◌, refuse_if, promo_exhausted, promo_already_used,
}
use waleed_bus.Base.Text.{Text, text_eq}
use waleed_bus.Schema.{Promotion, PromotionUsage, Db}
use waleed_bus.Promotions.Code.{normalize_promo_code}
use waleed_bus.Promotions.Discount.{
  WindowStatus, valid, compute_promo_discount, promo_window_status,
}

pub data PromoApplyStatus : Type 0 where
  applied unknown not_targeted : PromoApplyStatus
  outside : WindowStatus → PromoApplyStatus

pub record PromoResolution : Type 0 where
  pub status : PromoApplyStatus
  pub promotion_id : Option ℕ
  pub promo_code : Option Text
  pub discount_amount : ℕ

abbrev pub no_promo : PromoApplyStatus → PromoResolution
no_promo s = record { status = s; promotion_id = none; promo_code = none; discount_amount = 0 }

abbrev pub uses : ℕ → PromotionUsage → Bool
uses p u = u.promotion_id == p

abbrev pub uses_by : ℕ → ℕ → PromotionUsage → Bool
uses_by p user u = u.promotion_id == p && u.user_id == user

-- `max_total_uses != null && used >= max_total_uses`.
abbrev pub is_exhausted : Option ℕ → ℕ → Bool
is_exhausted none used = false
is_exhausted (some cap) used = leb cap used

unfoldable pub is_targeted : Db → Promotion → ℕ → Bool
is_targeted db promo user =
    not (is_none (find? (λ t. t.promotion_id == promo.id && t.user_id == user) db.targets))

-- The checks after the window: the allowlist, the two caps, and the discount.
unfoldable pub apply_promo : Bool → Db → Promotion → ℕ → ℕ → Result PromoResolution
unfolding is_targeted
apply_promo enforce_once_per_user db promo user gross =
    if not promo.is_global && not (is_targeted db promo user)
    then ok (no_promo not_targeted)
    else do
      refuse_if (is_exhausted promo.max_total_uses (count (uses promo.id) db.usages)) 422
          promo_exhausted
      refuse_if
          (enforce_once_per_user
            && leb promo.max_uses_per_user (count (uses_by promo.id user) db.usages))
          422 promo_already_used
      discount ← compute_promo_discount promo.kind promo.value gross
      ok (record {
        status = applied;
        promotion_id = some promo.id;
        promo_code = some promo.promo_code;
        discount_amount = discount;
      })

abbrev pub by_window : WindowStatus → Result PromoResolution → Result PromoResolution
by_window valid r = r
by_window w r = ok (no_promo (outside w))

abbrev pub promo_by_code : Db → Text → Option Promotion
promo_by_code db c = find? (λ p. text_eq p.promo_code c) db.promotions

unfoldable pub resolve_found : Bool → Db → Promotion → ℕ → ℕ → ℕ → Result PromoResolution
unfolding apply_promo
resolve_found once db promo user gross now =
    by_window (promo_window_status promo.is_active promo.starts_at promo.expires_at now)
      (apply_promo once db promo user gross)

-- By the row of the code, and by the normal form of the code; neither need exist.
abbrev pub resolve_row : Bool → Db → ℕ → ℕ → ℕ → Option Promotion → Result PromoResolution
resolve_row once db user gross now none = ok (no_promo unknown)
resolve_row once db user gross now (some promo) = resolve_found once db promo user gross now

abbrev pub resolve_named : Bool → Db → ℕ → ℕ → ℕ → Result Text → Result PromoResolution
resolve_named once db user gross now (err e) = ok (no_promo unknown)
resolve_named once db user gross now (ok c) =
    resolve_row once db user gross now (promo_by_code db c)

unfoldable pub resolve_in_tx : Bool → Db → Text → ℕ → ℕ → ℕ → Result PromoResolution
unfolding resolve_found
resolve_in_tx once db raw user gross now =
    resolve_named once db user gross now (normalize_promo_code raw)

unfoldable pub record_usage : PromotionUsage → Db → Db
record_usage u db = record db { usages = db.usages ++ u ∷ [] }
