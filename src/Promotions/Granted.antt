-- ===== src/Promotions/Granted.antt =====
-- What a promotion has passed through when it is applied to a price.
use waleed_bus.Base.{
  ℕ, ◌%◌, ◌≤◌, ◌≡◌, refl, sym, ap, ◌∙◌, Bool, false, not, ◌&&◌, Option, some, none, ◌⊎◌, inl, inr,
  arith, Result, ok, err, >>=-eq-ok, refuse_if-eq-ok, if-eq, ok_eq, leb, count, find?-holds,
  promo_exhausted, promo_already_used,
}
use waleed_bus.Base.Members.{find?-Mem}
use waleed_bus.Base.Text.{Text, text_eq_iff}
use mathlib.Core.List.{Memᴰ}
use waleed_bus.Schema.{Promotion, PromotionType, Db}
use waleed_bus.Promotions.Code.{normalize_promo_code}
use waleed_bus.Promotions.Discount.{
  to_piastre, compute_promo_discount, promo_window_status, WindowStatus, valid, inactive,
  not_started, expired,
}
use waleed_bus.Promotions.Resolve.{
  PromoApplyStatus, applied, not_targeted, outside, unknown, PromoResolution, no_promo, uses,
  uses_by, is_exhausted, is_targeted, apply_promo, by_window, promo_by_code, resolve_found,
  resolve_row, resolve_named, resolve_in_tx,
}

module _ (once : Bool) (db : Db) (user gross : ℕ) where
  -- The promotion may be used by the caller: it is open to them and has uses left.
  pub record IsUsable (promo : Promotion) : Type 0 where
    pub targeted : not promo.is_global && not (is_targeted db promo user) ≡ false
    pub left : is_exhausted promo.max_total_uses (count (uses promo.id) db.usages) ≡ false
    pub left_for_user :
        once && leb promo.max_uses_per_user (count (uses_by promo.id user) db.usages) ≡ false

  -- The resolution is that of a usable promotion.
  pub record Grants (promo : Promotion) (r : PromoResolution) : Type 0 where
    pub usable : IsUsable promo
    pub status : r.status ≡ applied
    pub identified : r.promotion_id ≡ some promo.id
    pub coded_as : r.promo_code ≡ some promo.promo_code
    pub priced : compute_promo_discount promo.kind promo.value gross ≡ ok r.discount_amount

  -- The resolution gives nothing.
  pub record Declines (r : PromoResolution) : Type 0 where
    pub status : (r.status ≡ applied) → ⊥
    pub unidentified : r.promotion_id ≡ none
    pub free : r.discount_amount ≡ 0

  no_promo-Declines :
      (s : PromoApplyStatus) (r : PromoResolution)
      → ((s ≡ applied) → ⊥)
      → no_promo s ≡ r
      → Declines r
  no_promo-Declines s r ne e = record {
    status = λ k. ne (ap (λ (x : PromoResolution). x.status) e ∙ k);
    unidentified = sym (ap (λ (x : PromoResolution). x.promotion_id) e);
    free = sym (ap (λ (x : PromoResolution). x.discount_amount) e);
  }

  apply_promo-Grants :
      (promo : Promotion) (r : PromoResolution)
      → apply_promo once db promo user gross ≡ ok r
      → Declines r ⊎ Grants promo r
  unfolding apply_promo
  apply_promo-Grants promo r h =
      elim (if-eq (not promo.is_global && not (is_targeted db promo user)) _ _ h) [
        | inl (_, e) ↦ inl (no_promo-Declines not_targeted r (λ k. cc) (ok_eq e))
        | inr (targeted, h1) ↦
            let (e2, h2) =
              refuse_if-eq-ok (is_exhausted promo.max_total_uses (count (uses promo.id) db.usages))
                422 promo_exhausted _ h1 in
            let (e3, h3) =
              refuse_if-eq-ok
                (once && leb promo.max_uses_per_user (count (uses_by promo.id user) db.usages)) 422
                promo_already_used _ h2 in
            let (discount, e4, h4) =
              >>=-eq-ok (compute_promo_discount promo.kind promo.value gross) _ h3 in
            inr (record {
              usable = record { targeted = targeted; left = e2; left_for_user = e3 };
              status = sym (ap (λ (x : PromoResolution). x.status) (ok_eq h4));
              identified = sym (ap (λ (x : PromoResolution). x.promotion_id) (ok_eq h4));
              coded_as = sym (ap (λ (x : PromoResolution). x.promo_code) (ok_eq h4));
              priced = e4 ∙ ap (λ (x : PromoResolution). ok x.discount_amount) (ok_eq h4);
            })
      ]

  by_window-ok :
      (w : WindowStatus) (m : Result PromoResolution) (r : PromoResolution)
      → by_window w m ≡ ok r
      → Declines r ⊎ ((w ≡ valid) × (m ≡ ok r))
  by_window-ok valid m r h = inr (refl, h)
  by_window-ok inactive m r h = inl (no_promo-Declines (outside inactive) r (λ k. cc) (ok_eq h))
  by_window-ok not_started m r h =
      inl (no_promo-Declines (outside not_started) r (λ k. cc) (ok_eq h))
  by_window-ok expired m r h = inl (no_promo-Declines (outside expired) r (λ k. cc) (ok_eq h))

  -- The promotion that a code names, which is in force and usable.
  pub record Granted (raw : Text) (now : ℕ) (r : PromoResolution) : Type 0 where
    pub promo : Promotion
    pub listed : Memᴰ promo db.promotions
    pub named : normalize_promo_code raw ≡ ok promo.promo_code
    pub in_force : promo_window_status promo.is_active promo.starts_at promo.expires_at now ≡ valid
    pub grants : Grants promo r

  module _ (raw : Text) (now : ℕ) (r : PromoResolution) where
    resolve_found-Granted :
        (c : Text) (promo : Promotion)
        → normalize_promo_code raw ≡ ok c
        → promo_by_code db c ≡ some promo
        → resolve_found once db promo user gross now ≡ ok r
        → Declines r ⊎ Granted raw now r
    unfolding resolve_found
    resolve_found-Granted c promo named found h =
        let window = promo_window_status promo.is_active promo.starts_at promo.expires_at now in
        elim (by_window-ok window (apply_promo once db promo user gross) r h) [
          | inl d ↦ inl d
          | inr (in_force, h1) ↦ elim (apply_promo-Grants promo r h1) [
            | inl d ↦ inl d
            | inr g ↦
                let same =
                  (text_eq_iff promo.promo_code c).0 (find?-holds _ db.promotions promo found) in
                inr (record {
                  promo = promo;
                  listed = find?-Mem _ db.promotions promo found;
                  named = named ∙ ap (λ t. ok t) (sym same);
                  in_force = in_force;
                  grants = g;
                })
          ]
        ]

    resolve_row-Granted :
        (c : Text) (o : Option Promotion)
        → normalize_promo_code raw ≡ ok c
        → promo_by_code db c ≡ o
        → resolve_row once db user gross now o ≡ ok r
        → Declines r ⊎ Granted raw now r
    resolve_row-Granted c none named found h = inl (no_promo-Declines unknown r (λ k. cc) (ok_eq h))
    resolve_row-Granted c (some promo) named found h = resolve_found-Granted c promo named found h

    resolve_named-Granted :
        (n : Result Text)
        → normalize_promo_code raw ≡ n
        → resolve_named once db user gross now n ≡ ok r
        → Declines r ⊎ Granted raw now r
    resolve_named-Granted (err e) named h = inl (no_promo-Declines unknown r (λ k. cc) (ok_eq h))
    resolve_named-Granted (ok c) named h = resolve_row-Granted c (promo_by_code db c) named refl h

    -- A code either gives nothing, or what a promotion grants.
    pub resolve-Granted :
        resolve_in_tx once db raw user gross now ≡ ok r → Declines r ⊎ Granted raw now r
    unfolding resolve_in_tx
    resolve-Granted h = resolve_named-Granted (normalize_promo_code raw) refl h

-- A discount is at most the price, and is in whole piastres if the price is.
pub discount-le :
    (kind : PromotionType) (value gross d : ℕ)
    → compute_promo_discount kind value gross ≡ ok d
    → d ≤ gross
unfolding compute_promo_discount to_piastre
discount-le PromotionType.fixed value gross d h = ground arith
discount-le PromotionType.other value gross d h = cc

pub discount-piastre :
    (kind : PromotionType) (value gross d : ℕ)
    → compute_promo_discount kind value gross ≡ ok d
    → gross % 10 ≡ 0
    → d % 10 ≡ 0
unfolding compute_promo_discount to_piastre
discount-piastre PromotionType.fixed value gross d h whole = ground arith
discount-piastre PromotionType.other value gross d h whole = cc
