-- ===== src/Bookings/Create/Charge.antt =====
-- What a new booking costs: the fare of its seats, less the discount of its promotion.
use waleed_bus.Base.{
  ℕ, ◌+◌, ◌%◌, ◌≡◌, refl, subst, Bool, Option, some, none, ◌⊎◌, inl, inr, arith, ok, >>=-eq-ok,
  ok_eq,
}
use waleed_bus.Base.Text.{Text}
use waleed_bus.Schema.{Db}
use waleed_bus.Promotions.Discount.{to_piastre}
use waleed_bus.Promotions.Resolve.{PromoResolution, resolve_in_tx}
use waleed_bus.Promotions.Granted.{
  Granted, Declines, resolve-Granted, discount-le, discount-piastre,
}
use waleed_bus.Bookings.Create.Commit.{
  Price, price_with, code_given, price_by, price_of, payable_amount,
}

module _ (once : Bool) (db : Db) (actor total now : ℕ) where
  -- The price without a promotion.
  pub record IsFull (p : Price) : Type 0 where
    pub unidentified : p.promotion_id ≡ none
    pub free : p.discount_amount ≡ 0

  -- The price with the promotion that a code names.
  pub record IsReduced (p : Price) : Type 0 where
    pub raw : Text
    pub resolution : PromoResolution
    pub granted : Granted once db actor total raw now resolution
    pub identified : p.promotion_id ≡ resolution.promotion_id
    pub discounted : p.discount_amount ≡ resolution.discount_amount
    pub status : p.promo_status ≡ some resolution.status

  pub record Charged (p : Price) : Type 0 where
    pub before : p.total ≡ total
    pub way : IsFull p ⊎ IsReduced p

  price_with-Charged :
      (raw : Text) (r : PromoResolution)
      → Declines once db actor total r ⊎ Granted once db actor total raw now r
      → Charged (price_with total r)
  price_with-Charged raw r (inl d) = record {
    before = refl;
    way = inl (record { unidentified = d.unidentified; free = d.free });
  }
  price_with-Charged raw r (inr g) = record {
    before = refl;
    way = inr (record {
      raw = raw;
      resolution = r;
      granted = g;
      identified = refl;
      discounted = refl;
      status = refl;
    });
  }

  price_by-Charged :
      (code : Option Text) (p : Price) → price_by once db actor total now code ≡ ok p → Charged p
  price_by-Charged none p h =
      subst Charged (ok_eq h)
        (record { before = refl; way = inl (record { unidentified = refl; free = refl }) })
  price_by-Charged (some raw) p h =
      let (r, e, h1) = >>=-eq-ok (resolve_in_tx once db raw actor total now) _ h in
      subst Charged (ok_eq h1)
        (price_with-Charged raw r (resolve-Granted once db actor total raw now r e))

  pub price_of-Charged :
      (code : Option Text) (p : Price) → price_of once db code actor total now ≡ ok p → Charged p
  unfolding price_of
  price_of-Charged code p h = price_by-Charged (code_given code) p h

  -- In whole piastres, what is paid and the discount make up the price.
  pub Charged-payable :
      (p : Price) → Charged p → total % 10 ≡ 0 → payable_amount p + p.discount_amount ≡ total
  unfolding payable_amount to_piastre
  Charged-payable p c whole = elim c.way [
    | inl f ↦ omega (arith, c.before, f.free)
    | inr g ↦
        let promo = g.granted.promo in
        let priced = g.granted.grants.priced in
        let le = discount-le promo.kind promo.value total g.resolution.discount_amount priced in
        let tens =
          discount-piastre promo.kind promo.value total g.resolution.discount_amount priced whole in
        omega (arith, c.before, g.discounted, le, tens, whole)
  ]
