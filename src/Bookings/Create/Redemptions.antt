-- ===== src/Bookings/Create/Redemptions.antt =====
-- Reservations and the caps of the promotions.
use waleed_bus.Base.{
  ℕ, ◌*◌, ◌≤◌, ◌≡◌, refl, sym, ap, ◌∙◌, subst, Bool, true, false, ◌&&◌, List, [], ◌∷◌, ◌++◌, some,
  none, inl, inr, arith, ok, leb, ◌==◌, Bool-cases, ==_iff, count, count-append,
}
use mathlib.Core.List.{Memᴰ}
use waleed_bus.Schema.{Promotion, PromotionUsage, Db}
use waleed_bus.Promotions.Resolve.{applied, uses, uses_by, is_exhausted, record_usage}
use waleed_bus.Bookings.Create.Input.{CreatePassengerBooking}
use waleed_bus.Bookings.Create.Commit.{
  Price, CreatedBooking, booking_row, insert_booking, redeem, create_passenger_booking,
}
use waleed_bus.Bookings.Create.Inversion.{Created, create-Created}
use waleed_bus.Bookings.Create.Charge.{IsReduced, price_of-Charged}

-- The identifier of a promotion is its primary key.
abbrev pub KeyedById : Db → Type 0
KeyedById db = (p q : Promotion) → Memᴰ p db.promotions → Memᴰ q db.promotions → p.id ≡ q.id → p ≡ q

-- No promotion is used more often than it allows.
abbrev pub WithinTotalCaps : Db → Type 0
WithinTotalCaps db =
    (p : Promotion) (cap : ℕ)
    → Memᴰ p db.promotions
    → p.max_total_uses ≡ some cap
    → count (uses p.id) db.usages ≤ cap

-- No account uses a promotion more often than it allows for one account.
abbrev pub WithinUserCaps : Db → Type 0
WithinUserCaps db =
    (p : Promotion) (user : ℕ)
    → Memᴰ p db.promotions
    → count (uses_by p.id user) db.usages ≤ p.max_uses_per_user

redeem-full :
    (price : Price) (actor fresh : ℕ) (db : Db)
    → price.promotion_id ≡ none
    → redeem price actor fresh db ≡ db
unfolding redeem
redeem-full price actor fresh db h = rw h refl

-- The usage that a reservation with this promotion records.
abbrev usage_of : ℕ → ℕ → ℕ → Price → PromotionUsage
usage_of p actor fresh price = record {
  promotion_id = p;
  user_id = actor;
  booking_id = fresh;
  discount_amount = price.discount_amount;
}

redeem-usages :
    (price : Price) (actor fresh : ℕ) (db : Db) (p : ℕ)
    → price.promotion_id ≡ some p
    → price.promo_status ≡ some applied
    → redeem price actor fresh db ≡ record_usage (usage_of p actor fresh price) db
unfolding redeem
redeem-usages price actor fresh db p h s = rw (h, s) refl

redeem-promotions :
    (price : Price) (actor fresh : ℕ) (db : Db)
    → (redeem price actor fresh db).promotions ≡ db.promotions
unfolding redeem record_usage
redeem-promotions price actor fresh db = ground arith

-- The caps with one more usage, where the promotion that is used had some left.
total-grows :
    (p q : Promotion) (cap : ℕ) (u : PromotionUsage) (us : List PromotionUsage)
    → (p.id ≡ q.id → p ≡ q)
    → u.promotion_id ≡ q.id
    → is_exhausted q.max_total_uses (count (uses q.id) us) ≡ false
    → p.max_total_uses ≡ some cap
    → count (uses p.id) us ≤ cap
    → count (uses p.id) (us ++ u ∷ []) ≤ cap
unfolding count
total-grows p q cap u us key of left capped le = elim (Bool-cases (u.promotion_id == p.id)) [
  | inr other ↦ ground (arith, count-append (uses p.id) us (u ∷ []))
  | inl same ↦
      let e = key (sym ((==_iff u.promotion_id p.id).0 same) ∙ of) in
      let room : is_exhausted p.max_total_uses (count (uses p.id) us) ≡ false =
        subst (λ (x : Promotion). is_exhausted x.max_total_uses (count (uses x.id) us) ≡ false)
          (sym e) left in
      ground (arith, count-append (uses p.id) us (u ∷ []))
]

user-grows :
    (p q : Promotion) (user actor : ℕ) (u : PromotionUsage) (us : List PromotionUsage)
    → (p.id ≡ q.id → p ≡ q)
    → u.promotion_id ≡ q.id
    → u.user_id ≡ actor
    → true && leb q.max_uses_per_user (count (uses_by q.id actor) us) ≡ false
    → count (uses_by p.id user) us ≤ p.max_uses_per_user
    → count (uses_by p.id user) (us ++ u ∷ []) ≤ p.max_uses_per_user
unfolding count
user-grows p q user actor u us key of by left le = elim (Bool-cases (uses_by p.id user u)) [
  | inr other ↦ ground (arith, count-append (uses_by p.id user) us (u ∷ []))
  | inl same ↦
      let at : u.promotion_id ≡ p.id = ground arith in
      let who : actor ≡ user = ground arith in
      let e = key (sym at ∙ of) in
      let room : leb p.max_uses_per_user (count (uses_by p.id user) us) ≡ false =
        subst (λ (x : Promotion). leb x.max_uses_per_user (count (uses_by x.id user) us) ≡ false)
          (sym e)
          (subst (λ a. leb q.max_uses_per_user (count (uses_by q.id a) us) ≡ false) who left) in
      ground (arith, count-append (uses_by p.id user) us (u ∷ []))
]

module _ (once : Bool) (fresh now actor : ℕ) (input : CreatePassengerBooking) (db : Db) where
  -- The table of usages after a reservation: as before, or with one use of a granted promotion.
  pub data Redeemed (us : List PromotionUsage) : Type 0 where
    unused : us ≡ db.usages → Redeemed us
    used :
        (total : ℕ) (red : (p : Price) × IsReduced once db actor total now p) (u : PromotionUsage)
        → u.promotion_id ≡ (red.1).granted.promo.id
        → u.user_id ≡ actor
        → us ≡ db.usages ++ u ∷ []
        → Redeemed us

  Created-Redeemed :
      (r : CreatedBooking) (db' : Db)
      → Created once fresh now actor input db r db'
      → Redeemed db'.usages
  unfolding record_usage
  Created-Redeemed r db' c =
      let row = booking_row fresh now actor c.trip c.who c.price input in
      let with_row = insert_booking row db in
      let total = (c.trip).fare * input.seat_count in
      let charged = price_of-Charged once db actor total now input.promo_code c.price c.priced in
      let written = ap (λ (d : Db). d.usages) c.state in
      elim charged.way [
        | inl f ↦ Redeemed.unused (
            written
            ∙ ap (λ (d : Db). d.usages) (redeem-full c.price actor fresh with_row f.unidentified))
        | inr g ↦
            let promo = g.granted.promo in
            let grants = g.granted.grants in
            Redeemed.used total (c.price, g) (usage_of promo.id actor fresh c.price) refl refl
              (written
                ∙ ap (λ (d : Db). d.usages)
                    (redeem-usages c.price actor fresh with_row promo.id
                      (g.identified ∙ grants.identified)
                      (g.status ∙ ap (λ s. some s) grants.status)))
      ]

  Created-promotions :
      (r : CreatedBooking) (db' : Db)
      → Created once fresh now actor input db r db'
      → db'.promotions ≡ db.promotions
  Created-promotions r db' c =
      let row = booking_row fresh now actor c.trip c.who c.price input in
      ap (λ (d : Db). d.promotions) c.state
      ∙ redeem-promotions c.price actor fresh (insert_booking row db)

  -- A reservation never uses a promotion, whose identifier is a key, beyond its total cap.
  pub create-WithinTotalCaps :
      (r : CreatedBooking) (db' : Db)
      → create_passenger_booking once fresh now actor input db ≡ ok (r, db')
      → KeyedById db
      → WithinTotalCaps db
      → WithinTotalCaps db'
  create-WithinTotalCaps r db' h keyed caps p cap m capped =
      let c = create-Created once fresh now actor input db r db' h in
      let n = subst (λ ps. Memᴰ p ps) (Created-promotions r db' c) m in
      elim (Created-Redeemed r db' c) [
        | Redeemed.unused e ↦ rw e (caps p cap n capped)
        | Redeemed.used total (price, g) u of by e ↦
            let promo = g.granted.promo in
            rw e (
              total-grows p promo cap u db.usages (keyed p promo n g.granted.listed) of
                g.granted.grants.usable.left capped (caps p cap n capped))
      ]

-- Where uses per account are enforced, a reservation never uses a promotion, whose identifier is a
-- key, for an account beyond its cap for one account.
pub create-WithinUserCaps :
    (fresh now actor : ℕ) (input : CreatePassengerBooking) (db : Db) (r : CreatedBooking) (db' : Db)
    → create_passenger_booking true fresh now actor input db ≡ ok (r, db')
    → KeyedById db
    → WithinUserCaps db
    → WithinUserCaps db'
create-WithinUserCaps fresh now actor input db r db' h keyed caps p user m =
    let c = create-Created true fresh now actor input db r db' h in
    let n = subst (λ ps. Memᴰ p ps) (Created-promotions true fresh now actor input db r db' c) m in
    elim (Created-Redeemed true fresh now actor input db r db' c) [
      | Redeemed.unused e ↦ rw e (caps p user n)
      | Redeemed.used total (price, g) u of by e ↦
          let promo = g.granted.promo in
          rw e (
            user-grows p promo user actor u db.usages (keyed p promo n g.granted.listed) of by
              g.granted.grants.usable.left_for_user (caps p user n))
    ]
