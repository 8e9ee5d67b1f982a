-- ===== src/Tests/Catalogue.antt =====
-- The administration of promotions.
use waleed_bus.Base.{
  ℕ, ◌==◌, ◌≡◌, refl, subst, Bool, true, false, List, [], ◌∷◌, Option, some, none, inl, inr, Result,
  ok, is_ok-ok, if-eq, arith, find?, count,
}
use waleed_bus.Base.Text.{Text}
use waleed_bus.Schema.{Promotion, PromotionType, Db}
use waleed_bus.Promotions.Edit.{
  NewPromotion, PromotionChanges, create_promotion, update_promotion, has_promo_id, target_of,
}
use waleed_bus.Promotions.Catalog.{CatalogValid, Allowlisted}
use waleed_bus.Promotions.Kept.{create_promotion-CatalogValid}
use waleed_bus.Promotions.Changed.{update_promotion-CatalogValid}
use waleed_bus.Tests.Sample.{booked, promotion}

booked-CatalogValid : CatalogValid booked.promotions booked.targets
unfolding count find? waleed_bus.Promotions.Code.code_pattern waleed_bus.Base.Text.every
    waleed_bus.Promotions.Code.is_code_unit
booked-CatalogValid = (
  ((refl, refl, refl, refl), tt),
  (λ c. ground arith),
  λ i p found. elim (if-eq (5 == i) (some promotion) none found) [
    | inl (_, e) ↦ let same : promotion ≡ p = cc in subst (Allowlisted []) same (λ g. refl, λ t. cc)
    | inr (_, e) ↦ cc
  ],
)

-- "new-10", for passenger 7 alone.
abbrev targeted : NewPromotion
targeted = record {
  promo_code = b'n' ∷ b'e' ∷ b'w' ∷ b'-' ∷ b'1' ∷ b'0' ∷ [];
  kind = PromotionType.fixed;
  value = 10000;
  is_global = some false;
  target_user_ids = 7 ∷ 7 ∷ [];
  max_uses_per_user = none;
  max_total_uses = none;
  starts_at = some 1000;
  expires_at = some 2000;
}

abbrev creation : Result (Promotion × Db)
creation = create_promotion 6 300 1 targeted booked

created : (p : Promotion) × (db' : Db) × (creation ≡ ok (p, db'))
unfolding create_promotion waleed_bus.Promotions.Code.normalize_promo_code
    waleed_bus.Promotions.Edit.assert_targets_eligible waleed_bus.Promotions.Edit.distinct find?
    waleed_bus.Base.delete_many waleed_bus.Base.Text.text_eq waleed_bus.Base.Text.every
    waleed_bus.Base.Text.trim waleed_bus.Promotions.Code.to_upper_case
    waleed_bus.Promotions.Code.upper_unit waleed_bus.Promotions.Code.is_code_unit
created = is_ok-ok creation refl

create_promotion-CatalogValid_example : CatalogValid (created.1).promotions (created.1).targets
unfolding count find?
create_promotion-CatalogValid_example =
    create_promotion-CatalogValid 6 300 1 targeted booked created.0 created.1 refl refl
      (omega arith) created.2 booked-CatalogValid

-- A higher value, and a later end.
abbrev raise : PromotionChanges
raise = record {
  value = some 7000;
  max_uses_per_user = none;
  max_total_uses = some none;
  starts_at = none;
  expires_at = some (some 9000);
  is_active = none;
  target_user_ids = some [];
}

abbrev change : Result (Promotion × Db)
change = update_promotion 300 1 5 raise booked

changed : (p : Promotion) × (db' : Db) × (change ≡ ok (p, db'))
unfolding update_promotion find? waleed_bus.Promotions.Edit.distinct
changed = is_ok-ok change refl

update_promotion-CatalogValid_example : CatalogValid (changed.1).promotions (changed.1).targets
update_promotion-CatalogValid_example =
    update_promotion-CatalogValid 300 1 5 raise booked changed.0 changed.1 (omega arith) changed.2
      booked-CatalogValid
