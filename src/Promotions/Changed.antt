-- ===== src/Promotions/Changed.antt =====
-- Every change of a promotion keeps the catalogue valid.
use waleed_bus.Base.{
  ℕ, ◌≤◌, ◌%◌, ◌≡◌, refl, ap, sym, subst, ◌∙◌, true, false, Option, none, some, inl, inr, List,
  ◌++◌, ◌==◌, ltb, find?, find?-holds, find?-update, find?-update_ne, AllRows-update, AllRows-find?,
  update, delete_many, count-append, arith, ok, ok_eq, >>=-eq-ok, require-eq-ok, refuse_if-eq-ok,
  Bool-cases,
}
use waleed_bus.Schema.{Promotion, PromotionTarget, Action, Db, log}
use waleed_bus.Promotions.Discount.{to_piastre}
use waleed_bus.Promotions.Code.{code_pattern}
use waleed_bus.Promotions.Edit.{
  PromotionChanges, or_default, is_empty, window_closed, target_rows, has_code, has_promo_id,
  target_of, notify_each, next_targets, replace_targets, changed_promotion, not_positive,
  stored_value, newly_added, save_promotion, update_promotion,
}
use waleed_bus.Promotions.Catalog.{
  PromoValid, Allowlisted, CatalogValid, notify_each-catalog, target_rows-count, delete_many-count,
  count-update_eq,
}
use waleed_bus.Promotions.Kept.{next_targets-filled}

module _ (dto : PromotionChanges) (i : ℕ) (ps : List Promotion) (ts : List PromotionTarget)
    (p : Promotion) where
  -- The allowlists after a replacement, if there is one.
  replaced : Option (List ℕ) → List PromotionTarget
  replaced none = ts
  replaced (some users) = delete_many (target_of i) ts ++ target_rows i users

  changed-allowlist :
      (o : Option (List ℕ))
      → p.id ≡ i
      → ((users : List ℕ) → o ≡ some users → (p.is_global ≡ false) × (is_empty users ≡ false))
      → Allowlisted ts p
      → Allowlisted (replaced o) (changed_promotion dto p)
  unfolding changed_promotion replaced
  changed-allowlist none e k old = old
  changed-allowlist (some users) e k old =
      let (scoped, some_user) = k users refl in
      let (_, many, _) = target_rows-count i users i in
      let total = count-append (target_of i) (delete_many (target_of i) ts) (target_rows i users) in
      (λ g. cc, λ t. rw e (omega (arith, total, many some_user)))

  other-allowlist :
      (o : Option (List ℕ)) (q : Promotion)
      → (i == q.id) ≡ false
      → Allowlisted ts q
      → Allowlisted (replaced o) q
  unfolding replaced
  other-allowlist none q differ old = old
  other-allowlist (some users) q differ (g, t) =
      let (nothing, _, _) = target_rows-count i users q.id in
      let (_, others) = delete_many-count i q.id ts in
      let total =
        count-append (target_of q.id) (delete_many (target_of i) ts) (target_rows i users) in
      (
        λ h. omega (arith, total, nothing differ, others differ, g h),
        λ h. omega (arith, total, nothing differ, others differ, t h),
      )

  changed-CatalogValid :
      (o : Option (List ℕ))
      → find? (has_promo_id i) ps ≡ some p
      → ((users : List ℕ) → o ≡ some users → (p.is_global ≡ false) × (is_empty users ≡ false))
      → PromoValid (changed_promotion dto p)
      → CatalogValid ps ts
      → CatalogValid (update (has_promo_id i) (changed_promotion dto) ps) (replaced o)
  unfolding changed_promotion
  changed-CatalogValid o found k good (valid, codes, lists) = (
    AllRows-update PromoValid (has_promo_id i) (changed_promotion dto) ps p found good valid,
    (λ c. omega (
      arith,
      codes c,
      count-update_eq (has_code c) (has_promo_id i) (changed_promotion dto) (λ a. refl) ps,
    )),
    λ j q at. elim (Bool-cases (j == i)) [
      | inl its ↦
          let same : j ≡ i = ground arith in
          let held : p.id ≡ i = ground (arith, find?-holds (has_promo_id i) ps p found) in
          let there =
            find?-update (has_promo_id i) (changed_promotion dto) ps p found
              (find?-holds (has_promo_id i) ps p found) in
          let at' =
            subst
              (λ x.
                find? (has_promo_id x) (update (has_promo_id i) (changed_promotion dto) ps)
                ≡ some q)
              same at in
          let e : changed_promotion dto p ≡ q = cc in
          subst (Allowlisted (replaced o)) e (changed-allowlist o held k (lists i p found))
      | inr other ↦
          let below : find? (has_promo_id j) ps ≡ some q =
            sym (
              find?-update_ne (has_promo_id i) (has_promo_id j) (changed_promotion dto) ps
                (λ a met. (ground arith, ground arith)))
            ∙ at in
          let held : q.id ≡ j = ground (arith, find?-holds (has_promo_id j) ps q below) in
          let differ : (i == q.id) ≡ false = ground arith in
          other-allowlist o q differ (lists j q below)
    ],
  )

-- A value that is given is half a piastre at least.
abbrev pub Rounds : Option ℕ → Type 0
Rounds none = Unit {0}
Rounds (some v) = 5 ≤ v

rounded :
    (o : Option ℕ) (v : ℕ)
    → Rounds o
    → (ltb 0 v ≡ true) × (v % 10 ≡ 0)
    → (ltb 0 (stored_value o v) ≡ true) × (stored_value o v % 10 ≡ 0)
unfolding to_piastre
rounded none v h k = k
rounded (some n) v h k = (ground arith, omega arith)

valid_change :
    (dto : PromotionChanges) (p : Promotion)
    → code_pattern p.promo_code ≡ true
    → (ltb 0 (stored_value dto.value p.value) ≡ true) × (stored_value dto.value p.value % 10 ≡ 0)
    → window_closed (or_default dto.starts_at p.starts_at) (or_default dto.expires_at p.expires_at)
      ≡ false
    → PromoValid (changed_promotion dto p)
unfolding changed_promotion
valid_change dto p c v w = (c, v.0, v.1, w)

replaced-eq :
    (i : ℕ) (dto : PromotionChanges) (db : Db) (p : Promotion) (o : Option (List ℕ))
    → ((replace_targets i o db).promotions ≡ db.promotions)
      × ((replace_targets i o db).targets ≡ replaced dto i db.promotions db.targets p o)
unfolding replaced
replaced-eq i dto db p none = (refl, refl)
replaced-eq i dto db p (some users) = (refl, refl)

-- A catalogue stays valid as a promotion is changed: codes are in normal form and distinct, values
-- are in whole piastres and above 0, windows open before they close, a global code has no allowlist
-- and every other code has a user on it, also after its allowlist has been replaced. A value that is
-- given must be half a piastre at least, for the column rounds a smaller one to 0.
pub update_promotion-CatalogValid :
    (notice actor i : ℕ) (dto : PromotionChanges) (db : Db) (p : Promotion) (db' : Db)
    → Rounds dto.value
    → update_promotion notice actor i dto db ≡ ok (p, db')
    → CatalogValid db.promotions db.targets
    → CatalogValid db'.promotions db'.targets
unfolding update_promotion
update_promotion-CatalogValid notice actor i dto db p db' rounds h catalog =
    let (old, found, h1) = require-eq-ok (find? (has_promo_id i) db.promotions) _ _ _ h in
    let (_, h2) = refuse_if-eq-ok (not_positive dto.value) _ _ _ h1 in
    let (o, next, h3) = >>=-eq-ok (next_targets db old.is_global dto.target_user_ids) _ h2 in
    let (opens, last) =
      refuse_if-eq-ok
        (window_closed (or_default dto.starts_at old.starts_at)
          (or_default dto.expires_at old.expires_at))
        _ _ _ h3 in
    let (c, v, w, _) =
      AllRows-find? PromoValid (has_promo_id i) db.promotions old found catalog.0 in
    let good : PromoValid (changed_promotion dto old) =
      valid_change dto old c (rounded dto.value old.value rounds (v, w)) opens in
    let done =
      changed-CatalogValid dto i db.promotions db.targets old o found
        (λ users e.
          next_targets-filled db old.is_global dto.target_user_ids users (rw (sym e) next))
        good catalog in
    let saved = save_promotion i dto (replace_targets i o db) in
    let written = log (some actor) Action.promotion_update (some i) saved in
    let (ps, ts) = notify_each-catalog notice i old.promo_code (newly_added db i o) written in
    let (kept_ps, kept_ts) = replaced-eq i dto db old o in
    let state : notify_each notice i old.promo_code (newly_added db i o) written ≡ db' =
      ap (λ (r : Promotion × Db). r.1) (ok_eq last) in
    let ps' =
      sym (ap (λ (d : Db). d.promotions) state)
      ∙ ps
      ∙ ap (λ rows. update (has_promo_id i) (changed_promotion dto) rows) kept_ps in
    let ts' = sym (ap (λ (d : Db). d.targets) state) ∙ ts ∙ kept_ts in
    subst (λ rows. CatalogValid rows db'.targets) (sym ps')
      (subst
        (λ rows. CatalogValid (update (has_promo_id i) (changed_promotion dto) db.promotions) rows)
        (sym ts') done)
