-- ===== src/Promotions/Kept.antt =====
-- Every creation and every change of a promotion keeps the catalogue valid.
use waleed_bus.Base.{
  ℕ, ◌%◌, ◌≤◌, ◌≡◌, refl, ap, sym, subst, ◌∙◌, Bool, true, false, not, Option, none, some, inl, inr,
  List, [], ◌∷◌, ◌++◌, ◌==◌, ltb, is_some, find?, find?-holds, find?-append, AllRows-append, count,
  count-append, arith, ok, err, ok_eq, if-eq, >>=-eq-ok, refuse_if-eq-ok, Bool-cases, coded,
  invalid_promo_targets,
}
use waleed_bus.Base.Unique.{find?-append_unmet, count-find?-none}
use waleed_bus.Base.Text.{Text, text_eq, text_eq_iff}
use waleed_bus.Schema.{Promotion, PromotionTarget, Action, Db, log}
use waleed_bus.Promotions.Discount.{to_piastre}
use waleed_bus.Promotions.Code.{normalize_promo_code}
use waleed_bus.Promotions.NormalForm.{normalize-normalize}
use waleed_bus.Promotions.Edit.{
  NewPromotion, or_default, distinct, is_empty, is_eligible, assert_targets_eligible, is_fixed,
  window_closed, targets_for, new_promotion, target_rows, has_code, has_promo_id, target_of,
  notify_each, insert_promotion, create_promotion, next_targets,
}
use waleed_bus.Promotions.Catalog.{
  PromoValid, Allowlisted, CatalogValid, notify_each-catalog, target_rows-count,
}

filled :
    (db : Db) (ids users : List ℕ)
    → assert_targets_eligible db ids ≡ ok users
    → is_empty users ≡ false
unfolding assert_targets_eligible
filled db ids users h =
    let (some_user, h1) = refuse_if-eq-ok (is_empty (distinct ids)) _ _ _ h in
    let (_, last) =
      refuse_if-eq-ok (is_some (find? (λ i. not (is_eligible db i)) (distinct ids))) _ _ _ h1 in
    rw (sym (ok_eq last)) some_user

targets_for-filled :
    (db : Db) (global : Bool) (ids users : List ℕ)
    → targets_for db global ids ≡ ok users
    → (global ≡ true → is_empty users ≡ true) × (global ≡ false → is_empty users ≡ false)
targets_for-filled db true ids users h =
    elim (if-eq (is_empty ids) (ok []) (err (coded 422 invalid_promo_targets)) h) [
      | inl (_, e) ↦ (λ _. ap is_empty (sym (ok_eq e)), λ no. cc)
      | inr (_, e) ↦ cc
    ]
targets_for-filled db false ids users h = (λ no. cc, λ _. filled db ids users h)

pub next_targets-filled :
    (db : Db) (global : Bool) (o : Option (List ℕ)) (users : List ℕ)
    → next_targets db global o ≡ ok (some users)
    → (global ≡ false) × (is_empty users ≡ false)
next_targets-filled db global none users h = cc
next_targets-filled db true (some ids) users h =
    elim (if-eq (is_empty (distinct ids)) (ok none) (err (coded 422 invalid_promo_targets)) h) [
      | inl (_, e) ↦ cc
      | inr (_, e) ↦ cc
    ]
next_targets-filled db false (some ids) users h =
    let (us, found, last) = >>=-eq-ok (assert_targets_eligible db (distinct ids)) _ h in
    let same : us ≡ users = cc in (refl, rw (sym same) (filled db (distinct ids) us found))

not_found : {A : Type 0} (o : Option A) → is_some o ≡ false → o ≡ none
not_found none h = refl
not_found (some a) h = cc

module _ (p : Promotion) (users : List ℕ) (ps : List Promotion) (ts : List PromotionTarget) where
  inserted-codes :
      find? (has_code p.promo_code) ps ≡ none
      → ((c : Text) → count (has_code c) ps ≤ 1)
      → (c : Text) → count (has_code c) (ps ++ p ∷ []) ≤ 1
  unfolding count
  inserted-codes free single c = elim (Bool-cases (text_eq p.promo_code c)) [
    | inl met ↦
        let same : p.promo_code ≡ c = (text_eq_iff p.promo_code c).0 met in
        let none_left =
          count-find?-none (has_code c) ps (subst (λ x. find? (has_code x) ps ≡ none) same free) in
        ground (arith, count-append (has_code c) ps (p ∷ []))
    | inr unmet ↦ ground (arith, single c, count-append (has_code c) ps (p ∷ []))
  ]

  inserted-allowlists :
      find? (has_promo_id p.id) ps ≡ none
      → count (target_of p.id) ts ≡ 0
      → (p.is_global ≡ true → is_empty users ≡ true)
      → (p.is_global ≡ false → is_empty users ≡ false)
      → ((i : ℕ) (q : Promotion) → find? (has_promo_id i) ps ≡ some q → Allowlisted ts q)
      → (i : ℕ) (q : Promotion) → find? (has_promo_id i) (ps ++ p ∷ []) ≡ some q
      → Allowlisted (ts ++ target_rows p.id users) q
  inserted-allowlists free no_rows global targeted old i q found = elim (Bool-cases (p.id == i)) [
    | inl its ↦
        let same : p.id ≡ i = ground arith in
        let at =
          find?-append (has_promo_id i) ps p
            (subst (λ j. find? (has_promo_id j) ps ≡ none) same free) its in
        let e : p ≡ q = cc in
        let (_, many, nothing) = target_rows-count p.id users p.id in
        let total = count-append (target_of p.id) ts (target_rows p.id users) in
        subst (Allowlisted (ts ++ target_rows p.id users)) e (
          λ g. omega (arith, total, nothing (global g), no_rows),
          λ t. omega (arith, total, many (targeted t)),
        )
    | inr other ↦
        let at : find? (has_promo_id i) ps ≡ some q =
          sym (find?-append_unmet (has_promo_id i) ps p other) ∙ found in
        let its : q.id ≡ i = ground (arith, find?-holds (has_promo_id i) ps q at) in
        let differ : (p.id == q.id) ≡ false = rw its other in
        let (nothing, _, _) = target_rows-count p.id users q.id in
        let total = count-append (target_of q.id) ts (target_rows p.id users) in
        let (g, t) = old i q at in
        (λ h. omega (arith, total, nothing differ, g h), λ h. omega (arith, total, t h))
  ]

rounded_up : (v : ℕ) → 5 ≤ v → (ltb 0 (to_piastre v) ≡ true) × (to_piastre v % 10 ≡ 0)
unfolding to_piastre
rounded_up v h = (ground arith, omega arith)

-- A catalogue stays valid as a promotion is created: codes are in normal form and distinct, values
-- are in whole piastres and above 0, windows open before they close, a global code has no allowlist
-- and every other code has a user on it. The id of the new row must be new to promotions and to
-- targets, and the value half a piastre at least, for the column rounds a smaller one to 0.
pub create_promotion-CatalogValid :
    (fresh notice actor : ℕ) (dto : NewPromotion) (db : Db) (p : Promotion) (db' : Db)
    → find? (has_promo_id fresh) db.promotions ≡ none
    → count (target_of fresh) db.targets ≡ 0
    → 5 ≤ dto.value
    → create_promotion fresh notice actor dto db ≡ ok (p, db')
    → CatalogValid db.promotions db.targets
    → CatalogValid db'.promotions db'.targets
unfolding create_promotion new_promotion
create_promotion-CatalogValid fresh notice actor dto db p db' free no_rows least h
      (valid, codes, lists) =
    let (c, read, h1) = >>=-eq-ok (normalize_promo_code dto.promo_code) _ h in
    let (_, h2) = refuse_if-eq-ok (not (is_fixed dto.kind)) _ _ _ h1 in
    let (_, h3) = refuse_if-eq-ok (not (ltb 0 dto.value)) _ _ _ h2 in
    let (opens, h4) = refuse_if-eq-ok (window_closed dto.starts_at dto.expires_at) _ _ _ h3 in
    let (users, eligible, h5) =
      >>=-eq-ok (targets_for db (or_default dto.is_global true) dto.target_user_ids) _ h4 in
    let (unused, last) = refuse_if-eq-ok (is_some (find? (has_code c) db.promotions)) _ _ _ h5 in
    let new = new_promotion fresh c dto in
    let (matches, _) = normalize-normalize dto.promo_code c read in
    let (global, targeted) =
      targets_for-filled db (or_default dto.is_global true) dto.target_user_ids users eligible in
    let written =
      log (some actor) Action.promotion_create (some fresh) (insert_promotion new users db) in
    let (ps, ts) = notify_each-catalog notice fresh c users written in
    let state : notify_each notice fresh c users written ≡ db' =
      ap (λ (r : Promotion × Db). r.1) (ok_eq last) in
    let (value, whole) = rounded_up dto.value least in
    let done : CatalogValid (db.promotions ++ new ∷ []) (db.targets ++ target_rows fresh users) = (
      AllRows-append PromoValid db.promotions new valid (matches, value, whole, opens),
      inserted-codes new users db.promotions db.targets
          (not_found (find? (has_code c) db.promotions) unused) codes,
      inserted-allowlists new users db.promotions db.targets free no_rows global targeted lists,
    ) in
    subst (λ (d : Db). CatalogValid d.promotions d.targets) state
      (subst (λ rows. CatalogValid rows (notify_each notice fresh c users written).targets) (sym ps)
        (subst (λ rows. CatalogValid (db.promotions ++ new ∷ []) rows) (sym ts) done))
