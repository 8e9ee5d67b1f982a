-- ===== src/Promotions/Catalog.antt =====
-- What the administration keeps of the catalogue of promotions.
use waleed_bus.Base.{
  ℕ, ◌%◌, suc, ◌≤◌, ◌≡◌, refl, ap, sym, ◌∙◌, Bool, true, false, Option, none, some, List, [], ◌∷◌,
  ◌==◌, ltb, is_none, find?, AllRows, update, delete_many, count, arith, Result, ok, err, ok_eq,
  >>=-eq-ok, refuse_if-eq-ok, ◌>>◌, if_else_err,
}
use waleed_bus.Base.Text.{Text}
use waleed_bus.Schema.{Promotion, PromotionTarget, Notification, Db, user_by_id}
use waleed_bus.Notifications.{
  NotifyInput, check_refs, truthy_key, create_once, row_of_key, notify, notify_best_effort, kept,
}
use waleed_bus.Promotions.Code.{code_pattern}
use waleed_bus.Promotions.Edit.{
  is_empty, window_closed, target_rows, has_code, has_promo_id, target_of, assigned_notice,
  notify_each,
}

-- A code in normal form, a value in whole piastres above 0, and a window that opens before it closes.
abbrev pub PromoValid : Promotion → Type 0
PromoValid p =
    (code_pattern p.promo_code ≡ true)
    × (ltb 0 p.value ≡ true)
    × (p.value % 10 ≡ 0)
    × (window_closed p.starts_at p.expires_at ≡ false)

-- A global code has no allowlist, and every other code has a user on it.
abbrev pub Allowlisted : List PromotionTarget → Promotion → Type 0
Allowlisted ts p =
    (p.is_global ≡ true → count (target_of p.id) ts ≡ 0)
    × (p.is_global ≡ false → 1 ≤ count (target_of p.id) ts)

abbrev pub CatalogValid : List Promotion → List PromotionTarget → Type 0
CatalogValid ps ts =
    AllRows PromoValid ps
    × ((c : Text) → count (has_code c) ps ≤ 1)
    × ((i : ℕ) (p : Promotion) → find? (has_promo_id i) ps ≡ some p → Allowlisted ts p)

-- Notices write no promotion and no target.
create_once-catalog :
    (fresh : ℕ) (input : NotifyInput) (db : Db) (o : Option Notification) (n : Notification)
    (db' : Db)
    → create_once fresh input db o ≡ ok (n, db')
    → (db'.promotions ≡ db.promotions) × (db'.targets ≡ db.targets)
create_once-catalog fresh input db (some old) n db' h0 =
    let h = if_else_err (truthy_key input.dedupe_key) (old, db) (n, db') _ h0 in
    let same = ap (λ (r : Notification × Db). r.1) (ok_eq h) in
    (ap (λ (d : Db). d.promotions) (sym same), ap (λ (d : Db). d.targets) (sym same))
create_once-catalog fresh input db none n db' h =
    let (_, last) = refuse_if-eq-ok (is_none (user_by_id db input.user_id)) _ _ _ h in
    let same = ap (λ (r : Notification × Db). r.1) (ok_eq last) in
    (ap (λ (d : Db). d.promotions) (sym same), ap (λ (d : Db). d.targets) (sym same))

kept-catalog :
    (db : Db) (m : Result (Notification × Db))
    → ((n : Notification) (db' : Db)
        → m ≡ ok (n, db')
        → (db'.promotions ≡ db.promotions) × (db'.targets ≡ db.targets))
    → ((kept db m).promotions ≡ db.promotions) × ((kept db m).targets ≡ db.targets)
kept-catalog db (ok (n, db')) k = k n db' refl
kept-catalog db (err e) k = (refl, refl)

notify_best_effort-catalog :
    (fresh : ℕ) (input : NotifyInput) (db : Db)
    → ((notify_best_effort fresh input db).promotions ≡ db.promotions)
      × ((notify_best_effort fresh input db).targets ≡ db.targets)
unfolding notify_best_effort notify
notify_best_effort-catalog fresh input db =
    kept-catalog db
      (check_refs input.category input.trip_id input.promotion_id db
        >> create_once fresh input db (row_of_key input.dedupe_key db.notifications))
      (λ n db' h.
        let (_, _, h1) =
          >>=-eq-ok (check_refs input.category input.trip_id input.promotion_id db) _ h in
        create_once-catalog fresh input db (row_of_key input.dedupe_key db.notifications) n db' h1)

pub notify_each-catalog :
    (fresh promo : ℕ) (c : Text) (users : List ℕ) (db : Db)
    → ((notify_each fresh promo c users db).promotions ≡ db.promotions)
      × ((notify_each fresh promo c users db).targets ≡ db.targets)
unfolding notify_each
notify_each-catalog fresh promo c [] db = (refl, refl)
notify_each-catalog fresh promo c (i ∷ is) db =
    let (p, t) = notify_best_effort-catalog fresh (assigned_notice promo c i) db in
    let (ps, ts) =
      notify_each-catalog (suc fresh) promo c is
        (notify_best_effort fresh (assigned_notice promo c i) db) in
    (ps ∙ p, ts ∙ t)

-- The rows of an allowlist.
pub target_rows-count :
    (promo : ℕ) (users : List ℕ) (i : ℕ)
    → ((promo == i) ≡ false → count (target_of i) (target_rows promo users) ≡ 0)
      × (is_empty users ≡ false → 1 ≤ count (target_of promo) (target_rows promo users))
      × (is_empty users ≡ true → count (target_of i) (target_rows promo users) ≡ 0)
unfolding count target_rows
target_rows-count promo [] i = (λ h. refl, λ h. cc, λ h. refl)
target_rows-count promo (u ∷ us) i =
    let (other, _, _) = target_rows-count promo us i in
    (λ h. ground (arith, other h), λ h. ground arith, λ h. cc)

pub delete_many-count :
    (promo i : ℕ) (ts : List PromotionTarget)
    → (count (target_of promo) (delete_many (target_of promo) ts) ≡ 0)
      × ((promo == i) ≡ false
          → count (target_of i) (delete_many (target_of promo) ts) ≡ count (target_of i) ts)
unfolding count delete_many
delete_many-count promo i [] = (refl, λ h. refl)
delete_many-count promo i (t ∷ ts) =
    let (none_left, others) = delete_many-count promo i ts in
    (ground (arith, none_left), λ h. ground (arith, others h))

pub count-update_eq :
    {A : Type 0} (p q : A → Bool) (f : A → A)
    → ((a : A) → p (f a) ≡ p a)
    → (xs : List A) → count p (update q f xs) ≡ count p xs
unfolding count update
count-update_eq p q f same [] = refl
count-update_eq p q f same (x ∷ xs) = ground (arith, same x, count-update_eq p q f same xs)
