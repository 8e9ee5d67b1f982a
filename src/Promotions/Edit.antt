-- ===== src/Promotions/Edit.antt =====
-- src/promotions/promotions.service.ts: the administration of promotions. Instants are arguments that
-- have been read from their text already; `fresh` numbers the new rows.
use waleed_bus.Base.{
  ℕ, suc, Bool, true, false, not, ◌&&◌, Option, none, some, List, [], ◌∷◌, ◌++◌, ◌==◌, leb, ltb,
  if◌then◌else◌, is_none, is_some, find?, select, update, delete_many, Result, ok, err, ◌>>=◌, ◌>>◌,
  refuse_if, require, coded, invalid_promo_value, invalid_promo_window, invalid_promo_targets,
  promo_code_exists, promotion_not_found,
}
use waleed_bus.Base.Text.{Text, text_eq}
use waleed_bus.Schema.{
  User, Promotion, PromotionTarget, PromotionType, DedupeKey, Category, Action, Db, log,
}
use waleed_bus.Notifications.{NotifyInput, notify_best_effort}
use waleed_bus.Promotions.Discount.{to_piastre}
use waleed_bus.Promotions.Code.{normalize_promo_code}

-- `CreatePromotionDto`.
pub record NewPromotion : Type 0 where
  pub promo_code : Text
  pub kind : PromotionType
  pub value : ℕ
  pub is_global : Option Bool
  pub target_user_ids : List ℕ
  pub max_uses_per_user : Option ℕ
  pub max_total_uses : Option ℕ
  pub starts_at : Option ℕ
  pub expires_at : Option ℕ

-- `UpdatePromotionDto`: an absent field leaves its column as it is.
pub record PromotionChanges : Type 0 where
  pub value : Option ℕ
  pub max_uses_per_user : Option ℕ
  pub max_total_uses : Option (Option ℕ)
  pub starts_at : Option (Option ℕ)
  pub expires_at : Option (Option ℕ)
  pub is_active : Option Bool
  pub target_user_ids : Option (List ℕ)

abbrev pub or_default : {A : Type 0} → Option A → A → A
or_default none a = a
or_default (some x) a = x

-- `[...new Set(userIds)]`.
unfoldable pub distinct : List ℕ → List ℕ
distinct [] = []
distinct (i ∷ is) = i ∷ delete_many (λ j. j == i) (distinct is)

abbrev pub is_empty : List ℕ → Bool
is_empty [] = true
is_empty (i ∷ is) = false

abbrev pub is_eligible : Db → ℕ → Bool
is_eligible db i = is_some (find? (λ (u : User). u.id == i && u.is_active) db.users)

unfoldable pub assert_targets_eligible : Db → List ℕ → Result (List ℕ)
assert_targets_eligible db ids = do
  refuse_if (is_empty (distinct ids)) 422 invalid_promo_targets
  refuse_if (is_some (find? (λ i. not (is_eligible db i)) (distinct ids))) 422 invalid_promo_targets
  ok (distinct ids)

abbrev pub is_fixed : PromotionType → Bool
is_fixed PromotionType.fixed = true
is_fixed PromotionType.other = false

-- `startsAt && expiresAt && startsAt >= expiresAt`.
abbrev pub window_closed : Option ℕ → Option ℕ → Bool
window_closed (some s) (some e) = leb e s
window_closed _ _ = false

abbrev pub targets_for : Db → Bool → List ℕ → Result (List ℕ)
targets_for db true ids = if is_empty ids then ok [] else err (coded 422 invalid_promo_targets)
targets_for db false ids = assert_targets_eligible db ids

-- The column of the value keeps two decimals.
unfoldable pub new_promotion : ℕ → Text → NewPromotion → Promotion
new_promotion fresh promo_code dto = record {
  id = fresh;
  promo_code = promo_code;
  kind = PromotionType.fixed;
  value = to_piastre dto.value;
  is_global = or_default dto.is_global true;
  max_uses_per_user = or_default dto.max_uses_per_user 1;
  max_total_uses = dto.max_total_uses;
  starts_at = dto.starts_at;
  expires_at = dto.expires_at;
  is_active = true;
}

unfoldable pub target_rows : ℕ → List ℕ → List PromotionTarget
target_rows promo [] = []
target_rows promo (i ∷ is) = record { promotion_id = promo; user_id = i } ∷ target_rows promo is

abbrev pub has_code : Text → Promotion → Bool
has_code c p = text_eq p.promo_code c

abbrev pub has_promo_id : ℕ → Promotion → Bool
has_promo_id i p = p.id == i

abbrev pub target_of : ℕ → PromotionTarget → Bool
target_of i t = t.promotion_id == i

-- The notice of a code to one user, in the words of the service.
abbrev pub assigned_title : Text
assigned_title =
    0x643 ∷ 0x648 ∷ 0x62f ∷ 0x20 ∷ 0x62e ∷ 0x635 ∷ 0x645 ∷ 0x20 ∷ 0x62c ∷ 0x62f ∷ 0x64a ∷ 0x62f
    ∷ 0x20 ∷ 0x644 ∷ 0x643 ∷ []

abbrev pub assigned_body : Text → Text
assigned_body promo_code =
    (0x62a ∷ 0x645 ∷ 0x20 ∷ 0x62a ∷ 0x62e ∷ 0x635 ∷ 0x64a ∷ 0x635 ∷ 0x20 ∷ 0x643 ∷ 0x648 ∷ 0x62f
      ∷ 0x20 ∷ 0x627 ∷ 0x644 ∷ 0x62e ∷ 0x635 ∷ 0x645 ∷ 0x20 ∷ [])
    ++ promo_code
    ++ 0x20 ∷ 0x644 ∷ 0x643 ∷ 0x2e ∷ 0x20 ∷ 0x627 ∷ 0x646 ∷ 0x633 ∷ 0x62e ∷ 0x647 ∷ 0x20 ∷ 0x648
      ∷ 0x627 ∷ 0x633 ∷ 0x62a ∷ 0x62e ∷ 0x62f ∷ 0x645 ∷ 0x647 ∷ 0x20 ∷ 0x639 ∷ 0x646 ∷ 0x62f ∷ 0x20
      ∷ 0x627 ∷ 0x644 ∷ 0x62d ∷ 0x62c ∷ 0x632 ∷ 0x2e ∷ []

unfoldable pub assigned_notice : ℕ → Text → ℕ → NotifyInput
assigned_notice promo promo_code user = record {
  user_id = user;
  category = Category.discount_code;
  title = assigned_title;
  body = assigned_body promo_code;
  trip_id = none;
  promotion_id = some promo;
  dedupe_key = some (DedupeKey.promo_assigned promo user);
}

-- A notice for each user; none fails the request.
unfoldable pub notify_each : ℕ → ℕ → Text → List ℕ → Db → Db
notify_each fresh promo promo_code [] db = db
notify_each fresh promo promo_code (i ∷ is) db =
    let db' = notify_best_effort fresh (assigned_notice promo promo_code i) db in
    notify_each (suc fresh) promo promo_code is db'

abbrev pub insert_promotion : Promotion → List ℕ → Db → Db
insert_promotion p users db = record db {
  promotions = db.promotions ++ p ∷ [];
  targets = db.targets ++ target_rows p.id users;
}

unfoldable pub create_promotion : ℕ → ℕ → ℕ → NewPromotion → Db → Result (Promotion × Db)
create_promotion fresh notice actor dto db = do
  promo_code ← normalize_promo_code dto.promo_code
  refuse_if (not (is_fixed dto.kind)) 422 invalid_promo_value
  refuse_if (not (ltb 0 dto.value)) 422 invalid_promo_value
  refuse_if (window_closed dto.starts_at dto.expires_at) 422 invalid_promo_window
  users ← targets_for db (or_default dto.is_global true) dto.target_user_ids
  refuse_if (is_some (find? (has_code promo_code) db.promotions)) 409 promo_code_exists
  let p = new_promotion fresh promo_code dto
  let db' = log (some actor) Action.promotion_create (some fresh) (insert_promotion p users db)
  ok (p, notify_each notice fresh promo_code users db')

-- The allowlist that replaces the present one, if the request has one for a code that is not global.
abbrev pub next_targets : Db → Bool → Option (List ℕ) → Result (Option (List ℕ))
next_targets db global none = ok none
next_targets db true (some ids) =
    if is_empty (distinct ids) then ok none else err (coded 422 invalid_promo_targets)
next_targets db false (some ids) =
    assert_targets_eligible db (distinct ids) >>= λ users. ok (some users)

abbrev pub with_targets : Db → List PromotionTarget → Db
with_targets db ts = record db { targets = ts }

abbrev pub replace_targets : ℕ → Option (List ℕ) → Db → Db
replace_targets promo none db = db
replace_targets promo (some users) db =
    with_targets db (delete_many (target_of promo) db.targets ++ target_rows promo users)

-- The value that the column then holds.
abbrev pub stored_value : Option ℕ → ℕ → ℕ
stored_value none v = v
stored_value (some new) v = to_piastre new

unfoldable pub changed_promotion : PromotionChanges → Promotion → Promotion
changed_promotion dto p = record p {
  value = stored_value dto.value p.value;
  max_uses_per_user = or_default dto.max_uses_per_user p.max_uses_per_user;
  max_total_uses = or_default dto.max_total_uses p.max_total_uses;
  starts_at = or_default dto.starts_at p.starts_at;
  expires_at = or_default dto.expires_at p.expires_at;
  is_active = or_default dto.is_active p.is_active;
}

abbrev pub not_positive : Option ℕ → Bool
not_positive none = false
not_positive (some v) = not (ltb 0 v)

-- The users that the allowlist did not hold.
abbrev pub newly_added : Db → ℕ → Option (List ℕ) → List ℕ
newly_added db promo none = []
newly_added db promo (some users) =
    select
      (λ i.
        is_none
          (find? (λ (t : PromotionTarget). t.promotion_id == promo && t.user_id == i) db.targets))
      users

abbrev pub save_promotion : ℕ → PromotionChanges → Db → Db
save_promotion i dto db = record db {
  promotions = update (has_promo_id i) (changed_promotion dto) db.promotions;
}

unfoldable pub update_promotion : ℕ → ℕ → ℕ → PromotionChanges → Db → Result (Promotion × Db)
update_promotion notice actor i dto db = do
  p ← require (find? (has_promo_id i) db.promotions) 404 promotion_not_found
  refuse_if (not_positive dto.value) 422 invalid_promo_value
  users ← next_targets db p.is_global dto.target_user_ids
  refuse_if
      (window_closed (or_default dto.starts_at p.starts_at)
        (or_default dto.expires_at p.expires_at))
      422 invalid_promo_window
  let db' = save_promotion i dto (replace_targets i users db)
  ok (
    changed_promotion dto p,
    notify_each notice i p.promo_code (newly_added db i users)
        (log (some actor) Action.promotion_update (some i) db'),
  )

abbrev pub expiry : PromotionChanges
expiry = record {
  value = none;
  max_uses_per_user = none;
  max_total_uses = none;
  starts_at = none;
  expires_at = none;
  is_active = some false;
  target_user_ids = none;
}

unfoldable pub expire_promotion : ℕ → ℕ → ℕ → Db → Result (Promotion × Db)
unfolding update_promotion
expire_promotion notice actor i db = update_promotion notice actor i expiry db
