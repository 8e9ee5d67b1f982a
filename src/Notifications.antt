-- ===== src/Notifications.antt =====
-- src/notifications/notifications.service.ts: emission, and the inbox of a user.
pub mod Send
pub mod Inbox
pub mod Broadcast
use waleed_bus.Base.{
  ℕ, zero, suc, ◌+◌, Bool, true, false, not, ◌&&◌, ◌||◌, Option, none, some, List, [], ◌∷◌, ◌++◌,
  ◌==◌, map, if◌then◌else◌, is_none, is_some, find?, select, update, update_many, delete_many,
  count, length, Result, ok, err, ◌>>=◌, ◌>>◌, refuse_if, require, coded, server_error,
  invalid_notification_ref, invalid_notification_category, invalid_notification_target,
  notification_not_found, user_not_found, Code,
}
use waleed_bus.Base.Text.{Text, text_eq}
use waleed_bus.Schema.{
  User, Trip, Promotion, Notification, DedupeKey, Category, Action, Db, user_by_id, trip_by_id, log,
}
use waleed_bus.Paging.{PageQuery, CursorPage, list_page}

-- `NotifyInput`.
pub record NotifyInput : Type 0 where
  pub user_id : ℕ
  pub category : Category
  pub title : Text
  pub body : Text
  pub trip_id : Option ℕ
  pub promotion_id : Option ℕ
  pub dedupe_key : Option DedupeKey

-- The references that a category takes.
abbrev pub refs_valid : Category → Option ℕ → Option ℕ → Bool
refs_valid Category.text trip promotion = is_none trip && is_none promotion
refs_valid Category.trip trip promotion = is_some trip && is_none promotion
refs_valid Category.discount_code trip promotion = is_none trip && is_some promotion
refs_valid (Category.other w) trip promotion = false

abbrev pub ref_code : Category → Code
ref_code (Category.other w) = invalid_notification_category
ref_code _ = invalid_notification_ref

abbrev pub missing_trip : Db → Option ℕ → Bool
missing_trip db none = false
missing_trip db (some t) = is_none (trip_by_id db t)

abbrev pub missing_promotion : Db → Option ℕ → Bool
missing_promotion db none = false
missing_promotion db (some p) = is_none (find? (λ (q : Promotion). q.id == p) db.promotions)

unfoldable pub dedupe_eq : DedupeKey → DedupeKey → Bool
dedupe_eq (DedupeKey.promo_assigned p u) (DedupeKey.promo_assigned q v) = p == q && u == v
dedupe_eq (DedupeKey.named a) (DedupeKey.named b) = text_eq a b
dedupe_eq _ _ = false

abbrev pub has_key : DedupeKey → Option DedupeKey → Bool
has_key k none = false
has_key k (some l) = dedupe_eq l k

abbrev pub row_of_key : Option DedupeKey → List Notification → Option Notification
row_of_key none rows = none
row_of_key (some k) rows = find? (λ (n : Notification). has_key k n.dedupe_key) rows

unfoldable pub new_notification : ℕ → NotifyInput → Notification
new_notification fresh input = record {
  id = fresh;
  user_id = input.user_id;
  category = input.category;
  title = input.title;
  body = input.body;
  trip_id = input.trip_id;
  promotion_id = input.promotion_id;
  dedupe_key = input.dedupe_key;
  is_read = false;
  read_at = none;
}

abbrev pub with_notifications : Db → List Notification → Db
with_notifications db rows = record db { notifications = rows }

-- `input.dedupeKey &&`: the empty text is a key of the unique index, and not a truthy one.
abbrev pub is_truthy : DedupeKey → Bool
is_truthy (DedupeKey.promo_assigned p u) = true
is_truthy (DedupeKey.named []) = false
is_truthy (DedupeKey.named (c ∷ cs)) = true

abbrev pub truthy_key : Option DedupeKey → Bool
truthy_key none = false
truthy_key (some k) = is_truthy k

-- The row of the key if there is one and the key is truthy, an error for an empty key that a row
-- has, and else a new row for a user that exists.
abbrev pub create_once : ℕ → NotifyInput → Db → Option Notification → Result (Notification × Db)
create_once fresh input db (some n) =
    if truthy_key input.dedupe_key then ok (n, db) else err (coded 500 server_error)
create_once fresh input db none =
    refuse_if (is_none (user_by_id db input.user_id)) 500 server_error
    >> ok (
      new_notification fresh input,
      with_notifications db (db.notifications ++ new_notification fresh input ∷ []),
    )

-- The references, of the category and to rows that exist.
unfoldable pub check_refs : Category → Option ℕ → Option ℕ → Db → Result (Unit {0})
check_refs category trip promotion db = do
  refuse_if (not (refs_valid category trip promotion)) 422 (ref_code category)
  refuse_if (missing_trip db trip) 422 invalid_notification_ref
  refuse_if (missing_promotion db promotion) 422 invalid_notification_ref

unfoldable pub notify : ℕ → NotifyInput → Db → Result (Notification × Db)
notify fresh input db = do
  check_refs input.category input.trip_id input.promotion_id db
  create_once fresh input db (row_of_key input.dedupe_key db.notifications)

-- `notifyBestEffort`: a failure is dropped.
abbrev pub kept : Db → Result (Notification × Db) → Db
kept db (ok (n, db')) = db'
kept db (err e) = db

unfoldable pub notify_best_effort : ℕ → NotifyInput → Db → Db
notify_best_effort fresh input db = kept db (notify fresh input db)

abbrev pub of_user : ℕ → Notification → Bool
of_user user n = n.user_id == user

abbrev pub owned : ℕ → ℕ → Notification → Bool
owned i user n = n.id == i && n.user_id == user

abbrev pub unread_of : ℕ → Notification → Bool
unread_of user n = n.user_id == user && not n.is_read

unfoldable pub read_row : ℕ → Notification → Notification
read_row now n = record n { is_read = true; read_at = some now }

abbrev pub has_row_id : ℕ → Notification → Bool
has_row_id i n = n.id == i

unfoldable pub unread_count : ℕ → Db → ℕ
unread_count actor db = count (unread_of actor) db.notifications

unfoldable pub mark_read : ℕ → ℕ → ℕ → Db → Result (Notification × Db)
mark_read now actor i db = do
  n ← require (find? (owned i actor) db.notifications) 404 notification_not_found
  if n.is_read
      then ok (n, db)
      else ok (
        read_row now n,
        with_notifications db (update (has_row_id n.id) (read_row now) db.notifications),
      )

unfoldable pub mark_all_read : ℕ → ℕ → Db → ℕ × Db
unfolding unread_count
mark_all_read now actor db = (
  unread_count actor db,
  with_notifications db (update_many (unread_of actor) (read_row now) db.notifications),
)

unfoldable pub remove : ℕ → ℕ → Db → Result (ℕ × Db)
remove actor i db = do
  n ← require (find? (owned i actor) db.notifications) 404 notification_not_found
  ok (n.id, with_notifications db (delete_many (has_row_id n.id) db.notifications))

unfoldable pub remove_all : ℕ → Db → ℕ × Db
remove_all actor db = (
  count (of_user actor) db.notifications,
  with_notifications db (delete_many (of_user actor) db.notifications),
)

-- The query's `unread`, where it is "true" or "false".
abbrev pub listed : ℕ → Option Bool → Notification → Bool
listed actor none n = of_user actor n
listed actor (some true) n = unread_of actor n
listed actor (some false) n = of_user actor n && n.is_read

-- `orderBy: [{ createdAt: 'desc' }, { id: 'desc' }]`: the rows stand in the order of their creation.
unfoldable pub newest_first : List Notification → List Notification
newest_first [] = []
newest_first (n ∷ ns) = newest_first ns ++ n ∷ []

unfoldable pub list_mine :
    (ℕ → Text) → (Text → ℕ) → ℕ → PageQuery → Option Bool → Db → CursorPage Notification
list_mine encode decode actor query unread db =
    list_page (λ (n : Notification). n.id) encode decode query 20
      (newest_first (select (listed actor unread) db.notifications))
