-- ===== src/Notifications/Send.antt =====
-- src/notifications/notifications.service.ts: what the platform sends to one user or to everyone.
use waleed_bus.Base.{
  ℕ, suc, Bool, true, false, Option, none, some, List, [], ◌∷◌, ◌++◌, map, if◌then◌else◌, select,
  length, Result, ok, err, ◌>>=◌, ◌>>◌, require, coded, invalid_notification_target, user_not_found,
}
use waleed_bus.Base.Text.{Text}
use waleed_bus.Schema.{User, Notification, Category, Action, Db, user_by_id, log}
use waleed_bus.Notifications.{NotifyInput, check_refs, new_notification, notify, with_notifications}

-- `sendFromPlatform`.
pub record SendInput : Type 0 where
  pub user_id : Option ℕ
  pub is_global : Bool
  pub category : Option Category
  pub title : Text
  pub body : Text
  pub trip_id : Option ℕ
  pub promotion_id : Option ℕ

pub record Sent : Type 0 where
  pub sent_count : ℕ
  pub is_global : Bool
  pub notification_ids : List ℕ

abbrev pub or_text : Option Category → Category
or_text none = Category.text
or_text (some c) = c

-- The input of `notify` for a recipient.
abbrev pub addressed : SendInput → ℕ → NotifyInput
addressed input user = record {
  user_id = user;
  category = or_text input.category;
  title = input.title;
  body = input.body;
  trip_id = input.trip_id;
  promotion_id = input.promotion_id;
  dedupe_key = none;
}

abbrev pub audited : Option ℕ → Action → Option ℕ → Db → Db
audited none act resource db = db
audited (some actor) act resource db = log (some actor) act resource db

unfoldable pub send_single : ℕ → SendInput → Option ℕ → Option ℕ → Db → Result (Sent × Db)
send_single fresh input actor none db = err (coded 422 invalid_notification_target)
send_single fresh input actor (some user) db = do
  u ← require (user_by_id db user) 404 user_not_found
  sent ← notify fresh (addressed input u.id) db
  ok (
    record { sent_count = 1; is_global = false; notification_ids = (sent.0).id ∷ [] },
    audited actor Action.notification_single (some (sent.0).id) sent.1,
  )

-- A row for each user, with ids that no row has from `fresh` on.
unfoldable pub broadcast_rows : ℕ → SendInput → List User → List Notification
broadcast_rows fresh input [] = []
broadcast_rows fresh input (u ∷ us) =
    new_notification fresh (addressed input u.id) ∷ broadcast_rows (suc fresh) input us

abbrev pub is_active_user : User → Bool
is_active_user u = u.is_active

abbrev pub send_all : ℕ → SendInput → Option ℕ → Db → List User → Sent × Db
send_all fresh input actor db [] =
    (record { sent_count = 0; is_global = true; notification_ids = [] }, db)
send_all fresh input actor db (u ∷ us) =
    let rows = broadcast_rows fresh input (u ∷ us) in
    (
      record {
        sent_count = length rows;
        is_global = true;
        notification_ids = map (λ (n : Notification). n.id) rows;
      },
      audited actor Action.notification_broadcast none
          (with_notifications db (db.notifications ++ rows)),
    )

unfoldable pub send_from_platform : ℕ → SendInput → Option ℕ → Db → Result (Sent × Db)
send_from_platform fresh input actor db = do
  check_refs (or_text input.category) input.trip_id input.promotion_id db
  if input.is_global
      then ok (send_all fresh input actor db (select is_active_user db.users))
      else send_single fresh input actor input.user_id db
