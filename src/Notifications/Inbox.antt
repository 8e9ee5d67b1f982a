-- ===== src/Notifications/Inbox.antt =====
-- Emission by a key, and what the calls of one user leave of the inboxes of others.
use waleed_bus.Base.{
  ℕ, ◌≡◌, refl, ap, sym, subst, ◌∙◌, Bool, true, false, Option, some, none, List, [], ◌∷◌, ◌++◌,
  ◌==◌, is_none, find?-append, select, update_many, delete_many, arith, ok, ok_eq, >>=-eq-ok,
  refuse_if-eq-ok, err, coded, server_error, if_else_err, if◌then◌else◌,
}
use waleed_bus.Base.Text.{text_eq_iff}
use waleed_bus.Base.Once.{count-update_many}
use waleed_bus.Schema.{Notification, DedupeKey, Db, user_by_id}
use waleed_bus.Notifications.{
  NotifyInput, check_refs, missing_trip, missing_promotion, dedupe_eq, has_key, row_of_key,
  is_truthy, truthy_key, new_notification, create_once, notify, of_user, unread_of, read_row,
  unread_count, mark_all_read, with_notifications,
}

dedupe_eq_refl : (k : DedupeKey) → dedupe_eq k k ≡ true
unfolding dedupe_eq
dedupe_eq_refl (DedupeKey.promo_assigned p u) = ground arith
dedupe_eq_refl (DedupeKey.named t) = (text_eq_iff t t).1 refl

-- The row that an emission leaves under its key.
create_once-row :
    (fresh : ℕ) (input : NotifyInput) (k : DedupeKey) (db : Db) (o : Option Notification)
    (n : Notification) (db' : Db)
    → input.dedupe_key ≡ some k
    → row_of_key (some k) db.notifications ≡ o
    → create_once fresh input db o ≡ ok (n, db')
    → (row_of_key (some k) db'.notifications ≡ some n)
      × (db'.trips ≡ db.trips)
      × (db'.promotions ≡ db.promotions)
unfolding new_notification
create_once-row fresh input k db (some old) n db' key found h0 =
    let h = if_else_err (truthy_key input.dedupe_key) (old, db) (n, db') _ h0 in
    let same : old ≡ n = ap (λ (r : Notification × Db). r.0) (ok_eq h) in
    let state : db ≡ db' = ap (λ (r : Notification × Db). r.1) (ok_eq h) in
    (
      ap (λ (d : Db). row_of_key (some k) d.notifications) (sym state)
          ∙ found
          ∙ ap (λ r. some r) same,
      ap (λ (d : Db). d.trips) (sym state),
      ap (λ (d : Db). d.promotions) (sym state),
    )
create_once-row fresh input k db none n db' key found h =
    let (_, last) = refuse_if-eq-ok (is_none (user_by_id db input.user_id)) _ _ _ h in
    let new = new_notification fresh input in
    let same : new ≡ n = ap (λ (r : Notification × Db). r.0) (ok_eq last) in
    let state : with_notifications db (db.notifications ++ new ∷ []) ≡ db' =
      ap (λ (r : Notification × Db). r.1) (ok_eq last) in
    let its : has_key k new.dedupe_key ≡ true = rw key (dedupe_eq_refl k) in
    (
      ap (λ (d : Db). row_of_key (some k) d.notifications) (sym state)
          ∙ find?-append (λ (r : Notification). has_key k r.dedupe_key) db.notifications new found
              its
          ∙ ap (λ r. some r) same,
      ap (λ (d : Db). d.trips) (sym state),
      ap (λ (d : Db). d.promotions) (sym state),
    )

missing_trip-same :
    (db db' : Db) (o : Option ℕ) → db'.trips ≡ db.trips → missing_trip db' o ≡ missing_trip db o
unfolding waleed_bus.Schema.trip_by_id
missing_trip-same db db' none e = refl
missing_trip-same db db' (some t) e = rw e refl

missing_promotion-same :
    (db db' : Db) (o : Option ℕ)
    → db'.promotions ≡ db.promotions
    → missing_promotion db' o ≡ missing_promotion db o
missing_promotion-same db db' none e = refl
missing_promotion-same db db' (some p) e = rw e refl

-- An emission by a key happens once: when a notification with a key other than the empty text has
-- been emitted, to emit it again returns the same row and leaves the database as it is. With the
-- empty text for a key the second emission fails instead.
pub notify-notify :
    (fresh again : ℕ) (input : NotifyInput) (k : DedupeKey) (db : Db) (n : Notification) (db' : Db)
    → input.dedupe_key ≡ some k
    → notify fresh input db ≡ ok (n, db')
    → notify again input db' ≡ (if is_truthy k then ok (n, db') else err (coded 500 server_error))
unfolding notify check_refs
notify-notify fresh again input k db n db' key h =
    let (_, checked, h1) =
      >>=-eq-ok (check_refs input.category input.trip_id input.promotion_id db) _ h in
    let created : create_once fresh input db (row_of_key (some k) db.notifications) ≡ ok (n, db') =
      subst (λ o. create_once fresh input db (row_of_key o db.notifications) ≡ ok (n, db')) key
        h1 in
    let (row, trips, promotions) = create_once-row fresh input k db _ n db' key refl created in
    let row' : row_of_key input.dedupe_key db'.notifications ≡ some n = rw key row in
    let truth = ap truthy_key key in
    rw
      (
        missing_trip-same db db' input.trip_id trips,
        missing_promotion-same db db' input.promotion_id promotions,
        checked,
        row',
        truth,
      )
      refl

-- Rows by their ids, as the calls of their owner change them.
module _ (actor other : ℕ) (differ : (actor == other) ≡ false) where
  update_many-others :
      (q : Notification → Bool) (now : ℕ)
      → ((n : Notification) → q n ≡ true → of_user actor n ≡ true)
      → (rows : List Notification)
      → select (of_user other) (update_many q (read_row now) rows) ≡ select (of_user other) rows
  unfolding select update_many read_row
  update_many-others q now mine [] = refl
  update_many-others q now mine (n ∷ ns) = ground (arith, mine n, update_many-others q now mine ns)

  delete_many-others :
      (q : Notification → Bool)
      → ((n : Notification) → q n ≡ true → of_user actor n ≡ true)
      → (rows : List Notification)
      → select (of_user other) (delete_many q rows) ≡ select (of_user other) rows
  unfolding select delete_many
  delete_many-others q mine [] = refl
  delete_many-others q mine (n ∷ ns) = ground (arith, mine n, delete_many-others q mine ns)

-- After `markAllRead` nothing of the user is unread, and what `updated` reports is what was; the
-- rows of every other user are as they were.
pub mark_all_read-unread_count :
    (now actor : ℕ) (db : Db)
    → (unread_count actor (mark_all_read now actor db).1 ≡ 0)
      × ((mark_all_read now actor db).0 ≡ unread_count actor db)
      × ((other : ℕ)
          → (actor == other) ≡ false
          → select (of_user other) (mark_all_read now actor db).1.notifications
            ≡ select (of_user other) db.notifications)
unfolding mark_all_read unread_count read_row
mark_all_read-unread_count now actor db = (
  count-update_many (unread_of actor) (unread_of actor) (read_row now) (λ n met. ground arith)
      db.notifications,
  refl,
  λ other differ.
      update_many-others actor other differ (unread_of actor) now (λ n met. ground arith)
        db.notifications,
)
