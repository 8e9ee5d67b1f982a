-- ===== src/Tests/Messages.antt =====
-- The inbox.
use waleed_bus.Base.{
  ℕ, ◌+◌, ◌==◌, ◌&&◌, ◌≡◌, refl, Bool, true, false, List, [], ◌∷◌, Option, some, none, Result, ok,
  is_ok-ok, count, select,
}
use waleed_bus.Schema.{User, Notification, DedupeKey, Category, Db}
use waleed_bus.Notifications.{NotifyInput, notify, of_user, mark_all_read, unread_count}
use waleed_bus.Notifications.Send.{SendInput, Sent, is_active_user, send_from_platform}
use waleed_bus.Notifications.Inbox.{notify-notify, mark_all_read-unread_count}
use waleed_bus.Notifications.Broadcast.{send_from_platform-count}
use waleed_bus.Tests.Sample.{booked}

-- Code 5 is assigned to passenger 7.
abbrev assigned : NotifyInput
assigned = record {
  user_id = 7;
  category = Category.discount_code;
  title = b'T' ∷ [];
  body = [];
  trip_id = none;
  promotion_id = some 5;
  dedupe_key = some (DedupeKey.promo_assigned 5 7);
}

abbrev emission : Result (Notification × Db)
emission = notify 70 assigned booked

emitted : (n : Notification) × (db' : Db) × (emission ≡ ok (n, db'))
unfolding notify waleed_bus.Notifications.check_refs waleed_bus.Schema.user_by_id
    waleed_bus.Base.find?
emitted = is_ok-ok emission refl

notify-notify_example : notify 71 assigned emitted.1 ≡ ok (emitted.0, emitted.1)
notify-notify_example =
    notify-notify 70 71 assigned (DedupeKey.promo_assigned 5 7) booked emitted.0 emitted.1 refl
      emitted.2

mark_all_read-unread_count_example :
    (unread_count 7 (mark_all_read 1000 7 emitted.1).1 ≡ 0)
    × ((mark_all_read 1000 7 emitted.1).0 ≡ unread_count 7 emitted.1)
    × ((other : ℕ)
        → (7 == other) ≡ false
        → select (of_user other) (mark_all_read 1000 7 emitted.1).1.notifications
          ≡ select (of_user other) (emitted.1).notifications)
mark_all_read-unread_count_example = mark_all_read-unread_count 1000 7 emitted.1

abbrev everyone : SendInput
everyone = record {
  user_id = none;
  is_global = true;
  category = none;
  title = b'T' ∷ [];
  body = [];
  trip_id = none;
  promotion_id = none;
}

abbrev broadcast : Result (Sent × Db)
broadcast = send_from_platform 80 everyone (some 1) booked

sent : (s : Sent) × (db' : Db) × (broadcast ≡ ok (s, db'))
unfolding send_from_platform waleed_bus.Notifications.check_refs waleed_bus.Base.select
sent = is_ok-ok broadcast refl

send_from_platform-count_example :
    ((u : ℕ)
      → count (of_user u) (sent.1).notifications
        ≡ count (of_user u) booked.notifications
          + count (λ (x : User). x.is_active && x.id == u) booked.users)
    × ((sent.0).sent_count ≡ count is_active_user booked.users)
send_from_platform-count_example =
    send_from_platform-count 80 everyone (some 1) booked sent.0 sent.1 refl sent.2
