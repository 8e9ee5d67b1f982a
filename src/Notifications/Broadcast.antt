-- ===== src/Notifications/Broadcast.antt =====
-- A message to everyone.
use waleed_bus.Base.{
  ℕ, suc, ◌+◌, ◌≡◌, refl, ap, sym, ◌∙◌, true, ◌&&◌, Option, some, none, List, [], ◌∷◌, ◌==◌, select,
  count, count-append, length, arith, ok, ok_eq, >>=-eq-ok,
}
use waleed_bus.Base.Unique.{if-true}
use waleed_bus.Schema.{User, Action, Db}
use waleed_bus.Notifications.{check_refs, new_notification, of_user}
use waleed_bus.Notifications.Send.{
  SendInput, Sent, or_text, audited, broadcast_rows, is_active_user, send_all, send_from_platform,
}

rows-count :
    (fresh : ℕ) (input : SendInput) (u : ℕ) (us : List User)
    → (count (of_user u) (broadcast_rows fresh input us) ≡ count (λ (x : User). x.id == u) us)
      × (length (broadcast_rows fresh input us) ≡ length us)
unfolding count broadcast_rows new_notification
rows-count fresh input u [] = (refl, refl)
rows-count fresh input u (x ∷ xs) =
    let (counted, long) = rows-count (suc fresh) input u xs in
    (ground (arith, counted), omega (arith, long))

active-count :
    (u : ℕ) (us : List User)
    → (count (λ (x : User). x.id == u) (select is_active_user us)
        ≡ count (λ (x : User). x.is_active && x.id == u) us)
      × (length (select is_active_user us) ≡ count is_active_user us)
unfolding count select
active-count u [] = (refl, refl)
active-count u (x ∷ xs) =
    let (counted, long) = active-count u xs in (ground (arith, counted), ground (arith, long))

audited-notifications :
    (actor : Option ℕ) (act : Action) (r : Option ℕ) (db : Db)
    → (audited actor act r db).notifications ≡ db.notifications
audited-notifications none act r db = refl
audited-notifications (some a) act r db = refl

send_all-count :
    (fresh : ℕ) (input : SendInput) (actor : Option ℕ) (db : Db) (us : List User) (u : ℕ)
    → (count (of_user u) ((send_all fresh input actor db us).1).notifications
        ≡ count (of_user u) db.notifications + count (λ (x : User). x.id == u) us)
      × (((send_all fresh input actor db us).0).sent_count ≡ length us)
unfolding count
send_all-count fresh input actor db [] u = (omega arith, refl)
send_all-count fresh input actor db (x ∷ xs) u =
    let rows = broadcast_rows fresh input (x ∷ xs) in
    let (counted, long) = rows-count fresh input u (x ∷ xs) in
    (
      ap (λ ns. count (of_user u) ns) (audited-notifications actor _ _ _)
          ∙ count-append (of_user u) db.notifications rows
          ∙ ap (λ k. count (of_user u) db.notifications + k) counted,
      long,
    )

-- A broadcast reaches the active users and nobody else: when a message to everyone is sent, each
-- user gets one new notification if an account with the id is active and none otherwise, counted
-- over the accounts, and `sentCount` is the number of active accounts.
pub send_from_platform-count :
    (fresh : ℕ) (input : SendInput) (actor : Option ℕ) (db : Db) (sent : Sent) (db' : Db)
    → input.is_global ≡ true
    → send_from_platform fresh input actor db ≡ ok (sent, db')
    → ((u : ℕ)
        → count (of_user u) db'.notifications
          ≡ count (of_user u) db.notifications
            + count (λ (x : User). x.is_active && x.id == u) db.users)
      × (sent.sent_count ≡ count is_active_user db.users)
unfolding send_from_platform
send_from_platform-count fresh input actor db sent db' everyone h =
    let (_, _, h1) =
      >>=-eq-ok (check_refs (or_text input.category) input.trip_id input.promotion_id db) _ h in
    let us = select is_active_user db.users in
    let done : send_all fresh input actor db us ≡ (sent, db') =
      ok_eq (sym (if-true input.is_global _ _ everyone) ∙ h1) in
    (
      (λ u.
          ap (λ (r : Sent × Db). count (of_user u) (r.1).notifications) (sym done)
          ∙ (send_all-count fresh input actor db us u).0
          ∙ ap (λ k. count (of_user u) db.notifications + k) (active-count u db.users).0),
      ap (λ (r : Sent × Db). (r.0).sent_count) (sym done)
          ∙ (send_all-count fresh input actor db us 0).1
          ∙ (active-count 0 db.users).1,
    )
