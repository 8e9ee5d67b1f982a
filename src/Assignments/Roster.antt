-- ===== src/Assignments/Roster.antt =====
-- src/fleet-owner/driver-roster.service.ts: the drivers of a fleet. The hash of a password is a
-- parameter. An account that `add` makes is written before the fleet is reached, and stays when
-- the rest fails.
use waleed_bus.Base.{
  ℕ, Bool, true, not, ◌&&◌, ◌||◌, Option, none, some, List, [], ◌∷◌, ◌++◌, ◌==◌, ltb, if◌then◌else◌,
  is_none, is_some, find?, update, update_many, delete_many, length, Result, ok, err, ◌>>=◌, ◌>>◌,
  refuse_if, require, coded, resource_not_owned, driver_assignment_not_allowed, validation_failed,
  phone_already_registered, conflict,
}
use waleed_bus.Base.Text.{Text, text_eq, truthy}
use waleed_bus.Schema.{
  User, Role, Permission, FleetMember, MemberStatus, BusAssignment, Action, Db, is_active,
  user_by_id, log,
}
use waleed_bus.Phone.{normalize_phone}
use waleed_bus.Driver.Anchor.{FleetContext, fleet_path}
use waleed_bus.Otp.Verify.{phone_owner}
use waleed_bus.Assignments.{driver_slug, ended_row, invalidate_sessions, with_assignments}

-- `AddDriverInput`.
pub record DriverInput : Type 0 where
  pub user_id : Option ℕ
  pub name : Option Text
  pub nickname : Option Text
  pub phone : Option Text
  pub national_id : Option Text
  pub picture : Option Text
  pub password : Option Text
  pub role_slug : Option Text

-- "driver.context.read".
abbrev pub context_permission : Text
context_permission =
    b'd' ∷ b'r' ∷ b'i' ∷ b'v' ∷ b'e' ∷ b'r' ∷ b'.' ∷ b'c' ∷ b'o' ∷ b'n' ∷ b't' ∷ b'e' ∷ b'x' ∷ b't'
    ∷ b'.' ∷ b'r' ∷ b'e' ∷ b'a' ∷ b'd' ∷ []

abbrev pub grants_context : Permission → Bool
grants_context p = text_eq p.key context_permission && p.is_active

-- `resolveDriverRole`: an active role that is not the system's, and that a driver can hold.
unfoldable pub resolve_driver_role : Db → Text → Result Role
resolve_driver_role db slug = do
  r ← require (find? (λ (r : Role). text_eq r.slug slug) db.roles) 404 resource_not_owned
  refuse_if (not r.is_active || r.is_system) 404 resource_not_owned
  refuse_if (is_none (find? grants_context r.permissions)) 409 driver_assignment_not_allowed
  ok r

abbrev pub with_users : Db → List User → Db
with_users db us = record db { users = us }

abbrev pub with_members : Db → List FleetMember → Db
with_members db ms = record db { members = ms }

module _ (hash : Text → Text) (fresh now : ℕ) where
  unfoldable pub new_driver : DriverInput → Text → Text → User
  new_driver input phone password = record {
    id = fresh;
    name = input.name;
    nickname = input.nickname;
    phone_number = some phone;
    phone_verified_at = some now;
    national_id = input.national_id;
    picture = input.picture;
    password_hash = some (hash password);
    max_booking_seats = none;
    is_active = true;
    auth_version = 1;
  }

  -- A new account for the number, which no other has.
  unfoldable pub open_account : DriverInput → Text → Text → Db → Result (ℕ × Db)
  open_account input written password db = do
    phone ← require (normalize_phone written) 422 validation_failed
    refuse_if (ltb (length password) 8 || ltb 128 (length password)) 422 validation_failed
    refuse_if (is_some (phone_owner phone db)) 409 phone_already_registered
    ok (fresh, with_users db (db.users ++ new_driver input phone password ∷ []))

  -- `resolveTargetUser`: an account that is there, or a new one.
  abbrev pub resolve_new : DriverInput → Option Text → Option Text → Db → Result (ℕ × Db)
  resolve_new input (some written) (some password) db = open_account input written password db
  resolve_new input _ _ db = err (coded 422 validation_failed)

  abbrev pub resolve_target : DriverInput → Option ℕ → Db → Result (ℕ × Db)
  resolve_target input none db = resolve_new input (truthy input.phone) (truthy input.password) db
  resolve_target input (some user) db = do
    u ← require (user_by_id db user) 404 resource_not_owned
    refuse_if (not u.is_active) 404 resource_not_owned
    ok (u.id, db)

-- One membership of a fleet for each user.
unfoldable pub insert_member : FleetMember → Db → Result (FleetMember × Db)
insert_member m db =
    if is_some
      (find? (λ (o : FleetMember). o.user_id == m.user_id && o.fleet_id == m.fleet_id) db.members)
    then err (coded 409 conflict)
    else ok (m, with_members db (db.members ++ m ∷ []))

abbrev pub slug_or_driver : Option Text → Text
slug_or_driver none = driver_slug
slug_or_driver (some slug) = slug

-- The path to the fleet and the membership, for the account that the request names.
unfoldable pub enrol : ℕ → FleetContext → ℕ → Option Text → ℕ × Db → Result (FleetMember × Db)
enrol fresh ctx actor slug target = do
  fleet_path ctx
  r ← resolve_driver_role target.1 (slug_or_driver slug)
  insert_member
      (record {
        id = fresh;
        user_id = target.0;
        fleet_id = ctx.fleet_id;
        role_id = r.id;
        status = MemberStatus.active;
        assigned_by = some actor;
      })
      target.1

-- The outcome of the second step; a failure keeps what the first has written.
abbrev pub finish_add : ℕ → ℕ → Db → Result (FleetMember × Db) → Result FleetMember × Db
finish_add now actor db (err e) = (err e, db)
finish_add now actor db (ok (m, db')) =
    (ok m, log (some actor) Action.driver_add (some m.id) (invalidate_sessions now m.user_id db'))

abbrev pub add_target :
    ℕ → ℕ → FleetContext → ℕ → Option Text → Db → Result (ℕ × Db) → Result FleetMember × Db
add_target fresh now ctx actor slug db (err e) = (err e, db)
add_target fresh now ctx actor slug db (ok target) =
    finish_add now actor target.1 (enrol fresh ctx actor slug target)

unfoldable pub add :
    (Text → Text) → ℕ → ℕ → ℕ → FleetContext → ℕ → DriverInput → Db → Result FleetMember × Db
add hash fresh_user fresh now ctx actor input db =
    add_target fresh now ctx actor input.role_slug db
      (resolve_target hash fresh_user now input input.user_id db)

abbrev pub is_row : ℕ → FleetMember → Bool
is_row i m = m.id == i

abbrev pub is_row_of : ℕ → ℕ → FleetMember → Bool
is_row_of i fleet m = m.id == i && m.fleet_id == fleet

-- "ACTIVE", "SUSPENDED" and "REVOKED".
abbrev pub active_word : Text
active_word = b'A' ∷ b'C' ∷ b'T' ∷ b'I' ∷ b'V' ∷ b'E' ∷ []

abbrev pub suspended_word : Text
suspended_word = b'S' ∷ b'U' ∷ b'S' ∷ b'P' ∷ b'E' ∷ b'N' ∷ b'D' ∷ b'E' ∷ b'D' ∷ []

abbrev pub revoked_word : Text
revoked_word = b'R' ∷ b'E' ∷ b'V' ∷ b'O' ∷ b'K' ∷ b'E' ∷ b'D' ∷ []

unfoldable pub status_of : Text → Option MemberStatus
status_of w =
    if text_eq w active_word
    then some MemberStatus.active
    else if text_eq w suspended_word
    then some MemberStatus.suspended
    else if text_eq w revoked_word
    then some MemberStatus.revoked
    else none

-- What a request changes, or leaves as it is.
abbrev pub change_role : Db → Option Text → FleetMember → Result FleetMember
change_role db none m = ok m
change_role db (some slug) m = resolve_driver_role db slug >>= λ r. ok (record m { role_id = r.id })

abbrev pub change_status : Option Text → FleetMember → Result FleetMember
change_status none m = ok m
change_status (some w) m =
    require (status_of w) 422 validation_failed >>= λ s. ok (record m { status = s })

unfoldable pub update_driver :
    ℕ → FleetContext → ℕ → ℕ → Option Text → Option Text → Db → Result (FleetMember × Db)
update_driver now ctx actor member slug status db = do
  fleet_path ctx
  m ← require (find? (is_row_of member ctx.fleet_id) db.members) 404 resource_not_owned
  with_role ← change_role db (truthy slug) m
  new ← change_status (truthy status) with_role
  let db' = with_members db (update (is_row member) (λ _. new) db.members)
  ok (
    new,
    log (some actor) Action.driver_update (some new.id) (invalidate_sessions now new.user_id db'),
  )

-- The active rows of a driver in a fleet.
abbrev pub active_in : ℕ → ℕ → BusAssignment → Bool
active_in driver fleet a = a.driver_user_id == driver && a.fleet_id == fleet && is_active a.status

unfoldable pub remove_driver : ℕ → FleetContext → ℕ → ℕ → Db → Result (FleetMember × Db)
remove_driver now ctx actor member db = do
  fleet_path ctx
  m ← require (find? (is_row_of member ctx.fleet_id) db.members) 404 resource_not_owned
  let ended = update_many (active_in m.user_id ctx.fleet_id) (ended_row now) db.assignments
  let db' = with_members (with_assignments db ended) (delete_many (is_row member) db.members)
  ok (m, log (some actor) Action.driver_remove (some m.id) (invalidate_sessions now m.user_id db'))
