-- ===== src/Otp/Verify.antt =====
-- src/passenger-auth/otp.service.ts: `verifyChallenge`. A failed guess is an outcome of the
-- transaction, which commits what it has written; an exception rolls it back. The fixed code of the
-- configuration is an argument.
use waleed_bus.Base.{
  ℕ, ◌+◌, Bool, false, not, ◌&&◌, Option, none, some, ◌==◌, leb, if◌then◌else◌, is_none, is_some,
  find?, update, Result, ok, err, ◌>>=◌, coded, otp_invalid, otp_expired, phone_unavailable,
  server_error, not_found,
}
use waleed_bus.Base.Text.{Text, text_eq}
use waleed_bus.Schema.{User, Challenge, Action, Db, is_phone_change, user_by_id, log}
use waleed_bus.Otp.{otp_max_guesses, for_phone, challenge_of}

abbrev pub has_phone : Text → User → Bool
has_phone phone u = elim u.phone_number [ none ↦ false | some p ↦ text_eq p phone ]

abbrev pub phone_owner : Text → Db → Option User
phone_owner phone db = find? (has_phone phone) db.users

-- `taken && taken.id !== userId`.
abbrev pub is_another : Option User → ℕ → Bool
is_another none i = false
is_another (some u) i = not (u.id == i)

-- `owner && owner.phoneNumber !== phoneNumber`.
abbrev pub changes_phone : Option User → Text → Bool
changes_phone none phone = false
changes_phone (some u) phone = not (has_phone phone u)

unfoldable pub stamped_user : Text → ℕ → User → User
stamped_user phone now u = record u { phone_number = some phone; phone_verified_at = some now }

-- The account takes the verified number. The row must exist, and no other may hold the number,
-- which is unique.
unfoldable pub stamp : Text → ℕ → ℕ → Db → Result Db
stamp phone now user db =
    if is_none (user_by_id db user)
    then err (coded 404 not_found)
    else if is_another (phone_owner phone db) user
    then err (coded 500 server_error)
    else ok (record db { users = update (λ u. u.id == user) (stamped_user phone now) db.users })

-- `attempts: { increment: 1 }`.
unfoldable pub miss : Text → Db → Db
miss phone db = record db {
  challenges = update (for_phone phone) (λ c. record c { attempts = c.attempts + 1 }) db.challenges;
}

-- `consumedAt: now`.
unfoldable pub consume : Text → ℕ → Db → Db
consume phone now db = record db {
  challenges = update (for_phone phone) (λ c. record c { consumed_at = some now }) db.challenges;
}

-- The account of the challenge, if it has one.
abbrev pub settle_user : Text → ℕ → Challenge → Db → Option ℕ → Result (Result (Option ℕ) × Db)
settle_user phone now c db none = ok (ok none, db)
settle_user phone now c db (some user) =
    if is_phone_change c.purpose
      && changes_phone (user_by_id db user) phone
      && is_another (phone_owner phone db) user
    then ok (err (coded 409 phone_unavailable), db)
    else (stamp phone now user db >>= λ d. ok (ok (some user), d))

-- What follows a right guess, in the state where the challenge is consumed.
unfoldable pub settle : Text → ℕ → Challenge → Db → Result (Result (Option ℕ) × Db)
unfolding stamp
settle phone now c db = settle_user phone now c db c.user_id

-- The guess at a challenge, by the guards in their order.
abbrev pub verify_row :
    Text → Text → Text → ℕ → Db → Option Challenge → Result (Result (Option ℕ) × Db)
verify_row fixed phone otp now db none = ok (err (coded 404 otp_invalid), db)
verify_row fixed phone otp now db (some c) =
    if is_some c.consumed_at
    then ok (err (coded 404 otp_invalid), db)
    else if leb c.expires_at now
    then ok (err (coded 410 otp_expired), db)
    else if leb otp_max_guesses c.attempts
    then ok (err (coded 404 otp_invalid), consume phone now db)
    else if not (text_eq otp fixed)
    then ok (err (coded 404 otp_invalid), miss phone db)
    else settle phone now c (consume phone now db)

-- The transaction: its outcome and its writes.
unfoldable pub verify_tx : Text → Text → Text → ℕ → Db → Result (Result (Option ℕ) × Db)
verify_tx fixed phone otp now db = verify_row fixed phone otp now db (challenge_of phone db)

-- The audit of an outcome.
abbrev pub audited : Result (Option ℕ) → Db → Result (Option ℕ) × Db
audited (ok user) db = (ok user, log none Action.otp_verify_success none db)
audited (err e) db = (err e, log none Action.otp_verify_failure none db)

abbrev pub conclude : Db → Result (Result (Option ℕ) × Db) → Result (Option ℕ) × Db
conclude db (ok (outcome, db')) = audited outcome db'
conclude db (err e) = (err e, db)

unfoldable pub verify_challenge : Text → Text → Text → ℕ → Db → Result (Option ℕ) × Db
verify_challenge fixed phone otp now db = conclude db (verify_tx fixed phone otp now db)
