-- ===== src/Otp.antt =====
-- src/passenger-auth/otp.service.ts: the challenges that verify a phone number.
pub mod Verify
pub mod Guesses
pub mod SingleUse
use waleed_bus.Base.{
  ℕ, ◌+◌, ◌-◌, ◌*◌, ◌/◌, max, Bool, true, false, not, ◌&&◌, Option, none, some, leb, ltb,
  if◌then◌else◌, is_none, is_some, find?, upsert, Result, ok, err, coded, otp_rate_limited,
}
use waleed_bus.Base.Text.{Text, text_eq}
use waleed_bus.Schema.{Challenge, OtpPurpose, Action, Db, is_phone_change, log}

abbrev pub otp_lifetime_ms : ℕ
otp_lifetime_ms = 5 * 60000

abbrev pub otp_resend_cooldown_ms : ℕ
otp_resend_cooldown_ms = 60000

abbrev pub otp_max_guesses : ℕ
otp_max_guesses = 5

abbrev pub for_phone : Text → Challenge → Bool
for_phone phone c = text_eq c.phone_number phone

abbrev pub challenge_of : Text → Db → Option Challenge
challenge_of phone db = find? (for_phone phone) db.challenges

-- Neither consumed nor expired.
abbrev pub is_live : Challenge → ℕ → Bool
is_live c now = is_none c.consumed_at && ltb now c.expires_at

unfoldable pub has_active_challenge : Text → ℕ → Db → Bool
has_active_challenge phone now db = elim (challenge_of phone db) [
  | none ↦ false
  | some c ↦ is_live c now
]

-- A live challenge was sent less than a minute ago.
abbrev pub cooling : Option Challenge → ℕ → Bool
cooling none now = false
cooling (some c) now = is_live c now && ltb now (c.last_sent_at + otp_resend_cooldown_ms)

abbrev pub cooldown_left : Option Challenge → ℕ → ℕ
cooldown_left none now = 1
cooldown_left (some c) now = max 1 ((c.last_sent_at + otp_resend_cooldown_ms - now + 999) / 1000)

-- The live challenge whose account a public resend must keep.
unfoldable pub bound_challenge : Option Challenge → Option ℕ → ℕ → Option Challenge
bound_challenge none user now = none
bound_challenge (some c) user now =
    if is_live c now && is_some c.user_id && is_none user then some c else none

-- What the challenge becomes: bound to the old account, or to the one that is given.
unfoldable pub sent_challenge : Text → OtpPurpose → Option ℕ → ℕ → ℕ → Option Challenge → Challenge
sent_challenge phone purpose user now lifetime none = record {
  phone_number = phone;
  purpose = purpose;
  user_id = user;
  expires_at = now + lifetime;
  attempts = 0;
  consumed_at = none;
  last_sent_at = now;
}
sent_challenge phone purpose user now lifetime (some b) = record {
  phone_number = phone;
  purpose = b.purpose;
  user_id = b.user_id;
  expires_at = if is_phone_change b.purpose then b.expires_at else now + lifetime;
  attempts = 0;
  consumed_at = none;
  last_sent_at = now;
}

-- The seconds that the code is good for, and the new state.
unfoldable pub open_challenge : Text → OtpPurpose → Option ℕ → ℕ → ℕ → Db → Result (ℕ × Db)
unfolding bound_challenge sent_challenge
open_challenge phone purpose user now lifetime db =
    let existing = challenge_of phone db in
    if cooling existing now
    then err (coded 429 (otp_rate_limited (cooldown_left existing now)))
    else (let sent =
          sent_challenge phone purpose user now lifetime (bound_challenge existing user now) in
        ok (
          max 1 ((sent.expires_at - now) / 1000),
          log none Action.otp_send none
              (record db { challenges = upsert (for_phone phone) (λ c. sent) sent db.challenges }),
        ))
