-- ===== src/Bookings/Shares.antt =====
-- src/bookings/trip-shares.service.ts: the sharing of a trip by a link and a code. The code that
-- `randomInt` draws is an argument.
use waleed_bus.Base.{
  ℕ, ◌+◌, ◌*◌, Bool, not, ◌||◌, none, [], ◌∷◌, ◌++◌, ◌==◌, ltb, if◌then◌else◌, is_some, find?,
  update, Result, ok, err, ◌>>=◌, ◌>>◌, refuse_if, require, coded, booking_not_found, invalid_share,
  share_expired, invalid_share_code, share_rate_limited,
}
use waleed_bus.Base.Text.{Text, text_eq}
use waleed_bus.Schema.{
  Trip, Booking, TripShare, ThrottleKey, Db, is_scheduled, is_completed, is_confirmed, trip_by_id,
  booking_by_id,
}
use waleed_bus.Throttle.{ThrottleBudget, hit}
use waleed_bus.Bookings.Cancel.{owned_booking}

abbrev pub six_hours : ℕ
six_hours = 6 * 3600 * 1000

unfoldable pub share_row : ℕ → Text → Booking → Trip → TripShare
share_row fresh verification_code b t = record {
  id = fresh;
  booking_id = b.id;
  verification_code = verification_code;
  expires_at = t.depart_at + six_hours;
  revoked_at = none;
  view_count = 0;
}

unfoldable pub create_trip_share : ℕ → Text → ℕ → ℕ → Db → Result (TripShare × Db)
create_trip_share fresh verification_code actor booking_id db = do
  b ← owned_booking db actor booking_id
  t ← require (trip_by_id db b.trip_id) 404 booking_not_found
  refuse_if (not (is_confirmed b.status) || not (is_scheduled t.status)) 409 invalid_share
  let share = share_row fresh verification_code b t
  ok (share, record db { shares = db.shares ++ share ∷ [] })

abbrev pub is_share : ℕ → TripShare → Bool
is_share i s = s.id == i

abbrev pub share_budget : ThrottleBudget
share_budget = record { limit = 5; window_ms = 10 * 60 * 1000 }

-- The trip is over, or the booking is off.
abbrev pub is_closed : Booking → Trip → Bool
is_closed b t = is_completed t.status || not (is_confirmed b.status)

unfoldable pub viewed : TripShare → TripShare
viewed s = record s { view_count = s.view_count + 1 }

-- What follows an allowed attempt. The row is joined to its booking and that one's trip.
unfoldable pub open_share : ℕ → ℕ → Text → Db → Result ((TripShare × Booking × Trip) × Db)
open_share now i verification_code db = do
  s ← require (find? (is_share i) db.shares) 404 invalid_share
  refuse_if (is_some s.revoked_at) 404 invalid_share
  b ← require (booking_by_id db s.booking_id) 404 invalid_share
  t ← require (trip_by_id db b.trip_id) 404 invalid_share
  refuse_if (ltb s.expires_at now || is_closed b t) 410 share_expired
  refuse_if (not (text_eq s.verification_code verification_code)) 400 invalid_share_code
  ok ((s, b, t), record db { shares = update (is_share i) viewed db.shares })

abbrev pub committed : {A : Type 0} → Db → Result (A × Db) → Result A × Db
committed db (ok (a, db')) = (ok a, db')
committed db (err e) = (err e, db)

-- The hit on the throttle is kept whatever follows.
unfoldable pub verify_trip_share : ℕ → ℕ → Text → Db → Result (TripShare × Booking × Trip) × Db
unfolding open_share
verify_trip_share now i verification_code db =
    let (verdict, db') = hit (ThrottleKey.share_verify i) share_budget now db in
    if not verdict.allowed
    then (err (coded 429 (share_rate_limited verdict.retry_after_seconds)), db')
    else committed db' (open_share now i verification_code db')
