-- ===== src/Base/Outcome.antt =====
-- The result of a handler: a value, or the exception that it throws with its status and code.
use Prim.Native.Nat.{ℕ}
use mathlib.Core.Path.{◌≡◌, refl}
use mathlib.Core.Logic.{◌⊎◌, inl, inr}
use mathlib.Core.Bool.{Bool, true, false}
use mathlib.Core.Option.{Option, none, some}
use waleed_bus.Base.Tests.{if◌then◌else◌}

-- The codes of the exceptions (`CodedException`), with the details or the retry delay that some
-- carry. `not_found`, `forbidden` and `server_error` stand for the framework's own exceptions.
pub data Code : Type 0 where
  phone_not_verified trip_not_found trip_not_bookable trip_already_started : Code
  trip_route_missing invalid_trip_stops validation_failed seats_unavailable : Code
  promo_exhausted promo_already_used invalid_promo_value invalid_promo_code : Code
  booking_not_found booking_already_cancelled booking_not_cancellable invalid_seat_count : Code
  booking_not_cancelled justification_required : Code
  payment_already_settled payment_amount_mismatch : Code
  refund_not_eligible refund_exceeds_balance : Code
  trip_access_denied booking_not_on_trip invalid_trip_state invalid_dropoff_state : Code
  payment_not_allowed driver_not_assigned bus_access_denied driver_assignment_not_allowed : Code
  forbidden rating_not_allowed not_found server_error : Code
  otp_invalid otp_expired phone_unavailable authentication_failed phone_already_registered : Code
  resource_not_owned bus_action_not_allowed route_not_assigned_to_bus : Code
  invalid_promo_window invalid_promo_targets promo_code_exists promotion_not_found : Code
  invalid_notification_ref invalid_notification_category : Code
  invalid_notification_target notification_not_found user_not_found : Code
  duplicate_stop invalid_stop stop_in_use direction_in_use trip_line_in_use
        trip_line_not_available :
      Code
  favorite_already_exists favorite_not_found favorite_target_not_available : Code
  config_entry_not_found conflict : Code
  invalid_share share_expired invalid_share_code : Code
  invalid_config_value invalid_config_type config_too_large : Code
  duplicate_time_booking : ℕ → ℕ → Code
  booking_seat_limit_exceeded otp_rate_limited share_rate_limited : ℕ → Code

pub data Error : Type 0 where
  coded : ℕ → Code → Error

-- What a handler returns, or the exception that it throws.
pub data Result {ℓ} (R : Type ℓ) : Type ℓ where
  err : (thrown : Error) → Result R
  ok : (response : R) → Result R

-- The rest of a handler runs only if what comes before it has not thrown.
infixl 5 ◌>>=◌
abbrev pub ◌>>=◌ {ℓ κ} : {R : Type ℓ} {S : Type κ} → Result R → (R → Result S) → Result S
err thrown >>= rest = err thrown
ok response >>= rest = rest response

infixl 5 ◌>>◌
abbrev pub ◌>>◌ {κ} : {S : Type κ} → Result (Unit {0}) → Result S → Result S
check >> rest = check >>= λ done. rest

-- `if (test) throw new CodedException(status, code)`.
abbrev pub refuse_if : Bool → ℕ → Code → Result (Unit {0})
refuse_if true status c = err (coded status c)
refuse_if false status c = ok tt

-- `if (!row) throw new CodedException(status, code)`.
abbrev pub require {ℓ} : {A : Type ℓ} → Option A → ℕ → Code → Result A
require none status c = err (coded status c)
require (some a) status c = ok a

-- What a successful chain has passed through.
pub >>=-eq-ok {ℓ κ} :
    {R : Type ℓ} {S : Type κ} (call : Result R) (rest : R → Result S) {last : S}
    → call >>= rest ≡ ok last
    → (response : R) × (call ≡ ok response) × (rest response ≡ ok last)
>>=-eq-ok (err thrown) rest h = cc
>>=-eq-ok (ok response) rest h = (response, refl, h)

pub refuse_if-eq-ok {ℓ} :
    {B : Type ℓ} (t : Bool) (status : ℕ) (c : Code) (k : Result B) {b : B}
    → (refuse_if t status c >> k) ≡ ok b
    → (t ≡ false) × (k ≡ ok b)
refuse_if-eq-ok true status c k h = cc
refuse_if-eq-ok false status c k h = (refl, h)

pub require-eq-ok {ℓ κ} :
    {A : Type ℓ} {B : Type κ} (o : Option A) (status : ℕ) (c : Code) (f : A → Result B) {b : B}
    → (require o status c >>= f) ≡ ok b
    → (a : A) × (o ≡ some a) × (f a ≡ ok b)
require-eq-ok none status c f h = cc
require-eq-ok (some a) status c f h = (a, refl, h)

-- Two handlers that return the same have the same response and the same state.
pub ok_pair {ℓ κ} :
    {A : Type ℓ} {S : Type κ} {a b : A} {s t : S}
    → ◌≡◌ {A = Result (A × S)} (ok (a, s)) (ok (b, t))
    → (a ≡ b) × (s ≡ t)
ok_pair h = (cc, cc)

pub refuse_if-ok : (t : Bool) (status : ℕ) (c : Code) → refuse_if t status c ≡ ok tt → t ≡ false
refuse_if-ok true status c h = cc
refuse_if-ok false status c h = refl

pub ok_eq {ℓ} : {A : Type ℓ} {a b : A} → ◌≡◌ {A = Result A} (ok a) (ok b) → a ≡ b
ok_eq h = cc

-- A successful conditional has taken one of its branches.
pub if-eq {ℓ} :
    {A : Type ℓ} (t : Bool) (x y : A) {r : A}
    → (if t then x else y) ≡ r
    → ((t ≡ true) × (x ≡ r)) ⊎ ((t ≡ false) × (y ≡ r))
if-eq true x y h = inl (refl, h)
if-eq false x y h = inr (refl, h)

abbrev pub is_ok {ℓ} : {A : Type ℓ} → Result A → Bool
is_ok (ok a) = true
is_ok (err e) = false

pub is_ok-ok {ℓ κ} :
    {A : Type ℓ} {S : Type κ} (m : Result (A × S))
    → is_ok m ≡ true
    → (a : A) × (s : S) × (m ≡ ok (a, s))
is_ok-ok (ok (a, s)) h = (a, s, refl)
is_ok-ok (err e) h = cc

pub if_else_err {ℓ} :
    {A : Type ℓ} (t : Bool) (a b : A) (e : Error) → (if t then ok a else err e) ≡ ok b → ok a ≡ ok b
if_else_err true a b e h = h
if_else_err false a b e h = cc

-- The value of a success.
pub ok_value {ℓ} : {A : Type ℓ} (m : Result A) → is_ok m ≡ true → (a : A) × (m ≡ ok a)
ok_value (ok a) h = (a, refl)
ok_value (err e) h = cc
