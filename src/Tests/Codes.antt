-- ===== src/Tests/Codes.antt =====
-- One-time codes, the throttle, phone numbers and promo codes.
use waleed_bus.Base.{
  ℕ, ◌≡◌, refl, min, max, ◌+◌, Bool, true, List, [], ◌∷◌, Option, some, none, Result, Error, ok,
  err, coded, arith, AllRows, length, otp_invalid,
}
use waleed_bus.Base.Text.{Text}
use waleed_bus.Schema.{ThrottleKey}
use waleed_bus.Otp.{challenge_of}
use waleed_bus.Otp.Verify.{verify_challenge}
use waleed_bus.Otp.Guesses.{guess_all, IsMiss, guess_all-verify}
use waleed_bus.Otp.SingleUse.{verify-verify}
use waleed_bus.Throttle.{ThrottleBudget, counter, peek, hit}
use waleed_bus.Throttle.Window.{allowed_hits, allowed_hits-window, is_stale, WithinWindow, peek-hit}
use waleed_bus.Phone.{is_canonical, normalize_phone}
use waleed_bus.Phone.Canonical.{normalize_phone-canonical}
use waleed_bus.Promotions.Code.{code_pattern, normalize_promo_code}
use waleed_bus.Promotions.NormalForm.{normalize-normalize}
use waleed_bus.Tests.Sample.{booked, challenge, phone, save5}

abbrev fixed_code : Text
fixed_code = b'1' ∷ b'2' ∷ b'3' ∷ b'4' ∷ []

abbrev wrong_code : Text
wrong_code = b'0' ∷ b'0' ∷ b'0' ∷ b'0' ∷ []

abbrev guesses : List (Text × ℕ)
guesses =
    (wrong_code, 1) ∷ (wrong_code, 2) ∷ (wrong_code, 3) ∷ (wrong_code, 4) ∷ (wrong_code, 5) ∷ []

stored_challenge : challenge_of phone booked ≡ some challenge
unfolding waleed_bus.Base.find? waleed_bus.Base.Text.text_eq
stored_challenge = refl

wrong_guesses : AllRows (IsMiss fixed_code phone 300000) guesses
unfolding waleed_bus.Base.Text.text_eq
wrong_guesses = ground arith

guess_all-verify_example :
    (e : Error) × ((verify_challenge fixed_code phone fixed_code 6
        (guess_all fixed_code phone guesses booked)).0
      ≡ err e)
guess_all-verify_example =
    guess_all-verify fixed_code phone guesses challenge booked fixed_code 6 stored_challenge refl
      wrong_guesses

verified_once : (verify_challenge fixed_code phone fixed_code 6 booked).0 ≡ ok none
unfolding verify_challenge waleed_bus.Otp.Verify.verify_tx waleed_bus.Otp.Verify.settle
    waleed_bus.Base.find? waleed_bus.Base.Text.text_eq
verified_once = refl

verify-verify_example :
    (verify_challenge fixed_code phone fixed_code 7
      (verify_challenge fixed_code phone fixed_code 6 booked).1).0
    ≡ err (coded 404 otp_invalid)
verify-verify_example =
    verify-verify fixed_code phone fixed_code 6 booked none fixed_code 7 verified_once

abbrev login_key : ThrottleKey
login_key = ThrottleKey.named (b'L' ∷ [])

-- Two hits in a second.
abbrev budget : ThrottleBudget
budget = record { limit = 2; window_ms = 1000 }

no_window : is_stale login_key budget (counter login_key booked) 100 ≡ true
unfolding waleed_bus.Base.find?
no_window = refl

in_window : WithinWindow (100 + 1000) (200 ∷ 300 ∷ 400 ∷ [])
in_window = ground arith

allowed_hits-window_example : allowed_hits login_key budget (100 ∷ 200 ∷ 300 ∷ 400 ∷ []) booked ≡ 2
allowed_hits-window_example =
    allowed_hits-window login_key budget 100 (200 ∷ 300 ∷ 400 ∷ []) booked no_window in_window

peek-hit_example : peek login_key budget 100 booked ≡ (hit login_key budget 100 booked).0
peek-hit_example = peek-hit login_key budget 100 booked

-- "+20 101-234-5678".
abbrev written_phone : Text
written_phone =
    b'+' ∷ b'2' ∷ b'0' ∷ b' ' ∷ b'1' ∷ b'0' ∷ b'1' ∷ b'-' ∷ b'2' ∷ b'3' ∷ b'4' ∷ b'-' ∷ b'5' ∷ b'6'
    ∷ b'7' ∷ b'8' ∷ []

phone_read : normalize_phone written_phone ≡ some phone
unfolding normalize_phone waleed_bus.Phone.to_local waleed_bus.Phone.compact is_canonical
    waleed_bus.Base.Text.trim waleed_bus.Base.Text.drop_spaces waleed_bus.Base.Text.is_space
    waleed_bus.Base.Text.every waleed_bus.Base.Text.is_digit
phone_read = refl

normalize_phone-canonical_example :
    (is_canonical phone ≡ true) × (normalize_phone phone ≡ some phone)
normalize_phone-canonical_example = normalize_phone-canonical written_phone phone phone_read

-- " Save5 ".
abbrev written_code : Text
written_code = b' ' ∷ b'S' ∷ b'a' ∷ b'v' ∷ b'e' ∷ b'5' ∷ b' ' ∷ []

code_read : normalize_promo_code written_code ≡ ok save5
unfolding normalize_promo_code waleed_bus.Promotions.Code.to_upper_case
    waleed_bus.Promotions.Code.upper_unit waleed_bus.Promotions.Code.is_code_unit code_pattern
    waleed_bus.Base.Text.trim waleed_bus.Base.Text.drop_spaces waleed_bus.Base.Text.is_space
    waleed_bus.Base.Text.every
code_read = refl

normalize-normalize_example : (code_pattern save5 ≡ true) × (normalize_promo_code save5 ≡ ok save5)
normalize-normalize_example = normalize-normalize written_code save5 code_read
