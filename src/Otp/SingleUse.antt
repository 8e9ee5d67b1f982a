-- ===== src/Otp/SingleUse.antt =====
-- A code that has been accepted is spent.
use waleed_bus.Base.{
  ℕ, ◌≡◌, refl, sym, ap, ◌∙◌, Bool, true, false, not, ◌&&◌, Option, some, none, inl, inr, Result,
  Error, ok, err, coded, otp_invalid, leb, is_some, is_none, find?, if-eq, ok_eq, if◌then◌else◌,
  >>=-eq-ok,
}
use waleed_bus.Base.Text.{Text, text_eq}
use waleed_bus.Schema.{Challenge, Db, is_phone_change, user_by_id}
use waleed_bus.Otp.{for_phone, challenge_of, otp_max_guesses}
use waleed_bus.Otp.Verify.{
  consume, stamp, settle, settle_user, verify_row, verify_tx, conclude, verify_challenge,
  changes_phone, is_another, phone_owner,
}
use waleed_bus.Otp.Guesses.{challenge-consume}

ok-err : {A : Type 0} {e : Error} {a : A} → ◌≡◌ {A = Result A} (err e) (ok a) → ⊥
ok-err h = cc

-- What follows a right guess writes no challenge.
stamp-challenges :
    (phone : Text) (now user : ℕ) (db db' : Db)
    → stamp phone now user db ≡ ok db'
    → db'.challenges ≡ db.challenges
unfolding stamp
stamp-challenges phone now user db db' h = elim (if-eq (is_none (user_by_id db user)) _ _ h) [
  | inl (_, e) ↦ cc
  | inr (_, e) ↦ elim (if-eq (is_another (phone_owner phone db) user) _ _ e) [
    | inl (_, k) ↦ cc
    | inr (_, k) ↦ sym (ap (λ (d : Db). d.challenges) (ok_eq k))
  ]
]

settle_user-challenges :
    (phone : Text) (now : ℕ) (c : Challenge) (db : Db) (o : Option ℕ) (r : Result (Option ℕ) × Db)
    → settle_user phone now c db o ≡ ok r
    → (r.1).challenges ≡ db.challenges
settle_user-challenges phone now c db none r h =
    sym (ap (λ (x : Result (Option ℕ) × Db). (x.1).challenges) (ok_eq h))
settle_user-challenges phone now c db (some user) r h =
    elim (if-eq
      (is_phone_change c.purpose
        && changes_phone (user_by_id db user) phone
        && is_another (phone_owner phone db) user)
      _ _ h) [
        | inl (_, e) ↦ sym (ap (λ (x : Result (Option ℕ) × Db). (x.1).challenges) (ok_eq e))
        | inr (_, e) ↦
            let (d, stamped, last) = >>=-eq-ok (stamp phone now user db) _ e in
            sym (ap (λ (x : Result (Option ℕ) × Db). (x.1).challenges) (ok_eq last))
            ∙ stamp-challenges phone now user db d stamped
      ]

-- The transaction behind an answer that is a success.
conclude-ok :
    (db : Db) (m : Result (Result (Option ℕ) × Db)) (u : Option ℕ)
    → (conclude db m).0 ≡ ok u
    → (d : Db) × (m ≡ ok (ok u, d)) × ((conclude db m).1.challenges ≡ d.challenges)
conclude-ok db (ok (ok v, d)) u h = (d, cc, refl)
conclude-ok db (ok (err e, d)) u h = absurd (ok-err h)
conclude-ok db (err e) u h = absurd (ok-err h)

-- Past a guard that answers with a failure.
past_guard :
    {u : Option ℕ} {d : Db} (t : Bool) (e : Error) (a : Db) (y : Result (Result (Option ℕ) × Db))
    → (if t then ok (err e, a) else y) ≡ ok (ok u, d)
    → y ≡ ok (ok u, d)
past_guard true e a y h = absurd (ok-err (ap (λ (r : Result (Option ℕ) × Db). r.0) (ok_eq h)))
past_guard false e a y h = h

-- A guess that succeeds consumes the challenge.
verify_row-consumes :
    (fixed phone otp : Text) (now : ℕ) (db : Db) (c : Challenge) (u : Option ℕ) (d : Db)
    → verify_row fixed phone otp now db (some c) ≡ ok (ok u, d)
    → d.challenges ≡ (consume phone now db).challenges
unfolding settle
verify_row-consumes fixed phone otp now db c u d h =
    let h1 = past_guard (is_some c.consumed_at) _ _ _ h in
    let h2 = past_guard (leb c.expires_at now) _ _ _ h1 in
    let h3 = past_guard (leb otp_max_guesses c.attempts) _ _ _ h2 in
    let h4 = past_guard (not (text_eq otp fixed)) _ _ _ h3 in
    settle_user-challenges phone now c (consume phone now db) c.user_id (ok u, d) h4

module _ (fixed phone otp : Text) (now : ℕ) (db : Db) where
  row-consumed :
      (o : Option Challenge) (u : Option ℕ) (d : Db)
      → challenge_of phone db ≡ o
      → verify_row fixed phone otp now db o ≡ ok (ok u, d)
      → (c : Challenge) × (find? (for_phone phone) d.challenges ≡ some c)
        × (is_some c.consumed_at ≡ true)
  row-consumed none u d found h =
      absurd (ok-err (ap (λ (r : Result (Option ℕ) × Db). r.0) (ok_eq h)))
  row-consumed (some c) u d found h = (
    record c { consumed_at = some now },
    ap (λ cs. find? (for_phone phone) cs) (verify_row-consumes fixed phone otp now db c u d h)
        ∙ challenge-consume phone now db c found,
    refl,
  )

  consumed-refused :
      (again : Text) (later : ℕ) (d : Db) (c : Challenge)
      → find? (for_phone phone) d.challenges ≡ some c
      → is_some c.consumed_at ≡ true
      → (verify_challenge fixed phone again later d).0 ≡ err (coded 404 otp_invalid)
  unfolding verify_challenge verify_tx
  consumed-refused again later d c found used = rw (found, used) refl

  -- A challenge verifies once: after a guess that succeeded, every later guess at it is refused
  -- with OTP_INVALID, whichever code it gives.
  pub verify-verify :
      (u : Option ℕ) (again : Text) (later : ℕ)
      → (verify_challenge fixed phone otp now db).0 ≡ ok u
      → (verify_challenge fixed phone again later (verify_challenge fixed phone otp now db).1).0
        ≡ err (coded 404 otp_invalid)
  unfolding verify_challenge verify_tx
  verify-verify u again later h =
      let row = verify_row fixed phone otp now db (challenge_of phone db) in
      let (d, e, same) = conclude-ok db row u h in
      let (c, found, used) = row-consumed (challenge_of phone db) u d refl e in
      consumed-refused again later (conclude db row).1 c
        (ap (λ cs. find? (for_phone phone) cs) same ∙ found) used
