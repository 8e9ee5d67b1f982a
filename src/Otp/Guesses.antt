-- ===== src/Otp/Guesses.antt =====
-- How often the code of a challenge can be guessed.
use waleed_bus.Base.{
  ℕ, suc, ◌+◌, ◌≤◌, ◌<◌, ◌≡◌, refl, subst, true, false, List, [], ◌∷◌, Option, some, ◌⊎◌, inl, inr,
  arith, Result, Error, err, leb, is_some, find?-holds, find?-update, length, AllRows, Bool-cases,
}
use waleed_bus.Base.Text.{Text, text_eq}
use waleed_bus.Schema.{Challenge, Db}
use waleed_bus.Otp.{for_phone, challenge_of, otp_max_guesses}
use waleed_bus.Otp.Verify.{miss, consume, verify_row, verify_tx, conclude, verify_challenge}

-- The challenge is used up, or has been guessed at `n` times.
abbrev pub IsSpent : ℕ → Challenge → Type 0
IsSpent n c = (is_some c.consumed_at ≡ true) ⊎ (n ≤ c.attempts)

-- The challenge of the phone after `n` guesses, which still expires when it did.
abbrev pub Guessed : ℕ → Text → ℕ → Db → Type 0
Guessed n phone expiry db =
    (c : Challenge) × (challenge_of phone db ≡ some c) × (c.expires_at ≡ expiry) × IsSpent n c

challenge-miss :
    (phone : Text) (db : Db) (c : Challenge)
    → challenge_of phone db ≡ some c
    → challenge_of phone (miss phone db) ≡ some (record c { attempts = c.attempts + 1 })
unfolding miss
challenge-miss phone db c h =
    find?-update (for_phone phone) _ db.challenges c h
      (find?-holds (for_phone phone) db.challenges c h)

pub challenge-consume :
    (phone : Text) (now : ℕ) (db : Db) (c : Challenge)
    → challenge_of phone db ≡ some c
    → challenge_of phone (consume phone now db) ≡ some (record c { consumed_at = some now })
unfolding consume
challenge-consume phone now db c h =
    find?-update (for_phone phone) _ db.challenges c h
      (find?-holds (for_phone phone) db.challenges c h)

-- One guess more.
abbrev pub state_after : Result (Option ℕ) × Db → Db
state_after r = r.1

module _ (fixed phone : Text) where
  wrong-Guessed :
      (otp : Text) (now n expiry : ℕ) (db : Db) (c : Challenge)
      → challenge_of phone db ≡ some c
      → c.expires_at ≡ expiry
      → IsSpent n c
      → n < otp_max_guesses
      → now < expiry
      → text_eq otp fixed ≡ false
      → Guessed (suc n) phone expiry (conclude db (verify_row fixed phone otp now db (some c))).1
  wrong-Guessed otp now n expiry db c found expires spent below live wrong =
      elim (Bool-cases (is_some c.consumed_at)) [
        | inl used ↦ rw used (c, found, expires, inl used)
        | inr unused ↦
            let later : leb c.expires_at now ≡ false = ground arith in
            elim (Bool-cases (leb otp_max_guesses c.attempts)) [
              | inl full ↦
                  rw (unused, later, full)
                    (
                      record c { consumed_at = some now },
                      challenge-consume phone now db c found,
                      expires,
                      inl refl,
                    )
              | inr room ↦
                  rw (unused, later, room, wrong)
                    (
                      record c { attempts = c.attempts + 1 },
                      challenge-miss phone db c found,
                      expires,
                      inr (ground arith),
                    )
            ]
      ]

  -- A wrong guess moves the challenge on, whatever its state.
  verify-Guessed :
      (otp : Text) (now n expiry : ℕ) (db : Db)
      → Guessed n phone expiry db
      → n < otp_max_guesses
      → now < expiry
      → text_eq otp fixed ≡ false
      → Guessed (suc n) phone expiry (verify_challenge fixed phone otp now db).1
  unfolding verify_challenge verify_tx
  verify-Guessed otp now n expiry db (c, found, expires, spent) below live wrong =
      rw found (wrong-Guessed otp now n expiry db c found expires spent below live wrong)

  spent-refused :
      (otp : Text) (now : ℕ) (db : Db) (c : Challenge)
      → IsSpent otp_max_guesses c
      → (e : Error) × ((conclude db (verify_row fixed phone otp now db (some c))).0 ≡ err e)
  spent-refused otp now db c spent = elim (Bool-cases (is_some c.consumed_at)) [
    | inl used ↦ rw used (_, refl)
    | inr unused ↦ elim (Bool-cases (leb c.expires_at now)) [
      | inl over ↦ rw (unused, over) (_, refl)
      | inr live ↦
          let full : leb otp_max_guesses c.attempts ≡ true = ground arith in
          rw (unused, live, full) (_, refl)
    ]
  ]

  -- The state after a sequence of guesses, each with its time.
  unfoldable pub guess_all : List (Text × ℕ) → Db → Db
  guess_all [] db = db
  guess_all (g ∷ gs) db = guess_all gs (verify_challenge fixed phone g.0 g.1 db).1

  -- A wrong guess before the challenge expires.
  abbrev pub IsMiss : ℕ → Text × ℕ → Type 0
  IsMiss expiry g = (text_eq g.0 fixed ≡ false) × (g.1 < expiry)

  guess_all-Guessed :
      (gs : List (Text × ℕ)) (n expiry : ℕ) (db : Db)
      → Guessed n phone expiry db
      → n + length gs ≡ otp_max_guesses
      → AllRows (IsMiss expiry) gs
      → Guessed otp_max_guesses phone expiry (guess_all gs db)
  unfolding guess_all
  guess_all-Guessed [] n expiry db at room all =
      let e : n ≡ otp_max_guesses = omega (arith, room) in
      subst (λ k. Guessed k phone expiry db) e at
  guess_all-Guessed (g ∷ gs) n expiry db at room all =
      guess_all-Guessed gs (suc n) expiry (verify_challenge fixed phone g.0 g.1 db).1
        (verify-Guessed g.0 g.1 n expiry db at (omega (arith, room)) (all.0).1 (all.0).0)
        (omega (arith, room)) all.1

  -- Five wrong guesses lock a challenge: after them every guess at it is refused, the right code
  -- included, whenever it comes.
  pub guess_all-verify :
      (gs : List (Text × ℕ)) (c : Challenge) (db : Db) (otp : Text) (now : ℕ)
      → challenge_of phone db ≡ some c
      → length gs ≡ otp_max_guesses
      → AllRows (IsMiss c.expires_at) gs
      → (e : Error) × ((verify_challenge fixed phone otp now (guess_all gs db)).0 ≡ err e)
  unfolding verify_challenge verify_tx
  guess_all-verify gs c db otp now found five all =
      let (d, after, expires, spent) =
        guess_all-Guessed gs 0 c.expires_at db (c, found, refl, inr (omega arith))
          (omega (arith, five)) all in
      rw after (spent-refused otp now (guess_all gs db) d spent)
