-- ===== src/Retry.antt =====
-- src/common/prisma-tx-retry.ts: a transaction that is run again when it could not start. The
-- transaction is a parameter: its outcome and its writes, for each attempt.
use waleed_bus.Base.{
  ℕ, zero, suc, ◌+◌, ◌≤◌, ◌<◌, ◌≡◌, refl, ap, ◌∙◌, Bool, true, false, ◌&&◌, ◌||◌, Option, none,
  some, inl, inr, [], ◌∷◌, ◌==◌, ltb, if◌then◌else◌, arith, Bool-cases,
}
use waleed_bus.Base.Text.{Text, text_eq}

-- "P2028" and "P2024": the transaction has not begun.
abbrev pub start_timeout : Text
start_timeout = b'P' ∷ b'2' ∷ b'0' ∷ b'2' ∷ b'8' ∷ []

abbrev pub pool_timeout : Text
pool_timeout = b'P' ∷ b'2' ∷ b'0' ∷ b'2' ∷ b'4' ∷ []

abbrev pub max_attempts : ℕ
max_attempts = 3

-- What a run ends with: a value, or an error with its code, if that is a string.
pub data Outcome (T : Type 0) : Type 0 where
  returned : (value : T) → Outcome T
  threw : (code : Option Text) → Outcome T

unfoldable pub is_start_failure : Option Text → Bool
is_start_failure none = false
is_start_failure (some c) = text_eq c start_timeout || text_eq c pool_timeout

-- The state that a call leaves, and how it has ended; `nothing` stands for `throw lastError` after
-- no run at all.
pub data Answer (T : Type 0) : Type 0 where
  answer : (outcome : Outcome T) → Answer T
  nothing : Answer T

abbrev pub failed_to_start : {T : Type 0} → Outcome T → Bool
failed_to_start (Outcome.returned v) = false
failed_to_start (Outcome.threw c) = is_start_failure c

module _ {S : Type 0} {T : Type 0} where
  -- What follows a run: its answer, or the next attempt, if one may still run.
  abbrev pub settle : Bool → (S → Answer T × S) → Outcome T × S → Answer T × S
  settle more again (o, s) = if failed_to_start o && more then again s else (Answer.answer o, s)

  settle-last :
      (again : S → Answer T × S) (r : Outcome T × S)
      → settle false again r ≡ (Answer.answer r.0, r.1)
  settle-last again (o, s) = never (failed_to_start o)
    where
      never :
          (t : Bool) → (if t && false then again s else (Answer.answer o, s)) ≡ (Answer.answer o, s)
      never true = refl
      never false = refl

  settle-answer :
      (more : Bool) (again : S → Answer T × S) (r : Outcome T × S)
      → failed_to_start r.0 ≡ false
      → settle more again r ≡ (Answer.answer r.0, r.1)
  settle-answer more again (o, s) h = rw h refl

  settle-again :
      (more : Bool) (again : S → Answer T × S) (r : Outcome T × S)
      → more ≡ true
      → failed_to_start r.0 ≡ true
      → settle more again r ≡ again r.1
  settle-again more again (o, s) left h = rw (left, h) refl

  module _ (run : ℕ → S → Outcome T × S) where
    -- The attempts from number `attempt` on, of which `left` may still run.
    unfoldable pub attempt_from : ℕ → ℕ → S → Answer T × S
    attempt_from zero attempt s = (Answer.nothing, s)
    attempt_from (suc left) attempt s =
        settle (ltb 0 left) (λ s'. attempt_from left (suc attempt) s') (run attempt s)

    unfoldable pub with_tx_start_retry : ℕ → S → Answer T × S
    unfolding attempt_from
    with_tx_start_retry attempts s = attempt_from attempts 1 s

    -- The attempt that answers, among those from `attempt` on.
    abbrev pub Answers : ℕ → ℕ → S → ℕ → Type 0
    Answers left attempt s k =
        (attempt ≤ k)
        × (k < attempt + left)
        × ((j : ℕ) → attempt ≤ j → j < k → failed_to_start (run j s).0 ≡ true)
        × (suc k < attempt + left → failed_to_start (run k s).0 ≡ false)
        × (attempt_from left attempt s ≡ (Answer.answer (run k s).0, (run k s).1))

    module _ (clean : (k : ℕ) (s : S) → failed_to_start (run k s).0 ≡ true → (run k s).1 ≡ s) where
      answers : (left attempt : ℕ) (s : S) → (k : ℕ) × Answers (suc left) attempt s k
      unfolding attempt_from
      answers zero attempt s = (
        attempt,
        (
          omega arith,
          omega arith,
          (λ j above below. absurd (omega arith)),
          (λ more. absurd (omega arith)),
          settle-last (λ s'. attempt_from zero (suc attempt) s') (run attempt s),
        ),
      )
      answers (suc left) attempt s = elim (Bool-cases (failed_to_start (run attempt s).0)) [
        | inr done ↦ (
          attempt,
          (
            omega arith,
            omega arith,
            (λ j above below. absurd (omega arith)),
            (λ more. done),
            settle-answer (ltb 0 (suc left)) (λ s'. attempt_from (suc left) (suc attempt) s')
                (run attempt s) done,
          ),
        )
        | inl again ↦
            let (k, (above, below, before, ends, same)) = answers left (suc attempt) s in
            (
              k,
              (
                omega arith,
                omega arith,
                (λ j low high. elim (Bool-cases (j == attempt)) [
                  | inl at ↦ let e : j ≡ attempt = ground arith in rw e again
                  | inr past ↦ before j (ground arith) high
                ]),
                (λ more. ends (omega arith)),
                settle-again (ltb 0 (suc left)) (λ s'. attempt_from (suc left) (suc attempt) s')
                      (run attempt s) (ground arith) again
                    ∙ ap (λ s'. attempt_from (suc left) (suc attempt) s') (clean attempt s again)
                    ∙ same,
              ),
            )
      ]

      -- The retry answers, with the outcome and the state of one run from the state at the call:
      -- all attempts before that run failed to start, and it did start or was the last allowed. The
      -- transaction must leave the state as it was when it fails to start, and one attempt at least
      -- must be allowed.
      pub with_tx_start_retry-run :
          (attempts : ℕ) (s : S)
          → 1 ≤ attempts
          → (k : ℕ) × (1 ≤ k)
            × (k ≤ attempts)
            × ((j : ℕ) → 1 ≤ j → j < k → failed_to_start (run j s).0 ≡ true)
            × (k < attempts → failed_to_start (run k s).0 ≡ false)
            × (with_tx_start_retry attempts s ≡ (Answer.answer (run k s).0, (run k s).1))
      unfolding with_tx_start_retry
      with_tx_start_retry-run zero s some_run = absurd (omega arith)
      with_tx_start_retry-run (suc attempts) s some_run =
          let (k, (above, below, before, ends, same)) = answers attempts 1 s in
          (k, above, omega arith, before, (λ more. ends (omega arith)), same)
