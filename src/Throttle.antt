-- ===== src/Throttle.antt =====
-- src/passenger-auth/throttle.service.ts: fixed-window counters in the database.
pub mod Window
use waleed_bus.Base.{
  ℕ, ◌+◌, ◌-◌, ◌/◌, max, Bool, true, false, Option, none, some, [], ◌==◌, leb, ltb, if◌then◌else◌,
  find?, update, upsert, delete_many,
}
use waleed_bus.Base.Text.{text_eq}
use waleed_bus.Schema.{ThrottleKey, ThrottleCounter, Db}

pub record ThrottleBudget : Type 0 where
  pub limit : ℕ
  pub window_ms : ℕ

pub record ThrottleVerdict : Type 0 where
  pub allowed : Bool
  pub retry_after_seconds : ℕ

unfoldable pub key_eq : ThrottleKey → ThrottleKey → Bool
unfolding text_eq
key_eq (ThrottleKey.share_verify i) (ThrottleKey.share_verify j) = i == j
key_eq (ThrottleKey.named s) (ThrottleKey.named t) = text_eq s t
key_eq _ _ = false

abbrev pub has_key : ThrottleKey → ThrottleCounter → Bool
has_key k c = key_eq c.key k

abbrev pub counter : ThrottleKey → Db → Option ThrottleCounter
counter k db = find? (has_key k) db.counters

abbrev pub allow : ThrottleVerdict
allow = record { allowed = true; retry_after_seconds = 0 }

-- `Math.max(1, Math.ceil((windowStart + windowMs - now) / 1000))`.
abbrev pub deny : ThrottleBudget → ThrottleCounter → ℕ → ThrottleVerdict
deny budget row now = record {
  allowed = false;
  retry_after_seconds = max 1 ((row.window_start + budget.window_ms - now + 999) / 1000);
}

abbrev pub is_over : ThrottleBudget → ThrottleCounter → ℕ → Bool
is_over budget row now = leb (row.window_start + budget.window_ms) now

unfoldable pub open_window : ThrottleKey → ℕ → Db → Db
open_window k now db = record db {
  counters =
      upsert (has_key k) (λ c. record c { count = 1; window_start = now })
        (record { key = k; count = 1; window_start = now }) db.counters;
}

unfoldable pub increment : ThrottleKey → Db → Db
increment k db = record db {
  counters = update (has_key k) (λ c. record c { count = c.count + 1 }) db.counters;
}

-- A hit, by the counter that the transaction has read.
abbrev pub hit_counter :
    ThrottleKey → ThrottleBudget → ℕ → Db → Option ThrottleCounter → ThrottleVerdict × Db
hit_counter k budget now db none = (allow, open_window k now db)
hit_counter k budget now db (some row) =
    if is_over budget row now
    then (allow, open_window k now db)
    else if ltb row.count budget.limit
    then (allow, increment k db)
    else (deny budget row now, db)

unfoldable pub hit : ThrottleKey → ThrottleBudget → ℕ → Db → ThrottleVerdict × Db
hit k budget now db = hit_counter k budget now db (counter k db)

abbrev pub peek_counter : ThrottleBudget → ℕ → Option ThrottleCounter → ThrottleVerdict
peek_counter budget now none = allow
peek_counter budget now (some row) =
    if is_over budget row now
    then allow
    else if ltb row.count budget.limit
    then allow
    else deny budget row now

-- The same verdict without a write.
unfoldable pub peek : ThrottleKey → ThrottleBudget → ℕ → Db → ThrottleVerdict
peek k budget now db = peek_counter budget now (counter k db)

unfoldable pub reset : ThrottleKey → Db → Db
reset k db = record db { counters = delete_many (has_key k) db.counters }
