-- ===== src/Throttle/Window.antt =====
-- How many hits a window of the throttle allows.
use waleed_bus.Base.{
  ℕ, ◌+◌, ◌-◌, ◌≤◌, ◌<◌, ◌≡◌, refl, min, max, Bool, true, List, [], ◌∷◌, Option, some, none, arith,
  if◌then◌else◌, length, AllRows, find?-upsert, Bool-cases, ◌⊎◌, inl, inr, ltb, find?-update,
  find?-holds,
}
use waleed_bus.Base.Text.{text_eq_iff}
use waleed_bus.Schema.{ThrottleKey, ThrottleCounter, Db}
use waleed_bus.Throttle.{
  ThrottleBudget, key_eq, has_key, counter, is_over, open_window, increment, hit, hit_counter,
  peek_counter, peek, allow, deny,
}

pub key_eq_refl : (k : ThrottleKey) → key_eq k k ≡ true
unfolding key_eq
key_eq_refl (ThrottleKey.share_verify i) = ground arith
key_eq_refl (ThrottleKey.named s) = (text_eq_iff s s).1 refl

-- The counter that a fresh window holds.
abbrev pub FreshCounter : ThrottleCounter → ℕ → ℕ → Type 0
FreshCounter c n start = (c.count ≡ n) × (c.window_start ≡ start)

-- After a hit opens a window, the counter of the key is 1, from now.
opened_counter :
    (o : Option ThrottleCounter) (k : ThrottleKey) (now : ℕ)
    → FreshCounter
        (elim o [
          | none ↦ record { key = k; count = 1; window_start = now }
          | some c ↦ record c { count = 1; window_start = now }
        ])
        1
        now
opened_counter none k now = (refl, refl)
opened_counter (some c) k now = (refl, refl)

pub counter-open_window :
    (k : ThrottleKey) (now : ℕ) (db : Db)
    → (c : ThrottleCounter) × (counter k (open_window k now db) ≡ some c) × FreshCounter c 1 now
unfolding open_window
counter-open_window k now db = (
  _,
  find?-upsert (has_key k) _ _ db.counters (key_eq_refl k) (λ a h. h),
  opened_counter (counter k db) k now,
)

pub counter-increment :
    (k : ThrottleKey) (db : Db) (c : ThrottleCounter)
    → counter k db ≡ some c
    → counter k (increment k db) ≡ some (record c { count = c.count + 1 })
unfolding increment
counter-increment k db c h =
    find?-update (has_key k) _ db.counters c h (find?-holds (has_key k) db.counters c h)

-- The number of hits, at the times of a list, that are allowed.
unfoldable pub allowed_hits : ThrottleKey → ThrottleBudget → List ℕ → Db → ℕ
unfolding hit
allowed_hits k budget [] db = 0
allowed_hits k budget (now ∷ later) db =
    let (verdict, next) = hit k budget now db in
    (if verdict.allowed then 1 else 0) + allowed_hits k budget later next

-- All times lie before the end of the window.
abbrev pub WithinWindow : ℕ → List ℕ → Type 0
WithinWindow end times = AllRows (λ t. t < end) times

module _ (k : ThrottleKey) (budget : ThrottleBudget) where
  -- What a hit does in an open window, below the limit and at it.
  hit-below :
      (now : ℕ) (db : Db) (c : ThrottleCounter)
      → counter k db ≡ some c
      → now < c.window_start + budget.window_ms
      → c.count < budget.limit
      → hit k budget now db ≡ (allow, increment k db)
  unfolding hit
  hit-below now db c found inside below = rw (hit, found) (ground arith)

  hit-at :
      (now : ℕ) (db : Db) (c : ThrottleCounter)
      → counter k db ≡ some c
      → now < c.window_start + budget.window_ms
      → budget.limit ≤ c.count
      → hit k budget now db ≡ (deny budget c now, db)
  unfolding hit
  hit-at now db c found inside above = rw (hit, found) (ground arith)

  lt-cases : (a b : ℕ) → (a < b) ⊎ (b ≤ a)
  lt-cases a b = elim (Bool-cases (ltb a b)) [
    | inl below ↦ inl (ground arith)
    | inr above ↦ inr (ground arith)
  ]

  -- The hits that remain in an open window.
  allowed_hits-open :
      (times : List ℕ) (db : Db) (c : ThrottleCounter)
      → counter k db ≡ some c
      → WithinWindow (c.window_start + budget.window_ms) times
      → allowed_hits k budget times db ≡ min (length times) (budget.limit - c.count)
  unfolding allowed_hits
  allowed_hits-open [] db c found inside = omega arith
  allowed_hits-open (now ∷ later) db c found inside = elim (lt-cases c.count budget.limit) [
    | inl below ↦
        let rest =
          allowed_hits-open later (increment k db) (record c { count = c.count + 1 })
            (counter-increment k db c found) inside.1 in
        rw (hit-below now db c found inside.0 below) (omega (arith, rest, below))
    | inr above ↦
        rw (hit-at now db c found inside.0 above)
          (omega (arith, allowed_hits-open later db c found inside.1, above))
  ]

  -- No window is open for the key at this time.
  abbrev pub is_stale : Option ThrottleCounter → ℕ → Bool
  is_stale none now = true
  is_stale (some c) now = is_over budget c now

  hit_counter-stale :
      (o : Option ThrottleCounter) (now : ℕ) (db : Db)
      → is_stale o now ≡ true
      → hit_counter k budget now db o ≡ (allow, open_window k now db)
  hit_counter-stale none now db h = refl
  hit_counter-stale (some c) now db h = rw h refl

  peek_counter-hit :
      (o : Option ThrottleCounter) (now : ℕ) (db : Db)
      → peek_counter budget now o ≡ (hit_counter k budget now db o).0
  peek_counter-hit none now db = refl
  peek_counter-hit (some c) now db = ground arith

  hit-stale :
      (now : ℕ) (db : Db)
      → is_stale (counter k db) now ≡ true
      → hit k budget now db ≡ (allow, open_window k now db)
  unfolding hit
  hit-stale now db h = hit_counter-stale (counter k db) now db h

  -- In a window that opens with its first hit and closes later than the last one, the first hits
  -- are allowed up to the limit (and the first one always), and no other.
  pub allowed_hits-window :
      (start : ℕ) (later : List ℕ) (db : Db)
      → is_stale (counter k db) start ≡ true
      → WithinWindow (start + budget.window_ms) later
      → allowed_hits k budget (start ∷ later) db ≡ min (1 + length later) (max 1 budget.limit)
  unfolding allowed_hits
  allowed_hits-window start later db h inside =
      let (c, found, fresh) = counter-open_window k start db in
      let rest = allowed_hits-open later (open_window k start db) c found (rw fresh.1 inside) in
      rw (hit-stale start db h) (omega (arith, rest, fresh.0))

  -- A look at the throttle gives the verdict of the hit that would follow it.
  pub peek-hit : (now : ℕ) (db : Db) → peek k budget now db ≡ (hit k budget now db).0
  unfolding peek hit
  peek-hit now db = peek_counter-hit (counter k db) now db
