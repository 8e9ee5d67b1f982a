-- ===== src/Base/Rows.antt =====
-- Tables as lists of rows: the queries and updates that the services make, and their laws.
use Prim.Native.Nat.{ℕ, suc, ◌+◌, ◌≤◌}
use mathlib.Core.Path.{◌≡◌, refl}
use mathlib.Core.Bool.{Bool, true, false}
use mathlib.Core.Option.{Option, none, some}
use mathlib.Core.List.{List, [], ◌∷◌, ◌++◌}
use native.Mathlib.Omega.{arith}
use waleed_bus.Base.Tests.{if◌then◌else◌}

module _ {ℓ} {A : Type ℓ} where
  -- `findUnique` and `findFirst`: the first row that meets the condition.
  unfoldable pub find? : (A → Bool) → List A → Option A
  find? p [] = none
  find? p (x ∷ xs) = if p x then some x else find? p xs

  -- `update` by a key: the condition meets one row, which changes in place.
  unfoldable pub update : (A → Bool) → (A → A) → List A → List A
  update p f [] = []
  update p f (x ∷ xs) = if p x then f x ∷ xs else x ∷ update p f xs

  -- `updateMany`: every row that meets the condition changes.
  unfoldable pub update_many : (A → Bool) → (A → A) → List A → List A
  update_many p f [] = []
  update_many p f (x ∷ xs) = (if p x then f x else x) ∷ update_many p f xs

  -- The rows that meet the condition, in order.
  unfoldable pub select : (A → Bool) → List A → List A
  select p [] = []
  select p (x ∷ xs) = let rest = select p xs in if p x then x ∷ rest else rest

  abbrev pub length : List A → ℕ
  length [] = 0
  length (x ∷ xs) = suc (length xs)

  -- `count`.
  unfoldable pub count : (A → Bool) → List A → ℕ
  count p [] = 0
  count p (x ∷ xs) = (if p x then 1 else 0) + count p xs

  -- `aggregate({ _sum })`, over a weight that is 0 where the condition fails.
  unfoldable pub sum_of : (A → ℕ) → List A → ℕ
  sum_of w [] = 0
  sum_of w (x ∷ xs) = w x + sum_of w xs

module _ {ℓ} {A : Type ℓ} where
  -- `upsert` by a key: the row that is there changes, or a new one is added.
  unfoldable pub upsert : (A → Bool) → (A → A) → A → List A → List A
  unfolding find? update
  upsert p f new xs = elim (find? p xs) [ none ↦ xs ++ new ∷ [] | some _ ↦ update p f xs ]

  -- `deleteMany`: the rows that do not meet the condition stay.
  unfoldable pub delete_many : (A → Bool) → List A → List A
  delete_many p [] = []
  delete_many p (x ∷ xs) = let rest = delete_many p xs in if p x then rest else x ∷ rest

  pub find?-holds : (p : A → Bool) (xs : List A) (r : A) → find? p xs ≡ some r → p r ≡ true
  unfolding find?
  find?-holds p [] r h = cc
  find?-holds p (x ∷ xs) r h = ground (arith, find?-holds p xs r)

  -- An update that keeps the key is what a later query by that key finds.
  pub find?-update :
      (p : A → Bool) (f : A → A) (xs : List A) (r : A)
      → find? p xs ≡ some r
      → p (f r) ≡ true
      → find? p (update p f xs) ≡ some (f r)
  unfolding find? update
  find?-update p f [] r h k = cc
  find?-update p f (x ∷ xs) r h k = ground (arith, find?-update p f xs r)

  pub find?-update_ne :
      (p q : A → Bool) (f : A → A) (xs : List A)
      → ((a : A) → p a ≡ true → (q a ≡ false) × (q (f a) ≡ false))
      → find? q (update p f xs) ≡ find? q xs
  unfolding find? update
  find?-update_ne p q f [] k = refl
  find?-update_ne p q f (x ∷ xs) k = ground (arith, k x, find?-update_ne p q f xs k)

  -- A sum moves by the change of the one row that an update touches.
  pub sum_of-update :
      (w : A → ℕ) (p : A → Bool) (f : A → A) (xs : List A) (r : A)
      → find? p xs ≡ some r
      → sum_of w (update p f xs) + w r ≡ sum_of w xs + w (f r)
  unfolding find? update sum_of
  sum_of-update w p f [] r h = cc
  sum_of-update w p f (x ∷ xs) r h = ground (arith, sum_of-update w p f xs r)

  pub sum_of-append : (w : A → ℕ) (xs ys : List A) → sum_of w (xs ++ ys) ≡ sum_of w xs + sum_of w ys
  unfolding sum_of
  sum_of-append w [] ys = omega arith
  sum_of-append w (x ∷ xs) ys = omega (arith, sum_of-append w xs ys)

  pub count-append : (p : A → Bool) (xs ys : List A) → count p (xs ++ ys) ≡ count p xs + count p ys
  unfolding count
  count-append p [] ys = omega arith
  count-append p (x ∷ xs) ys = omega (arith, count-append p xs ys)

  pub update-none :
      (p : A → Bool) (f : A → A) (xs : List A) → find? p xs ≡ none → update p f xs ≡ xs
  unfolding find? update
  update-none p f [] h = refl
  update-none p f (x ∷ xs) h = ground (arith, update-none p f xs)

  pub length-append : (xs ys : List A) → length (xs ++ ys) ≡ length xs + length ys
  length-append [] ys = omega arith
  length-append (x ∷ xs) ys = omega (arith, length-append xs ys)

module _ {ℓ} {A : Type ℓ} (w : A → ℕ) (p : A → Bool) (f : A → A) where
  -- A change that lowers no row's weight below that of the sum.
  pub sum_of-update_le :
      ((a : A) → w (f a) ≤ w a) → (xs : List A) → sum_of w (update p f xs) ≤ sum_of w xs
  unfolding update sum_of
  sum_of-update_le h [] = omega arith
  sum_of-update_le h (x ∷ xs) = ground (arith, h x, sum_of-update_le h xs)

  pub sum_of-update_many :
      ((a : A) → w (f a) ≡ w a) → (xs : List A) → sum_of w (update_many p f xs) ≡ sum_of w xs
  unfolding update_many sum_of
  sum_of-update_many h [] = refl
  sum_of-update_many h (x ∷ xs) = ground (arith, h x, sum_of-update_many h xs)

module _ {ℓ} {A : Type ℓ} where
  -- Where the search stops, and where it goes on.
  pub find?-head :
      (p : A → Bool) (x : A) (xs : List A) (r : A) → p x ≡ true → find? p (x ∷ xs) ≡ some r → x ≡ r
  unfolding find?
  find?-head p x xs r met h = ground arith

  pub find?-tail :
      (p : A → Bool) (x : A) (xs : List A) (r : A)
      → p x ≡ false
      → find? p (x ∷ xs) ≡ some r
      → find? p xs ≡ some r
  unfolding find?
  find?-tail p x xs r unmet h = ground arith

  pub find?-nil : (p : A → Bool) (r : A) → find? p [] ≡ some r → ⊥
  unfolding find?
  find?-nil p r h = cc

module _ {ℓ} {A : Type ℓ} where
  -- A row that was not there is found at the end.
  pub find?-append :
      (p : A → Bool) (xs : List A) (y : A)
      → find? p xs ≡ none
      → p y ≡ true
      → find? p (xs ++ y ∷ []) ≡ some y
  unfolding find?
  find?-append p [] y h k = ground arith
  find?-append p (x ∷ xs) y h k = ground (arith, find?-append p xs y)

module _ {ℓ} {A : Type ℓ} (p : A → Bool) (f : A → A) (new : A) (xs : List A) where
  find?-upsert_go :
      (o : Option A)
      → find? p xs ≡ o
      → p new ≡ true
      → ((a : A) → p a ≡ true → p (f a) ≡ true)
      → find? p (elim o [ none ↦ xs ++ new ∷ [] | some _ ↦ update p f xs ])
        ≡ some (elim o [ none ↦ new | some r ↦ f r ])
  find?-upsert_go none e h k = find?-append p xs new e h
  find?-upsert_go (some r) e h k = find?-update p f xs r e (k r (find?-holds p xs r e))

  -- What an upsert leaves under its key.
  pub find?-upsert :
      p new ≡ true
      → ((a : A) → p a ≡ true → p (f a) ≡ true)
      → find? p (upsert p f new xs) ≡ some (elim (find? p xs) [ none ↦ new | some r ↦ f r ])
  unfolding upsert
  find?-upsert h k = find?-upsert_go (find? p xs) refl h k
