-- ===== src/Base/Once.antt =====
-- Conditional updates that take effect once: `updateMany` by a key and a condition that the change
-- makes false.
use Prim.Native.Nat.{◌≤◌}
use mathlib.Core.Path.{◌≡◌, refl}
use mathlib.Core.Logic.{inl, inr}
use mathlib.Core.Bool.{Bool, true, false}
use mathlib.Core.Option.{some}
use mathlib.Core.List.{List, [], ◌∷◌}
use native.Mathlib.Omega.{arith}
use waleed_bus.Base.Tests.{Bool-cases}
use waleed_bus.Base.Rows.{find?, update, update_many, count}

module _ {ℓ} {A : Type ℓ} (p q : A → Bool) (f : A → A) where
  pub count-le : ((a : A) → p a ≡ true → q a ≡ true) → (xs : List A) → count p xs ≤ count q xs
  unfolding count
  count-le sub [] = omega arith
  count-le sub (x ∷ xs) = ground (arith, sub x, count-le sub xs)

  pub count-update_many :
      ((a : A) → p a ≡ true → p (f a) ≡ false) → (xs : List A) → count p (update_many p f xs) ≡ 0
  unfolding count update_many
  count-update_many off [] = refl
  count-update_many off (x ∷ xs) = ground (arith, off x, count-update_many off xs)

  -- The one row of the key, if the update touches any.
  pub find?-update_many :
      ((a : A) → p a ≡ true → q a ≡ true)
      → ((a : A) → p a ≡ true → q (f a) ≡ true)
      → (xs : List A) → count q xs ≤ 1
      → 1 ≤ count p xs
      → (r : A) × (find? q xs ≡ some r) × (p r ≡ true) × (find? q (update_many p f xs) ≡ some (f r))
  unfolding count find? update_many
  find?-update_many sub keep [] one touched = absurd (ground arith)
  find?-update_many sub keep (x ∷ xs) one touched = elim (Bool-cases (q x)) [
    | inl key ↦
        let met : p x ≡ true = ground (arith, count-le sub xs) in
        rw (key, met, keep x met) (x, refl, met, refl)
    | inr other ↦
        let unmet : p x ≡ false = ground (arith, sub x) in
        let one' : count q xs ≤ 1 = ground (arith, other) in
        let touched' : 1 ≤ count p xs = ground (arith, unmet) in
        rw (unmet, other) (find?-update_many sub keep xs one' touched')
  ]

module _ {ℓ} {A : Type ℓ} (p q : A → Bool) where
  count-found : (xs : List A) (r : A) → find? q xs ≡ some r → 1 ≤ count q xs
  unfolding count find?
  count-found [] r h = cc
  count-found (x ∷ xs) r h = ground (arith, count-found xs r)

  -- The condition holds of no row if it fails of the one row of the key.
  pub count-unmet :
      ((a : A) → p a ≡ true → q a ≡ true)
      → (xs : List A) (r : A) → find? q xs ≡ some r
      → p r ≡ false
      → count q xs ≤ 1
      → count p xs ≡ 0
  unfolding count find?
  count-unmet sub [] r h unmet one = refl
  count-unmet sub (x ∷ xs) r h unmet one = elim (Bool-cases (q x)) [
    | inl key ↦
        let same : x ≡ r = ground arith in
        let off : p x ≡ false = rw same unmet in ground (arith, count-le p q (λ a. a) sub xs)
    | inr other ↦
        let off : p x ≡ false = ground (arith, sub x) in
        let below : find? q xs ≡ some r = ground arith in
        let one' : count q xs ≤ 1 = ground arith in
        ground (arith, count-unmet sub xs r below unmet one')
  ]

-- A change of one row under which the condition fails brings no row to meet it.
pub count-update {ℓ} :
    {A : Type ℓ} (p q : A → Bool) (f : A → A)
    → ((a : A) → q a ≡ true → p (f a) ≡ false)
    → (xs : List A) → count p xs ≡ 0
    → count p (update q f xs) ≡ 0
unfolding count update
count-update p q f off [] h = refl
count-update p q f off (x ∷ xs) h = ground (arith, off x, count-update p q f off xs)
