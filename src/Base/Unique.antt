-- ===== src/Base/Unique.antt =====
-- Tables in which a condition holds of one row at most, and what ending such rows leaves.
use Prim.Native.Nat.{◌≤◌}
use mathlib.Core.Path.{◌≡◌, refl, sym}
use mathlib.Core.Logic.{inl, inr}
use mathlib.Core.Bool.{Bool, true, false}
use mathlib.Core.Option.{none, some}
use mathlib.Core.List.{List, [], ◌∷◌, ◌++◌}
use native.Mathlib.Omega.{arith}
use waleed_bus.Base.Tests.{if◌then◌else◌, Bool-cases}
use waleed_bus.Base.Rows.{find?, find?-head, find?-tail, update_many, count}

module _ {ℓ} {A : Type ℓ} (p q : A → Bool) where
  -- A row that some query finds counts under every condition that it meets.
  pub count-met : (xs : List A) (r : A) → find? q xs ≡ some r → p r ≡ true → 1 ≤ count p xs
  unfolding count find?
  count-met [] r h met = cc
  count-met (x ∷ xs) r h met = ground (arith, count-met xs r)

  -- It is the row of the condition, if that holds of one row at most.
  pub find?-the_one :
      (xs : List A) (r : A)
      → find? q xs ≡ some r
      → p r ≡ true
      → count p xs ≤ 1
      → find? p xs ≡ some r
  unfolding count find?
  find?-the_one [] r h met one = cc
  find?-the_one (x ∷ xs) r h met one = ground (arith, count-met xs r, find?-the_one xs r)

module _ {ℓ} {A : Type ℓ} (p : A → Bool) where
  pub find?-count_0 : (xs : List A) → count p xs ≡ 0 → find? p xs ≡ none
  unfolding count find?
  find?-count_0 [] h = refl
  find?-count_0 (x ∷ xs) h = ground (arith, find?-count_0 xs)

  pub count-find?-none : (xs : List A) → find? p xs ≡ none → count p xs ≡ 0
  unfolding count find?
  count-find?-none [] h = refl
  count-find?-none (x ∷ xs) h = ground (arith, count-find?-none xs)

  pub find?-append_unmet : (xs : List A) (y : A) → p y ≡ false → find? p (xs ++ y ∷ []) ≡ find? p xs
  unfolding find?
  find?-append_unmet [] y h = ground arith
  find?-append_unmet (x ∷ xs) y h = ground (arith, find?-append_unmet xs y h)

module _ {ℓ} {A : Type ℓ} (p q : A → Bool) (f : A → A) where
  -- Rows that change leave a condition, or keep what it says of them.
  pub count-update_many_le :
      ((a : A) → q a ≡ true → p (f a) ≡ false)
      → (xs : List A) → count p (update_many q f xs) ≤ count p xs
  unfolding count update_many
  count-update_many_le off [] = omega arith
  count-update_many_le off (x ∷ xs) = ground (arith, off x, count-update_many_le off xs)

  pub find?-update_many_ne :
      ((a : A) → q a ≡ true → (p a ≡ false) × (p (f a) ≡ false))
      → (xs : List A) → find? p (update_many q f xs) ≡ find? p xs
  unfolding find? update_many
  find?-update_many_ne k [] = refl
  find?-update_many_ne k (x ∷ xs) = ground (arith, k x, find?-update_many_ne k xs)

  pub find?-update_many-none :
      ((a : A) → q a ≡ true → p (f a) ≡ false)
      → (xs : List A) → find? p xs ≡ none
      → find? p (update_many q f xs) ≡ none
  unfolding find? update_many
  find?-update_many-none off [] h = refl
  find?-update_many-none off (x ∷ xs) h = ground (arith, off x, find?-update_many-none off xs)

  -- The one row of a condition stays, unless the change takes it.
  pub find?-update_many-some :
      ((a : A) → q a ≡ true → p (f a) ≡ false)
      → (xs : List A) (r : A) → find? p xs ≡ some r
      → count p xs ≤ 1
      → find? p (update_many q f xs) ≡ (if q r then none else some r)
  unfolding count find? update_many
  find?-update_many-some off [] r h one = cc
  find?-update_many-some off (x ∷ xs) r h one = elim (Bool-cases (p x)) [
    | inl met ↦
        let same : x ≡ r = find?-head p x xs r met h in
        let gone : count p xs ≡ 0 = ground (arith, met) in
        let rest = find?-update_many-none off xs (find?-count_0 p xs gone) in
        rw same (elim (Bool-cases (q r)) [
          | inl taken ↦ rw (taken, off r taken) rest
          | inr free ↦ let here : p r ≡ true = rw (sym same) met in rw (free, here) refl
        ])
    | inr unmet ↦
        let below = find?-tail p x xs r unmet h in
        let one' : count p xs ≤ 1 = ground (arith, unmet) in
        let ih = find?-update_many-some off xs r below one' in ground (arith, off x, ih, unmet)
  ]

module _ {ℓ} {A : Type ℓ} (p q : A → Bool) (f : A → A) where
  -- A change that a condition does not see.
  pub count-update_many_eq :
      ((a : A) → p (f a) ≡ p a) → (xs : List A) → count p (update_many q f xs) ≡ count p xs
  unfolding count update_many
  count-update_many_eq same [] = refl
  count-update_many_eq same (x ∷ xs) = ground (arith, same x, count-update_many_eq same xs)

  -- A change that takes every row of a condition.
  pub find?-update_many_gone :
      ((a : A) → p a ≡ true → q a ≡ true)
      → ((a : A) → q a ≡ true → p (f a) ≡ false)
      → (xs : List A) → find? p (update_many q f xs) ≡ none
  unfolding find? update_many
  find?-update_many_gone sub off [] = refl
  find?-update_many_gone sub off (x ∷ xs) =
      ground (arith, sub x, off x, find?-update_many_gone sub off xs)

-- The value of a conditional whose test is known.
pub if-true {ℓ} : {A : Type ℓ} (t : Bool) (x y : A) → t ≡ true → (if t then x else y) ≡ x
if-true true x y h = refl
if-true false x y h = cc

pub if-false {ℓ} : {A : Type ℓ} (t : Bool) (x y : A) → t ≡ false → (if t then x else y) ≡ y
if-false true x y h = cc
if-false false x y h = refl
