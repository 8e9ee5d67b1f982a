-- ===== src/Base/Members.antt =====
-- Membership in a table, for the rows that queries return.
use mathlib.Core.Path.{◌≡◌, refl, sym}
use mathlib.Core.Logic.{inl, inr}
use mathlib.Core.Bool.{Bool, true}
use mathlib.Core.Option.{some}
use mathlib.Core.List.{List, [], ◌∷◌, Memᴰ}
use mathlib.Core.List.Memᴰ
use waleed_bus.Base.Tests.{if◌then◌else◌, Bool-cases}
use waleed_bus.Base.Rows.{find?, find?-head, find?-nil, find?-tail, select}

module _ {ℓ} {A : Type ℓ} where
  pub find?-Mem : (p : A → Bool) (xs : List A) (r : A) → find? p xs ≡ some r → Memᴰ r xs
  find?-Mem p [] r h = absurd (find?-nil p r h)
  find?-Mem p (x ∷ xs) r h = elim (Bool-cases (p x)) [
    | inl met ↦ Memᴰ.head (sym (find?-head p x xs r met h))
    | inr unmet ↦ Memᴰ.tail (find?-Mem p xs r (find?-tail p x xs r unmet h))
  ]

  kept :
      (p : A → Bool) (t : Bool) (x : A) (rest xs : List A) (r : A)
      → p x ≡ t
      → (Memᴰ r rest → (p r ≡ true) × Memᴰ r xs)
      → Memᴰ r (if t then x ∷ rest else rest)
      → (p r ≡ true) × Memᴰ r (x ∷ xs)
  kept p true x rest xs r met ih (Memᴰ.head e) = (rw e met, Memᴰ.head e)
  kept p true x rest xs r met ih (Memᴰ.tail m) = ((ih m).0, Memᴰ.tail (ih m).1)
  kept p Bool.false x rest xs r met ih m = ((ih m).0, Memᴰ.tail (ih m).1)

  -- What a selection holds meets the condition, and comes from the table.
  pub select-Mem :
      (p : A → Bool) (xs : List A) (r : A) → Memᴰ r (select p xs) → (p r ≡ true) × Memᴰ r xs
  unfolding select
  select-Mem p [] r m = absurd (Memᴰ.not-nil m)
  select-Mem p (x ∷ xs) r m = kept p (p x) x (select p xs) xs r refl (λ n. select-Mem p xs r n) m
