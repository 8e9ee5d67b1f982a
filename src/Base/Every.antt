-- ===== src/Base/Every.antt =====
-- Predicates that every row of a table meets, and the queries and updates that keep them.
use mathlib.Core.Path.{◌≡◌, sym, subst}
use mathlib.Core.Logic.{inl, inr}
use mathlib.Core.Bool.{Bool, true}
use mathlib.Core.Option.{some}
use mathlib.Core.List.{List, [], ◌∷◌, ◌++◌}
use waleed_bus.Base.Tests.{Bool-cases}
use waleed_bus.Base.Rows.{
  find?, find?-head, find?-tail, find?-nil, update, update_many, delete_many,
}

-- Every row meets a predicate.
abbrev pub AllRows {ℓ κ} : {A : Type ℓ} → (A → Type κ) → List A → Type κ
AllRows P [] = Unit
AllRows P (x ∷ xs) = P x × AllRows P xs

module _ {ℓ κ} {A : Type ℓ} (P : A → Type κ) where
  pub AllRows-append : (xs : List A) (y : A) → AllRows P xs → P y → AllRows P (xs ++ y ∷ [])
  AllRows-append [] y h k = (k, tt)
  AllRows-append (x ∷ xs) y h k = (h.0, AllRows-append xs y h.1 k)

  pub AllRows-find? :
      (p : A → Bool) (xs : List A) (r : A) → find? p xs ≡ some r → AllRows P xs → P r
  AllRows-find? p [] r h all = absurd (find?-nil p r h)
  AllRows-find? p (x ∷ xs) r h all = elim (Bool-cases (p x)) [
    | inl met ↦ subst P (find?-head p x xs r met h) all.0
    | inr unmet ↦ AllRows-find? p xs r (find?-tail p x xs r unmet h) all.1
  ]

  -- An update of one row needs the predicate for that row alone.
  pub AllRows-update :
      (p : A → Bool) (f : A → A) (xs : List A) (r : A)
      → find? p xs ≡ some r
      → P (f r)
      → AllRows P xs
      → AllRows P (update p f xs)
  unfolding update
  AllRows-update p f [] r h k all = tt
  AllRows-update p f (x ∷ xs) r h k all = elim (Bool-cases (p x)) [
    | inl met ↦ rw met (subst (λ a. P (f a)) (sym (find?-head p x xs r met h)) k, all.1)
    | inr unmet ↦ rw unmet (all.0, AllRows-update p f xs r (find?-tail p x xs r unmet h) k all.1)
  ]

  pub AllRows-update_always :
      (p : A → Bool) (f : A → A) (xs : List A)
      → ((a : A) → P a → P (f a))
      → AllRows P xs
      → AllRows P (update p f xs)
  unfolding update
  AllRows-update_always p f [] k all = tt
  AllRows-update_always p f (x ∷ xs) k all = elim (Bool-cases (p x)) [
    | inl met ↦ rw met (k x all.0, all.1)
    | inr unmet ↦ rw unmet (all.0, AllRows-update_always p f xs k all.1)
  ]

  pub AllRows-delete_many :
      (p : A → Bool) (xs : List A) → AllRows P xs → AllRows P (delete_many p xs)
  unfolding delete_many
  AllRows-delete_many p [] all = tt
  AllRows-delete_many p (x ∷ xs) all = elim (Bool-cases (p x)) [
    | inl met ↦ rw met (AllRows-delete_many p xs all.1)
    | inr unmet ↦ rw unmet (all.0, AllRows-delete_many p xs all.1)
  ]

  pub AllRows-update_many :
      (p : A → Bool) (f : A → A) (xs : List A)
      → ((a : A) → p a ≡ true → P a → P (f a))
      → AllRows P xs
      → AllRows P (update_many p f xs)
  unfolding update_many
  AllRows-update_many p f [] k all = tt
  AllRows-update_many p f (x ∷ xs) k all = elim (Bool-cases (p x)) [
    | inl met ↦ rw met (k x met all.0, AllRows-update_many p f xs k all.1)
    | inr unmet ↦ rw unmet (all.0, AllRows-update_many p f xs k all.1)
  ]
