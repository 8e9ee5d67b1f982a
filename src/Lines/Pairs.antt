-- ===== src/Lines/Pairs.antt =====
-- What the rule on repeated stops makes of the rows of a direction.
use waleed_bus.Base.{
  ℕ, suc, ◌+◌, ◌≤◌, ◌≡◌, refl, sym, subst, ◌∙◌, Bool, true, false, ◌&&◌, Option, some, none, inl,
  inr, ◌⊎◌, List, [], ◌∷◌, ◌==◌, if◌then◌else◌, find?, find?-holds, select, delete_many, count,
  arith, ok, ok_eq, require-eq-ok, >>=-eq-ok, Bool-cases,
}
use waleed_bus.Schema.{Station, RouteStation, StopType}
use waleed_bus.Lines.{
  StopInput, Occurrence, occurrences_from, at_stop, is_legal, names, distinct_ids, illegal_at,
  stations_of, rows_from, is_boarding, is_landing,
}

-- A test that a boarding and a landing do not both meet.
abbrev Separates : (StopType → Bool) → Type 0
Separates t = (t StopType.boarding ≡ false) ⊎ (t StopType.landing ≡ false)

abbrev met_by : (StopType → Bool) → Occurrence → Bool
met_by t o = t o.stop_type

pair-count :
    (t : StopType → Bool) (b l : StopType)
    → Separates t
    → (is_boarding b && is_landing l) ≡ true
    → (if t b then 1 else 0) + (if t l then 1 else 0) ≤ 1
pair-count t StopType.boarding StopType.landing (inl off) h = ground arith
pair-count t StopType.boarding StopType.landing (inr off) h = ground arith
pair-count t StopType.boarding StopType.boarding s h = cc
pair-count t StopType.boarding StopType.both s h = cc
pair-count t StopType.landing l s h = cc
pair-count t StopType.both l s h = cc

legal-count :
    (t : StopType → Bool) (os : List Occurrence)
    → Separates t
    → is_legal os ≡ true
    → count (met_by t) os ≤ 1
unfolding count
legal-count t [] s h = omega arith
legal-count t (a ∷ []) s h = ground arith
legal-count t (a ∷ b ∷ []) s h =
    let kinds : (is_boarding a.stop_type && is_landing b.stop_type) ≡ true = ground arith in
    omega (arith, pair-count t a.stop_type b.stop_type s kinds)
legal-count t (a ∷ b ∷ c ∷ rest) s h = cc

module _ {ℓ} {A : Type ℓ} (p q : A → Bool) where
  count-select : (xs : List A) → count q (select p xs) ≡ count (λ a. p a && q a) xs
  unfolding count select
  count-select [] = refl
  count-select (x ∷ xs) = ground (arith, count-select xs)

  find?-none-found : (xs : List A) (r : A) → find? q xs ≡ none → find? p xs ≡ some r → q r ≡ false
  unfolding find?
  find?-none-found [] r h k = cc
  find?-none-found (x ∷ xs) r h k = ground (arith, find?-none-found xs r)

  find?-delete_many_ne :
      ((a : A) → p a ≡ true → q a ≡ false) → (xs : List A) → find? p (delete_many q xs) ≡ find? p xs
  unfolding find? delete_many
  find?-delete_many_ne off [] = refl
  find?-delete_many_ne off (x ∷ xs) = ground (arith, off x, find?-delete_many_ne off xs)

-- Every stop of the inputs is a key of the map.
distinct_ids-covers :
    (stop : ℕ) (inputs : List StopInput) (s : StopInput)
    → find? (names stop) inputs ≡ some s
    → (i : ℕ) × (find? (λ j. j == stop) (distinct_ids inputs) ≡ some i)
unfolding find? distinct_ids
distinct_ids-covers stop [] s h = cc
distinct_ids-covers stop (x ∷ xs) s h = elim (Bool-cases (x.stop_id == stop)) [
  | inl here ↦ rw here (x.stop_id, refl)
  | inr other ↦
      let below : find? (names stop) xs ≡ some s = ground arith in
      let (i, found) = distinct_ids-covers stop xs s below in
      rw other (
        i,
        find?-delete_many_ne (λ j. j == stop) (λ j. j == x.stop_id) (λ a met. ground arith)
              (distinct_ids xs)
            ∙ found,
      )
]

-- A stop that no input names has no occurrence.
unnamed-count :
    (t : StopType → Bool) (stop i : ℕ) (inputs : List StopInput)
    → find? (names stop) inputs ≡ none
    → count (λ o. at_stop stop o && met_by t o) (occurrences_from i inputs) ≡ 0
unfolding find? count occurrences_from
unnamed-count t stop i [] h = refl
unnamed-count t stop i (x ∷ xs) h = ground (arith, unnamed-count t stop (suc i) xs)

pub occurrences-count :
    (t : StopType → Bool) (stop : ℕ) (inputs : List StopInput)
    → Separates t
    → find? (illegal_at (occurrences_from 0 inputs)) (distinct_ids inputs) ≡ none
    → count (λ o. at_stop stop o && met_by t o) (occurrences_from 0 inputs) ≤ 1
occurrences-count t stop inputs s legal = by_name (find? (names stop) inputs) refl
  where
    by_name :
        (o : Option StopInput)
        → find? (names stop) inputs ≡ o
        → count (λ x. at_stop stop x && met_by t x) (occurrences_from 0 inputs) ≤ 1
    by_name none e = omega (arith, unnamed-count t stop 0 inputs e)
    by_name (some x) e =
        let (i, found) = distinct_ids-covers stop inputs x e in
        let fine =
          find?-none-found (λ j. j == stop) (illegal_at (occurrences_from 0 inputs))
            (distinct_ids inputs) i legal found in
        let same : i ≡ stop =
          ground (arith, find?-holds (λ j. j == stop) (distinct_ids inputs) i found) in
        let good : is_legal (select (at_stop stop) (occurrences_from 0 inputs)) ≡ true =
          ground (arith, subst (λ j. illegal_at (occurrences_from 0 inputs) j ≡ false) same fine) in
        omega (
          arith,
          legal-count t (select (at_stop stop) (occurrences_from 0 inputs)) s good,
          count-select (at_stop stop) (met_by t) (occurrences_from 0 inputs),
        )

-- The rows stand for the inputs.
abbrev serves : (StopType → Bool) → ℕ → RouteStation → Bool
serves t stop r = r.station_id == stop && t r.stop_type

pub rows-count :
    (t : StopType → Bool) (stop route n i : ℕ) (found : List Station) (inputs : List StopInput)
    (stations : List Station)
    → stations_of found inputs ≡ ok stations
    → count (serves t stop) (rows_from route n stations inputs)
      ≤ count (λ o. at_stop stop o && met_by t o) (occurrences_from i inputs)
unfolding count rows_from occurrences_from stations_of
rows-count t stop route n i found [] stations h =
    let e : [] ≡ stations = ok_eq h in rw (sym e) (omega arith)
rows-count t stop route n i found (s ∷ ss) stations h =
    let (x, at, h1) = require-eq-ok (find? (λ (y : Station). y.id == s.stop_id) found) _ _ _ h in
    let (xs, rest, last) = >>=-eq-ok (stations_of found ss) _ h1 in
    let e : x ∷ xs ≡ stations = ok_eq last in
    let same : x.id ≡ s.stop_id =
      ground (arith, find?-holds (λ (y : Station). y.id == s.stop_id) found x at) in
    let ih = rows-count t stop route (suc n) (suc i) found ss xs rest in
    rw (sym e) (ground (arith, same, ih))
