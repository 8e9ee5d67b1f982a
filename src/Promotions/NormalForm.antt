-- ===== src/Promotions/NormalForm.antt =====
-- The normal form of a promo code.
use waleed_bus.Base.{
  ℕ, ◌≡◌, refl, ap, ◌∙◌, true, false, [], ◌∷◌, arith, if-eq, inl, inr, ok, err, coded, ok_eq,
  invalid_promo_code,
}
use waleed_bus.Base.Text.{Text, trim, is_space, every}
use waleed_bus.Base.Text.Trim.{trim-id}
use waleed_bus.Promotions.Code.{
  upper_unit, to_upper_case, is_code_unit, code_pattern, normalize_promo_code,
}

code_unit-solid : (c : ℕ) → is_code_unit c ≡ true → is_space c ≡ false
unfolding is_code_unit is_space
code_unit-solid c h = ground arith

code_unit-upper : (c : ℕ) → is_code_unit c ≡ true → upper_unit c ≡ c ∷ []
unfolding is_code_unit upper_unit
code_unit-upper c h = ground arith

to_upper_case-id : (t : Text) → every is_code_unit t ≡ true → to_upper_case t ≡ t
unfolding to_upper_case every
to_upper_case-id [] h = refl
to_upper_case-id (c ∷ t) h =
    let met : is_code_unit c ≡ true = ground arith in
    let rest : every is_code_unit t ≡ true = ground arith in
    rw (code_unit-upper c met, to_upper_case-id t rest) refl

code_pattern-units : (t : Text) → code_pattern t ≡ true → every is_code_unit t ≡ true
unfolding code_pattern
code_pattern-units t h = ground arith

normalize-fixed : (c : Text) → code_pattern c ≡ true → normalize_promo_code c ≡ ok c
unfolding normalize_promo_code
normalize-fixed c h =
    let units = code_pattern-units c h in
    let same : to_upper_case (trim c) ≡ c =
      ap to_upper_case (trim-id is_code_unit c code_unit-solid units) ∙ to_upper_case-id c units in
    rw (same, h) refl

-- A code that is accepted comes out in a form that matches the pattern of codes, and is accepted
-- again in that form, unchanged: normalization is idempotent.
pub normalize-normalize :
    (raw c : Text)
    → normalize_promo_code raw ≡ ok c
    → (code_pattern c ≡ true) × (normalize_promo_code c ≡ ok c)
unfolding normalize_promo_code
normalize-normalize raw c h =
    elim (if-eq (code_pattern (to_upper_case (trim raw))) (ok (to_upper_case (trim raw)))
      (err (coded 422 invalid_promo_code)) h) [
        | inl (matches, e) ↦
            let same : to_upper_case (trim raw) ≡ c = ok_eq e in
            let good : code_pattern c ≡ true = rw (← same) matches in (good, normalize-fixed c good)
        | inr (_, e) ↦ cc
      ]
