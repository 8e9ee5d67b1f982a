-- ===== src/Phone/Canonical.antt =====
-- The canonical form of a phone number is a fixed point of its normalization.
use waleed_bus.Base.{
  ℕ, ◌≡◌, refl, ap, ◌∙◌, true, false, [], ◌∷◌, Option, some, none, arith, if-eq, inl, inr,
}
use waleed_bus.Base.Text.{Text, trim, is_space, is_digit, every}
use waleed_bus.Base.Text.Trim.{trim-id}
use waleed_bus.Phone.{is_filler, compact, to_local, is_canonical, normalize_phone}

digit-solid : (c : ℕ) → is_digit c ≡ true → is_space c ≡ false
unfolding is_digit is_space
digit-solid c h = ground arith

digit-not_filler : (c : ℕ) → is_digit c ≡ true → is_filler c ≡ false
unfolding is_digit is_space
digit-not_filler c h = ground arith

compact-id : (t : Text) → every is_digit t ≡ true → compact t ≡ t
unfolding compact every
compact-id [] h = refl
compact-id (c ∷ t) h =
    let met : is_digit c ≡ true = ground arith in
    let rest : every is_digit t ≡ true = ground arith in
    rw (digit-not_filler c met, compact-id t rest) refl

canonical-digits : (t : Text) → is_canonical t ≡ true → every is_digit t ≡ true
unfolding is_canonical every is_digit
canonical-digits (a ∷ b ∷ t) h = ground arith
canonical-digits (a ∷ []) h = cc
canonical-digits [] h = cc

to_local-id : (t : Text) → is_canonical t ≡ true → to_local t ≡ t
unfolding is_canonical to_local
to_local-id (a ∷ b ∷ c ∷ t) h = ground arith
to_local-id (a ∷ b ∷ []) h = refl
to_local-id (a ∷ []) h = refl
to_local-id [] h = refl

some_eq : {a b : Text} → ◌≡◌ {A = Option Text} (some a) (some b) → a ≡ b
some_eq h = cc

normalize_phone-fixed : (p : Text) → is_canonical p ≡ true → normalize_phone p ≡ some p
unfolding normalize_phone
normalize_phone-fixed p h =
    let digits = canonical-digits p h in
    let same : to_local (compact (trim p)) ≡ p =
      ap (λ t. to_local (compact t)) (trim-id is_digit p digit-solid digits)
      ∙ ap to_local (compact-id p digits)
      ∙ to_local-id p h in
    rw (same, h) refl

-- A number that is accepted comes out in the form 01 and nine digits, and is accepted again in that
-- form, unchanged: the normal form is canonical, and normalization is idempotent.
pub normalize_phone-canonical :
    (input p : Text)
    → normalize_phone input ≡ some p
    → (is_canonical p ≡ true) × (normalize_phone p ≡ some p)
unfolding normalize_phone
normalize_phone-canonical input p h =
    elim (if-eq (is_canonical (to_local (compact (trim input))))
      (some (to_local (compact (trim input)))) none h) [
        | inl (canonical, e) ↦
            let same : to_local (compact (trim input)) ≡ p = some_eq e in
            let good : is_canonical p ≡ true = rw (← same) canonical in
            (good, normalize_phone-fixed p good)
        | inr (_, e) ↦ cc
      ]
