-- ===== src/Base/Text/Trim.antt =====
-- Text that has no blanks is left alone by `trim`.
use Prim.Native.Nat.{ℕ}
use mathlib.Core.Path.{◌≡◌, refl}
use mathlib.Core.Bool.{Bool, true, false}
use mathlib.Core.List.{[], ◌∷◌, reverse, reverse_aux, reverse-reverse}
use native.Mathlib.Omega.{arith}
use waleed_bus.Base.Text.{Text, is_space, drop_spaces, trim, every}

every-reverse_aux :
    (p : ℕ → Bool) (t r : Text)
    → every p t ≡ true
    → every p r ≡ true
    → every p (reverse_aux t r) ≡ true
unfolding every
every-reverse_aux p [] r h k = k
every-reverse_aux p (c ∷ t) r h k =
    let met : p c ≡ true = ground arith in
    let rest : every p t ≡ true = ground arith in every-reverse_aux p t (c ∷ r) rest (rw met k)

drop_spaces-id :
    (p : ℕ → Bool) (t : Text)
    → ((c : ℕ) → p c ≡ true → is_space c ≡ false)
    → every p t ≡ true
    → drop_spaces t ≡ t
unfolding drop_spaces every
drop_spaces-id p [] solid h = refl
drop_spaces-id p (c ∷ t) solid h = let met : p c ≡ true = ground arith in rw (solid c met) refl

pub trim-id :
    (p : ℕ → Bool) (t : Text)
    → ((c : ℕ) → p c ≡ true → is_space c ≡ false)
    → every p t ≡ true
    → trim t ≡ t
unfolding trim every
trim-id p t solid h =
    rw
      (
        drop_spaces-id p t solid h,
        drop_spaces-id p (reverse t) solid (every-reverse_aux p t [] h refl),
      )
      (reverse-reverse t)
