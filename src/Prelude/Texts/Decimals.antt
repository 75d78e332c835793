-- ===== src/Prelude/Texts/Decimals.antt =====
-- What `%d` prints determines the number: the lemmas on `decimal`.
use Prim.Native.Nat.{ℕ, zero, suc, ◌+◌, ◌-◌, ◌*◌, ◌/◌, ◌%◌, ◌≤◌, ◌<◌}
use mathlib.Core.Path.{◌≡◌, sym, ap, ◌∙◌}
use mathlib.Core.Logic.{inl, inr}
use mathlib.Core.List.{[], ◌∷◌}
use native.Mathlib.Omega.{arith}
use tsjwt.Prelude.Tests.{ltb, ltb→lt, Bool-cases}
use tsjwt.Prelude.Lists.{All}
use tsjwt.Prelude.Texts.{Text, decimal, decimal_fuel}

-- The number that digits stand for, after the digits of `v`.
value : ℕ → Text → ℕ
value v [] = v
value v (c ∷ s) = value (v * 10 + (c - b'0')) s

value-decimal_fuel : (f n : ℕ) (acc : Text) → n < f → value 0 (decimal_fuel f n acc) ≡ value n acc
unfolding value decimal_fuel
value-decimal_fuel zero n acc h = absurd (omega arith)
value-decimal_fuel (suc f) n acc h = elim (Bool-cases (ltb n 10)) [
  | inl last ↦
      let small : n < 10 = ltb→lt n 10 last in rw last (ap (λ (v : ℕ). value v acc) (omega arith))
  | inr more ↦
      let big : 10 ≤ n = ground arith in
      rw more (
        value-decimal_fuel f (n / 10) ((b'0' + n % 10) ∷ acc) (omega arith)
        ∙ ap (λ (v : ℕ). value v acc) (omega arith))
]

pub decimal-injective : (m n : ℕ) → decimal m ≡ decimal n → m ≡ n
unfolding decimal value
decimal-injective m n e =
    sym (value-decimal_fuel (suc m) m [] (omega arith))
    ∙ (ap (λ (s : Text). value 0 s) e ∙ value-decimal_fuel (suc n) n [] (omega arith))

digits_fuel :
    (f n : ℕ) (acc : Text)
    → All (λ (c : ℕ). b'0' ≤ c) acc
    → All (λ (c : ℕ). b'0' ≤ c) (decimal_fuel f n acc)
unfolding decimal_fuel
digits_fuel zero n acc h = h
digits_fuel (suc f) n acc h = ground (arith, digits_fuel f (n / 10) ((b'0' + n % 10) ∷ acc))

-- No digit is below "0", so a sign is none.
pub decimal-digits : (n : ℕ) → All (λ (c : ℕ). b'0' ≤ c) (decimal n)
unfolding decimal
decimal-digits n = digits_fuel (suc n) n [] tt
