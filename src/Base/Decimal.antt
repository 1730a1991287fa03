-- ===== src/Base/Decimal.antt =====
-- `%d`: decimal digits of a number.
use Prim.Native.Nat.{ℕ, zero, suc, ◌+◌, ◌-◌, ◌*◌, ◌/◌, ◌%◌, ◌<◌}
use mathlib.Core.Path.{◌≡◌, refl}
use mathlib.Core.Logic.{◌⊎◌, inl, inr}
use native.Mathlib.Omega.{arith}
use mathlib.Core.List.{[], ◌∷◌}
use finokit.Base.Int.{ℤ, pos, negsuc}
use finokit.Base.Strings.{Text}

-- The digits of `n` in front of `out`; a number `n` has fewer than `n + 1` digits after its first.
unfoldable pub digits_from : ℕ → ℕ → Text → Text
digits_from zero n out = out
digits_from (suc fuel) n out = elim (n / 10) [
  | zero ↦ (48 + n % 10) ∷ out
  | suc q ↦ digits_from fuel (n / 10) ((48 + n % 10) ∷ out)
]

unfoldable pub format_nat : ℕ → Text
unfolding digits_from
format_nat n = digits_from (suc n) n []

unfoldable pub format_int : ℤ → Text
unfolding format_nat
format_int (pos n) = format_nat n
format_int (negsuc n) = 45 ∷ format_nat (suc n)

-- The number that decimal digits spell, after those that spell `acc`.
unfoldable pub digits_value : ℕ → Text → ℕ
digits_value acc [] = acc
digits_value acc (c ∷ s) = digits_value (acc * 10 + (c - 48)) s

small : (n : ℕ) → (n ≡ 0) ⊎ ((q : ℕ) × (n ≡ suc q))
small zero = inl refl
small (suc q) = inr (q, refl)

digits_value-digits_from :
    (fuel n : ℕ) (out : Text)
    → n < fuel
    → digits_value 0 (digits_from fuel n out) ≡ digits_value n out
unfolding digits_from digits_value
digits_value-digits_from zero n out lt = absurd (omega arith)
digits_value-digits_from (suc fuel) n out lt =
    let last : (n / 10) * 10 + (48 + n % 10 - 48) ≡ n = omega arith in
    elim (small (n / 10)) [
      | inl none_left ↦ ground arith
      | inr (q, more) ↦ ground (arith, digits_value-digits_from fuel (n / 10) ((48 + n % 10) ∷ out))
    ]

pub digits_value-format_nat : (n : ℕ) → digits_value 0 (format_nat n) ≡ n
unfolding format_nat digits_value
digits_value-format_nat n = digits_value-digits_from (suc n) n [] (omega arith)
