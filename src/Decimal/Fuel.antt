-- ===== src/Decimal/Fuel.antt =====
-- The fuel of the decimal digits.
use Prim.Native.Nat.{◌/◌, ◌%◌}
use cicd_tools.Prelude.{
  ℕ, zero, suc, ◌<◌, ◌<>◌, ◌≡◌, refl, ap, arith, ltb, Bool-cases, inl, inr, false,
}
use cicd_tools.Decimal.{digit, digits, decimal}

fewer : (n fuel : ℕ) → ltb n 10 ≡ false → n < suc fuel → n / 10 < fuel
fewer n fuel h k = ground arith

digits-same : (fuel more n : ℕ) → n < fuel → n < more → digits fuel n ≡ digits more n
unfolding digits
digits-same zero more n h k = absurd (omega arith)
digits-same (suc fuel) zero n h k = absurd (omega arith)
digits-same (suc fuel) (suc more) n h k = elim (Bool-cases (ltb n 10)) [
  | inl p ↦ rw p refl
  | inr p ↦ rw p (
      ap (λ s. s <> digit (n % 10))
        (digits-same fuel more (n / 10) (fewer n fuel p h) (fewer n more p k)))
]

-- The fuel that the conversion of a count to decimal digits starts with is enough: any greater fuel
-- gives the same text.
pub digits-enough : (fuel n : ℕ) → n < fuel → digits fuel n ≡ decimal n
unfolding decimal
digits-enough fuel n h = digits-same fuel (suc n) n h (omega arith)
