-- ===== src/Prelude/Float.antt =====
-- What the code does with a float64: an interface, since the values are not modelled. A program
-- constant is `lit digits places`, so 0.25 is `lit 25 2`; `to_duration` is the conversion to an
-- integer. NaN is a value that is not `<=` itself.
use Prim.Native.Nat.{ℕ, suc, ◌^◌, ◌≤◌, ◌+◌}
use mathlib.Core.Path.{◌≡◌}
use mathlib.Core.Bool.{Bool, true, false}
use mathlib.Core.Logic.{inl, inr}
use k8s_operator_cloudflare.Prelude.Int.{ℤ, pos, pos_part, neg_part, ◌≤ℤ◌}
use k8s_operator_cloudflare.Prelude.Tests.{Bool-cases}

pub record Float64 {ℓ} (W : Type ℓ) : Type ℓ where
  pub lit : ℕ → ℕ → W
  pub of_ℤ : ℤ → W
  pub to_duration : W → ℤ
  pub add : W → W → W
  pub sub : W → W → W
  pub mul : W → W → W
  pub div : W → W → W
  pub pow : W → W → W
  pub lt : W → W → Bool
  pub le : W → W → Bool

infix 4 ◌≼◌
abbrev pub ◌≼◌ {ℓ} : {W : Type ℓ} ⦃f : Float64 W⦄ → W → W → Type 0
◌≼◌ ⦃f⦄ x y = f.le x y ≡ true

-- Not NaN.
abbrev pub IsNumber {ℓ} : {W : Type ℓ} ⦃f : Float64 W⦄ → W → Type 0
IsNumber x = x ≼ x

-- The integers that a float64 holds exactly.
abbrev pub IsExact : ℤ → Type 0
IsExact n = pos_part n + neg_part n ≤ 2 ^ 53

-- IEEE 754 comparison: total away from NaN.
pub record IsOrdered {ℓ} (W : Type ℓ) ⦃f : Float64 W⦄ : Type ℓ where
  pub number_of_le : (x y : W) → x ≼ y → IsNumber x × IsNumber y
  pub le_trans : (x y z : W) → x ≼ y → y ≼ z → x ≼ z
  pub le_of_not_lt : (x y : W) → IsNumber x → IsNumber y → f.lt y x ≡ false → x ≼ y
  pub le_of_lt : (x y : W) → f.lt x y ≡ true → x ≼ y
  pub not_le_of_lt : (x y : W) → f.lt x y ≡ true → f.le y x ≡ false
  pub not_lt_of_le : (x y : W) → x ≼ y → f.lt y x ≡ false

-- The conversion from an integer keeps the order.
pub record Converts {ℓ} (W : Type ℓ) ⦃f : Float64 W⦄ : Type ℓ where
  pub of_zero : f.of_ℤ (pos 0) ≡ f.lit 0 0
  pub number_of_ℤ : (n : ℤ) → IsNumber (f.of_ℤ n)
  pub of_ℤ-mono : (m n : ℤ) → m ≤ℤ n → f.of_ℤ m ≼ f.of_ℤ n

-- The conversion to an integer discards the fraction of a value that is in range. It is used only on
-- values between two integers that are held exactly; Go says nothing of one out of range.
pub record Truncates {ℓ} (W : Type ℓ) ⦃f : Float64 W⦄ : Type ℓ where
  pub to_duration_within :
      (m n : ℤ) (x : W)
      → IsExact m
      → IsExact n
      → f.of_ℤ m ≼ x
      → x ≼ f.of_ℤ n
      → (m ≤ℤ f.to_duration x) × (f.to_duration x ≤ℤ n)

-- Facts of IEEE 754 arithmetic about 1.0, 0.0 and the exact integers.
pub record Computes {ℓ} (W : Type ℓ) ⦃f : Float64 W⦄ : Type ℓ where
  pub sub_one_le : (x : W) → IsNumber x → f.sub x (f.lit 1 0) ≼ x
  pub sub_one :
      (k : ℕ) (x : W)
      → IsExact (pos (suc k))
      → x ≼ f.of_ℤ (pos (suc k))
      → f.sub x (f.lit 1 0) ≼ f.of_ℤ (pos k)
  pub one_pos : f.lt (f.of_ℤ (pos 0)) (f.lit 1 0) ≡ true
  pub half_pos : f.lt (f.lit 5 1) (f.of_ℤ (pos 0)) ≡ false
  pub succ_pos : (n : ℕ) → f.lt (f.of_ℤ (pos 0)) (f.add (f.of_ℤ (pos n)) (f.lit 1 0)) ≡ true
  pub zero_div :
      (y : W) → f.lt (f.of_ℤ (pos 0)) y ≡ true → f.div (f.of_ℤ (pos 0)) y ≡ f.of_ℤ (pos 0)

-- NaN included: a comparison that holds has numbers on both sides.
module _ {ℓ} {W : Type ℓ} ⦃f : Float64 W⦄ (order : IsOrdered W) where
  open order use {le_of_lt, le_of_not_lt, le_trans, number_of_le, not_le_of_lt}

  pub lt_le_trans : (x y z : W) → f.lt x y ≡ true → y ≼ z → f.lt x z ≡ true
  lt_le_trans x y z below h = elim (Bool-cases (f.lt x z)) [
    | inl e ↦ e
    | inr e ↦ cc (
      not_le_of_lt x y below,
      le_trans y z x h
          (le_of_not_lt z x (number_of_le y z h).1 (number_of_le x y (le_of_lt x y below)).0 e),
    )
  ]

  pub le_lt_trans : (x y z : W) → x ≼ y → f.lt y z ≡ true → f.lt x z ≡ true
  le_lt_trans x y z h below = elim (Bool-cases (f.lt x z)) [
    | inl e ↦ e
    | inr e ↦ cc (
      not_le_of_lt y z below,
      le_trans z x y
          (le_of_not_lt z x (number_of_le y z (le_of_lt y z below)).1 (number_of_le x y h).0 e) h,
    )
  ]

  -- What is not below a bound is not below a smaller one, and likewise from above.
  pub not_lt_lower : (x y z : W) → f.lt x z ≡ false → y ≼ z → f.lt x y ≡ false
  not_lt_lower x y z h least = elim (Bool-cases (f.lt x y)) [
    | inl e ↦ cc (lt_le_trans x y z e least, h)
    | inr e ↦ e
  ]

  pub not_lt_higher : (x y z : W) → f.lt x z ≡ false → x ≼ y → f.lt y z ≡ false
  not_lt_higher x y z h most = elim (Bool-cases (f.lt y z)) [
    | inl e ↦ cc (le_lt_trans x y z most e, h)
    | inr e ↦ e
  ]
