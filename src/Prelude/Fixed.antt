-- ===== src/Prelude/Fixed.antt =====
-- A float64 stood in for by whole thousandths, to run the code on and to meet the assumptions about
-- `Float64`: no value is NaN, and a product or a quotient is rounded down.
use Prim.Native.Nat.{ℕ, zero, suc, ◌+◌, ◌*◌, ◌/◌, ◌^◌}
use mathlib.Core.Path.{◌≡◌, refl, ap}
use mathlib.Core.Bool.{true}
use native.Mathlib.Omega.{arith}
use k8s_operator_cloudflare.Prelude.Int.{ℤ, pos, negsuc, pos_part, neg_part, sub_ℕ, ltb_ℤ, leb_ℤ}
use k8s_operator_cloudflare.Prelude.Float.{Float64, IsOrdered, Converts, Truncates, Computes}

abbrev pub Thousandths : Type 0
Thousandths = ℤ

abbrev scaled : (ℕ → ℕ → ℕ) → ℤ → ℤ → ℤ
scaled op a b =
    sub_ℕ (op (pos_part a) (pos_part b) + op (neg_part a) (neg_part b))
      (op (pos_part a) (neg_part b) + op (neg_part a) (pos_part b))

abbrev quotient : ℤ → ℤ → ℤ
quotient (pos a) (pos b) = pos (a * 1000 / b)
quotient (pos a) (negsuc b) = sub_ℕ 0 (a * 1000 / suc b)
quotient (negsuc a) (pos b) = sub_ℕ 0 (suc a * 1000 / b)
quotient (negsuc a) (negsuc b) = pos (suc a * 1000 / suc b)

abbrev power : ℤ → ℕ → ℤ
power a zero = pos 1000
power a (suc n) = scaled (λ x y. x * y / 1000) a (power a n)

instance abbrev pub fixed : Float64 Thousandths
fixed = record {
  lit = λ n k. pos (n * 1000 / 10 ^ k);
  of_ℤ = λ n. sub_ℕ (1000 * pos_part n) (1000 * neg_part n);
  to_duration = λ x. sub_ℕ (pos_part x / 1000) (neg_part x / 1000);
  add = λ a b. sub_ℕ (pos_part a + pos_part b) (neg_part a + neg_part b);
  sub = λ a b. sub_ℕ (pos_part a + neg_part b) (neg_part a + pos_part b);
  mul = scaled (λ x y. x * y / 1000);
  div = quotient;
  pow = λ a b. power a (pos_part b / 1000);
  lt = ltb_ℤ;
  le = leb_ℤ;
}

pub fixed-IsOrdered : IsOrdered Thousandths
fixed-IsOrdered = record {
  number_of_le = λ x y h. (ground arith, ground arith);
  le_trans = λ x y z h k. ground arith;
  le_of_not_lt = λ x y _ _ h. ground arith;
  le_of_lt = λ x y h. ground arith;
  not_le_of_lt = λ x y h. ground arith;
  not_lt_of_le = λ x y h. ground arith;
}

pub fixed-Converts : Converts Thousandths
fixed-Converts = record {
  of_zero = refl;
  number_of_ℤ = λ n. ground arith;
  of_ℤ-mono = λ m n h. ground arith;
}

fixed-Truncates : Truncates Thousandths
fixed-Truncates = record { to_duration_within = λ m n x _ _ h k. (ground arith, ground arith) }

-- Zero divided by a positive number.
zero_over : (y : ℤ) → ltb_ℤ (pos 0) y ≡ true → quotient (pos 0) y ≡ pos 0
zero_over (pos zero) h = cc
zero_over (pos (suc n)) h = ap pos (omega arith)
zero_over (negsuc n) h = ground arith

pub fixed-Computes : Computes Thousandths
fixed-Computes = record {
  sub_one_le = λ x _. ground arith;
  sub_one = λ k x _ h. ground arith;
  one_pos = refl;
  half_pos = refl;
  succ_pos = λ n. ground arith;
  zero_div = λ y h. zero_over y h;
}
