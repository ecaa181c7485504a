-- ===== src/Double/Micro.antt =====
-- A concrete type for `double`: whole millionths, with `none` for NaN. It shows that the laws of
-- `IsOrdered` can be met, and lets the tests run. Trigonometry and powers are placeholders.
use native.Mathlib.Nat.{mul-div_cancel, zero-div}
use physicar_ros.Base.{
  ℕ, zero, suc, ◌+◌, ◌*◌, ◌/◌, ◌^◌, ◌≤◌, ◌<◌, ◌≡◌, Bool, true, false, ◌&&◌, Option, none, some,
  arith, ◌==◌, if◌then◌else◌,
}
use physicar_ros.Base.Int.{
  ℤ, pos, negsuc, pos_part, neg_part, sub_ℕ, ◌+ℤ◌, ◌-ℤ◌, ◌*ℤ◌, neg_ℤ, ◌≤ℤ◌, ltb_ℤ, leb_ℤ,
}
use physicar_ros.Double.{Double, ◌≼◌, IsOrdered, IsRounded}

abbrev pub Micro : Type 0
Micro = Option ℤ

abbrev on_ints : (ℤ → ℤ → Bool) → Micro → Micro → Bool
on_ints f (some a) (some b) = f a b
on_ints f (some a) none = false
on_ints f none b = false

abbrev lift₂ : (ℤ → ℤ → Micro) → Micro → Micro → Micro
lift₂ f (some a) (some b) = f a b
lift₂ f (some a) none = none
lift₂ f none b = none

abbrev lift₁ : (ℤ → ℤ) → Micro → Micro
lift₁ f (some a) = some (f a)
lift₁ f none = none

-- Division of an integer by a natural, towards zero.
abbrev towards_zero : ℤ → ℕ → ℤ
towards_zero a n = sub_ℕ (pos_part a / n) (neg_part a / n)

abbrev pub unit : ℕ
unit = 1_000_000

abbrev abs_int : ℤ → ℤ
abs_int (pos n) = pos n
abs_int (negsuc n) = pos (suc n)

abbrev div_int : ℤ → ℤ → Micro
div_int a (pos n) = if n == 0 then none else some (towards_zero (a *ℤ pos unit) n)
div_int a (negsuc n) = some (neg_ℤ (towards_zero (a *ℤ pos unit) (suc n)))

abbrev round_int : ℤ → ℤ
round_int (pos n) = pos ((n + 500_000) / unit * unit)
round_int (negsuc n) = neg_ℤ (pos ((suc n + 500_000) / unit * unit))

abbrev with_sign : ℤ → ℤ → ℤ
with_sign a (pos n) = abs_int a
with_sign a (negsuc n) = neg_ℤ (abs_int a)

abbrev trunc_micro : Micro → ℤ
trunc_micro (some a) = towards_zero a unit
trunc_micro none = pos 0

abbrev is_some : Micro → Bool
is_some (some a) = true
is_some none = false

instance abbrev pub micro_double : Double Micro
micro_double = record {
  literal = λ m e. some (pos (m * unit / 10 ^ e));
  of_ℤ = λ a. some (a *ℤ pos unit);
  trunc = trunc_micro;
  lt = on_ints ltb_ℤ;
  le = on_ints leb_ℤ;
  eq = on_ints (λ a b. leb_ℤ a b && leb_ℤ b a);
  is_finite = is_some;
  add = lift₂ (λ a b. some (a +ℤ b));
  sub = lift₂ (λ a b. some (a -ℤ b));
  mul = lift₂ (λ a b. some (towards_zero (a *ℤ b) unit));
  div = lift₂ div_int;
  neg = lift₁ neg_ℤ;
  abs = lift₁ abs_int;
  round = lift₁ round_int;
  sin = λ x. x;
  asin = λ x. x;
  tan = λ x. x;
  atan = λ x. x;
  cos = λ x. some (pos unit);
  sqrt = λ x. x;
  pow = λ x k. x;
  copysign = lift₂ (λ a b. some (with_sign a b));
  pi = some (pos 3_141_592);
}

-- A decimal constant and NaN.
abbrev pub dec : ℕ → ℕ → Micro
dec m e = some (pos (m * unit / 10 ^ e))

abbrev pub nan : Micro
nan = none

pub div_mono : (a b k : ℕ) → a ≤ b → a / k ≤ b / k
div_mono a b k h = grind arith

pub times_mono : (a b k : ℕ) → a ≤ b → a * k ≤ b * k
times_mono a b k h = grind arith

Micro-literal_mono : (m n e : ℕ) → m ≤ n → dec m e ≼ dec n e
Micro-literal_mono m n e h = ground (arith, div_mono (m * unit) (n * unit) (10 ^ e) (omega arith))

Micro-literal_strict : (m n e : ℕ) → m < n → e ≤ 6 → micro_double.lt (dec m e) (dec n e) ≡ true
Micro-literal_strict m n zero h k = ground arith
Micro-literal_strict m n (suc zero) h k = ground arith
Micro-literal_strict m n (suc (suc zero)) h k = ground arith
Micro-literal_strict m n (suc (suc (suc zero))) h k = ground arith
Micro-literal_strict m n (suc (suc (suc (suc zero)))) h k = ground arith
Micro-literal_strict m n (suc (suc (suc (suc (suc zero))))) h k = ground arith
Micro-literal_strict m n (suc (suc (suc (suc (suc (suc zero)))))) h k = ground arith
Micro-literal_strict m n (suc (suc (suc (suc (suc (suc (suc e))))))) h k = absurd (omega arith)

pub Micro-IsOrdered : IsOrdered Micro
Micro-IsOrdered = record {
  num_of_le = ground arith;
  num_of_lt = ground arith;
  le_trans = ground arith;
  le_total = ground arith;
  lt-eq-not-le = ground arith;
  literal_mono = Micro-literal_mono;
  literal_strict = λ m n e h _. Micro-literal_strict m n e h;
  literal_zero = λ e. ground (arith, zero-div (10 ^ e));
  num_of_eq = ground arith;
  le_of_eq = ground arith;
  eq_of_le = ground arith;
  num_of_add = ground arith;
  neg_mono = ground arith;
  neg-literal-le = ground arith;
  abs_eq = ground arith;
  abs_num = ground arith;
  le-abs = ground arith;
  abs_literal = ground arith;
}

pub pos-times : (a b : ℕ) → pos a *ℤ pos b ≡ pos (a * b)
pos-times a b = ground arith

whole : (a : ℕ) → a / 1 ≡ a
whole a = omega arith

pos-div : (a n : ℕ) → 0 < n → div_int (pos a) (pos n) ≡ some (pos (a * unit / n))
pos-div a n h = ground (arith, pos-times a unit, zero-div n)

Micro-div_mono :
    (x y : Micro) (n : ℕ)
    → 0 < n
    → dec 0 0 ≼ x
    → x ≼ y
    → micro_double.div x (dec n 0) ≼ micro_double.div y (dec n 0)
Micro-div_mono (some (pos a)) (some (pos b)) n hn h₀ h =
    rw (whole (n * unit), pos-div a (n * unit) (omega arith), pos-div b (n * unit) (omega arith))
      (ground (arith, div_mono (a * unit) (b * unit) (n * unit) (ground arith)))
Micro-div_mono (some (pos a)) (some (negsuc b)) n hn h₀ h = ground arith
Micro-div_mono (some (negsuc a)) y n hn h₀ h = ground arith
Micro-div_mono none y n hn h₀ h = ground arith
Micro-div_mono (some (pos a)) none n hn h₀ h = ground arith

Micro-div_exact : (m n : ℕ) → 0 < n → micro_double.div (dec (m * n) 0) (dec n 0) ≡ dec m 0
Micro-div_exact m n h =
    let e : m * n * unit * unit ≡ m * unit * (n * unit) = omega arith in
    let q : m * n * unit * unit / (n * unit) ≡ m * unit =
      rw e (mul-div_cancel (m * unit) {n = n * unit} (omega arith)) in
    rw (
      whole (n * unit),
      whole (m * n * unit),
      whole (m * unit),
      pos-div (m * n * unit) (n * unit) (omega arith),
      q,
    )

Micro-mul_mono :
    (x y : Micro) (n : ℕ)
    → dec 0 0 ≼ x
    → x ≼ y
    → micro_double.mul x (micro_double.of_ℤ (pos n))
      ≼ micro_double.mul y (micro_double.of_ℤ (pos n))
Micro-mul_mono (some (pos a)) (some (pos b)) n h₀ h =
    rw (pos-times n unit, pos-times a (n * unit), pos-times b (n * unit))
      (ground (
        arith,
        div_mono (a * (n * unit)) (b * (n * unit)) unit (times_mono a b (n * unit) (ground arith)),
      ))
Micro-mul_mono (some (pos a)) (some (negsuc b)) n h₀ h = ground arith
Micro-mul_mono (some (negsuc a)) y n h₀ h = ground arith
Micro-mul_mono none y n h₀ h = ground arith
Micro-mul_mono (some (pos a)) none n h₀ h = ground arith

Micro-mul_exact :
    (m n : ℕ)
    → micro_double.mul (dec m 0) (micro_double.of_ℤ (pos n)) ≡ micro_double.of_ℤ (pos (m * n))
Micro-mul_exact m n =
    let e : m * unit * (n * unit) ≡ m * n * unit * unit = omega arith in
    let q : m * unit * (n * unit) / unit ≡ m * n * unit =
      rw e (mul-div_cancel (m * n * unit) {n = unit} (omega arith)) in
    rw (whole (m * unit), pos-times n unit, pos-times (m * unit) (n * unit), pos-times (m * n) unit)
      (ground (arith, q))

Micro-trunc_bounds :
    (x : Micro) (m n : ℕ)
    → micro_double.of_ℤ (pos m) ≼ x
    → x ≼ micro_double.of_ℤ (pos n)
    → (pos m ≤ℤ micro_double.trunc x) × (micro_double.trunc x ≤ℤ pos n)
Micro-trunc_bounds none m n h k = ground arith
Micro-trunc_bounds (some (pos a)) m n h k = ground (arith, pos-times m unit, pos-times n unit)
Micro-trunc_bounds (some (negsuc a)) m n h k = ground (arith, pos-times m unit)

Micro-add_mono :
    (x y : Micro) (n : ℕ)
    → x ≼ y
    → micro_double.add (micro_double.of_ℤ (pos n)) x
      ≼ micro_double.add (micro_double.of_ℤ (pos n)) y
Micro-add_mono x y n h = ground arith

pub Micro-IsRounded : IsRounded Micro
Micro-IsRounded = record {
  div_mono = λ x y n h _. Micro-div_mono x y n h;
  div_exact = λ m n h _. Micro-div_exact m n h;
  mul_mono = λ x y n _ _. Micro-mul_mono x y n;
  mul_exact = λ m n _ _ _. Micro-mul_exact m n;
  add_mono = λ x y n _. Micro-add_mono x y n;
  add_exact = ground arith;
  trunc_bounds = λ x m n _. Micro-trunc_bounds x m n;
}
