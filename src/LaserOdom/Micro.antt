-- ===== src/LaserOdom/Micro.antt =====
-- The laws of rounding that the grid needs hold for the type that the tests run on.
use physicar_ros.Base.{ℕ, ◌≤◌, ◌*◌, ◌/◌, ◌≡◌, refl, true, some, none, arith}
use physicar_ros.Base.Int.{pos, negsuc}
use physicar_ros.Double.{◌≼◌}
use physicar_ros.Double.Micro.{Micro, micro_double, dec, unit, div_mono, times_mono, pos-times}
use physicar_ros.LaserOdom.Grid.Bounds.{IsMonotone}

Micro-mul_mono :
    (x y k : Micro)
    → dec 0 0 ≼ x
    → x ≼ y
    → micro_double.lt (dec 0 0) k ≡ true
    → micro_double.mul x k ≼ micro_double.mul y k
Micro-mul_mono (some (pos a)) (some (pos b)) (some (pos k)) h₀ h hk =
    rw (pos-times a k, pos-times b k)
      (ground (arith, div_mono (a * k) (b * k) unit (times_mono a b k (ground arith))))
Micro-mul_mono (some (pos a)) (some (negsuc b)) k h₀ h hk = ground arith
Micro-mul_mono (some (negsuc a)) y k h₀ h hk = ground arith
Micro-mul_mono none y k h₀ h hk = ground arith
Micro-mul_mono (some (pos a)) none k h₀ h hk = ground arith
Micro-mul_mono (some (pos a)) (some (pos b)) (some (negsuc k)) h₀ h hk = ground arith
Micro-mul_mono (some (pos a)) (some (pos b)) none h₀ h hk = ground arith

Micro-mul_nonneg :
    (x k : Micro)
    → dec 0 0 ≼ x
    → micro_double.lt (dec 0 0) k ≡ true
    → dec 0 0 ≼ micro_double.mul x k
Micro-mul_nonneg (some (pos a)) (some (pos k)) h hk = rw (pos-times a k) (ground arith)
Micro-mul_nonneg (some (negsuc a)) k h hk = ground arith
Micro-mul_nonneg none k h hk = ground arith
Micro-mul_nonneg (some (pos a)) (some (negsuc k)) h hk = ground arith
Micro-mul_nonneg (some (pos a)) none h hk = ground arith

Micro-trunc_mono :
    (x y : Micro) (n : ℕ)
    → dec 0 0 ≼ x
    → x ≼ y
    → y ≼ micro_double.of_ℤ (pos n)
    → (a : ℕ) × (b : ℕ) × (micro_double.trunc x ≡ pos a)
      × (micro_double.trunc y ≡ pos b)
      × (a ≤ b)
      × (b ≤ n)
Micro-trunc_mono (some (pos a)) (some (pos b)) n h₀ h top = (
  a / unit,
  b / unit,
  ground arith,
  ground arith,
  div_mono a b unit (ground arith),
  ground (arith, pos-times n unit),
)
Micro-trunc_mono (some (pos a)) (some (negsuc b)) n h₀ h top = absurd (ground arith)
Micro-trunc_mono (some (negsuc a)) y n h₀ h top = absurd (ground arith)
Micro-trunc_mono none y n h₀ h top = absurd (ground arith)
Micro-trunc_mono (some (pos a)) none n h₀ h top = absurd (ground arith)

pub Micro-IsMonotone : IsMonotone Micro
Micro-IsMonotone = record {
  sub_mono = ground arith;
  sub_nonneg = ground arith;
  sub-le = ground arith;
  mul_mono = λ x y k h₀ h hk _. Micro-mul_mono x y k h₀ h hk;
  mul_nonneg = λ x k h hk _. Micro-mul_nonneg x k h hk;
  trunc_mono = λ x y n _. Micro-trunc_mono x y n;
  num_far = (refl, refl);
}
