-- ===== src/Double.antt =====
-- The program's `double`, and the functions of <cmath> and <algorithm> that it calls on it. Its
-- arithmetic is not code of the repository: the type is a parameter, with its operations in
-- `Double`, and what the theorems use of IEEE 754 in `IsOrdered`.
pub mod Micro
use physicar_ros.Base.{
  ℕ, ◌+◌, ◌^◌, ◌<◌, ◌≤◌, ◌≡◌, Bool, not, true, false, ◌⊎◌, ◌*◌, arith, if◌then◌else◌, Bool-cases,
  inl, inr,
}
use physicar_ros.Base.Int.{ℤ, pos, ◌≤ℤ◌}

pub record Double {ℓ} (F : Type ℓ) : Type ℓ where
  -- `literal m e` is the constant m / 10^e; `of_ℤ` and `trunc` convert from and to an integer.
  pub literal : ℕ → ℕ → F
  pub of_ℤ : ℤ → F
  pub trunc : F → ℤ
  pub lt : F → F → Bool
  pub le : F → F → Bool
  pub eq : F → F → Bool
  pub is_finite : F → Bool
  pub add : F → F → F
  pub sub : F → F → F
  pub mul : F → F → F
  pub div : F → F → F
  pub neg : F → F
  pub abs : F → F
  pub round : F → F
  pub sin : F → F
  pub asin : F → F
  pub tan : F → F
  pub atan : F → F
  pub cos : F → F
  pub sqrt : F → F
  pub pow : F → F → F
  pub copysign : F → F → F
  pub pi : F

-- The conversions between `float` and `double`.
pub record Casts {ℓ κ} (F : Type ℓ) (G : Type κ) : Type (ℓ ⊔ κ) where
  pub widen : G → F
  pub narrow : F → G

infix 4 ◌≼◌
abbrev pub ◌≼◌ {ℓ} : {F : Type ℓ} ⦃d : Double F⦄ → F → F → Type 0
◌≼◌ ⦃d⦄ x y = d.le x y ≡ true

-- NaN is the value that is not `<=` itself.
abbrev pub IsNum {ℓ} : {F : Type ℓ} ⦃d : Double F⦄ → F → Type 0
IsNum x = x ≼ x

-- NaN or within the limits.
abbrev pub Within {ℓ} : {F : Type ℓ} ⦃d : Double F⦄ → F → F → F → Type 0
Within ⦃d⦄ lo hi x = (d.le x x ≡ false) ⊎ ((lo ≼ x) × (x ≼ hi))

pub absurd_bool {ℓ} : {A : Type ℓ} {b : Bool} → b ≡ true → b ≡ false → A
absurd_bool p q = absurd (cc)

-- Comparisons with NaN are false; away from NaN they are a total order. A non-negative constant
-- keeps its order with others of as many decimals, and lies above every negated one. Two different
-- constants of at most 10^6 units and six decimals are told apart: they differ by a millionth of
-- the larger one at least, which is more than a unit in the last place of a `float`.
pub record IsOrdered {ℓ} (F : Type ℓ) ⦃d : Double F⦄ : Type ℓ where
  pub num_of_le : (x y : F) → x ≼ y → IsNum x × IsNum y
  pub num_of_lt : (x y : F) → d.lt x y ≡ true → IsNum x × IsNum y
  pub le_trans : (x y z : F) → x ≼ y → y ≼ z → x ≼ z
  pub le_total : (x y : F) → IsNum x → IsNum y → (x ≼ y) ⊎ (y ≼ x)
  pub lt-eq-not-le : (x y : F) → IsNum x → IsNum y → d.lt x y ≡ not (d.le y x)
  pub literal_mono : (m n e : ℕ) → m ≤ n → d.literal m e ≼ d.literal n e
  pub literal_strict :
      (m n e : ℕ) → m < n → n ≤ 1_000_000 → e ≤ 6 → d.lt (d.literal m e) (d.literal n e) ≡ true
  pub literal_zero : (e : ℕ) → d.literal 0 e ≡ d.literal 0 0
  pub num_of_eq : (x y : F) → d.eq x y ≡ true → IsNum x × IsNum y
  pub le_of_eq : (x y : F) → d.eq x y ≡ true → (x ≼ y) × (y ≼ x)
  pub eq_of_le : (x y : F) → x ≼ y → y ≼ x → d.eq x y ≡ true
  pub num_of_add : (x y : F) → IsNum (d.add x y) → IsNum x × IsNum y
  pub neg_mono : (x y : F) → x ≼ y → d.neg y ≼ d.neg x
  pub neg-literal-le : (m n e : ℕ) → d.neg (d.literal m e) ≼ d.literal n e
  pub abs_eq : (x : F) → (d.abs x ≡ x) ⊎ (d.abs x ≡ d.neg x)
  pub abs_num : (x : F) → IsNum (d.abs x) → IsNum x
  pub le-abs : (x : F) → IsNum x → x ≼ d.abs x
  pub abs_literal : (m e : ℕ) → d.abs (d.literal m e) ≡ d.literal m e

-- Rounding is monotone, and exact where the result is an integer below 2^53. The integers are finite
-- as numbers, and a factor is not zero, so that no product of it with an infinity is NaN.
pub record IsRounded {ℓ} (F : Type ℓ) ⦃d : Double F⦄ : Type ℓ where
  pub div_mono :
      (x y : F) (n : ℕ)
      → 0 < n
      → n < 2 ^ 53
      → d.literal 0 0 ≼ x
      → x ≼ y
      → d.div x (d.literal n 0) ≼ d.div y (d.literal n 0)
  pub div_exact :
      (m n : ℕ)
      → 0 < n
      → m * n < 2 ^ 53
      → d.div (d.literal (m * n) 0) (d.literal n 0) ≡ d.literal m 0
  pub mul_mono :
      (x y : F) (n : ℕ)
      → 0 < n
      → n < 2 ^ 53
      → d.literal 0 0 ≼ x
      → x ≼ y
      → d.mul x (d.of_ℤ (pos n)) ≼ d.mul y (d.of_ℤ (pos n))
  pub mul_exact :
      (m n : ℕ)
      → 0 < n
      → m < 2 ^ 53
      → m * n < 2 ^ 53
      → d.mul (d.literal m 0) (d.of_ℤ (pos n)) ≡ d.of_ℤ (pos (m * n))
  pub add_mono :
      (x y : F) (n : ℕ) → n < 2 ^ 53 → x ≼ y → d.add (d.of_ℤ (pos n)) x ≼ d.add (d.of_ℤ (pos n)) y
  pub add_exact :
      (m n : ℕ) → m + n < 2 ^ 53 → d.add (d.of_ℤ (pos m)) (d.of_ℤ (pos n)) ≡ d.of_ℤ (pos (m + n))
  pub trunc_bounds :
      (x : F) (m n : ℕ)
      → n < 2 ^ 31
      → d.of_ℤ (pos m) ≼ x
      → x ≼ d.of_ℤ (pos n)
      → (pos m ≤ℤ d.trunc x) × (d.trunc x ≤ℤ pos n)

module _ {ℓ} {F : Type ℓ} ⦃d : Double F⦄ where
  open d use {lt, add, mul, div, literal, pi}

  -- `std::clamp`, `std::max` and `std::min`, as the standard defines them by `<`.
  unfoldable pub clamp : F → F → F → F
  clamp v lo hi = if lt v lo then lo else (if lt hi v then hi else v)

  unfoldable pub max : F → F → F
  max a b = if lt a b then b else a

  unfoldable pub min : F → F → F
  min a b = if lt b a then b else a

  abbrev pub rad_of_deg : F → F
  rad_of_deg x = div (mul x pi) (literal 180 0)

  abbrev pub deg_of_rad : F → F
  deg_of_rad x = div (mul x (literal 180 0)) pi

  module _ (laws : IsOrdered F) where
    open laws use {num_of_le, num_of_lt, le_total, lt-eq-not-le}

    pub le_of_lt : (x y : F) → lt x y ≡ true → x ≼ y
    le_of_lt x y h =
        let (nx, ny) = num_of_lt x y h in ground (arith, le_total x y nx ny, lt-eq-not-le x y nx ny)

    pub le_of_not_lt : (x y : F) → IsNum x → IsNum y → lt x y ≡ false → y ≼ x
    le_of_not_lt x y nx ny h = ground (arith, lt-eq-not-le x y nx ny)

    -- Nothing is below itself, NaN included.
    pub lt_irrefl : (x : F) → lt x x ≡ false
    lt_irrefl x = ground (arith, num_of_lt x x, lt-eq-not-le x x)

    -- `std::clamp` keeps a number within its limits; NaN passes through it.
    pub clamp_bounds :
        (v lo hi : F) → lo ≼ hi → IsNum v → (lo ≼ clamp v lo hi) × (clamp v lo hi ≼ hi)
    unfolding clamp
    clamp_bounds v lo hi h n =
        let (nlo, nhi) = num_of_le lo hi h in
        ground (arith, nlo, nhi, le_of_not_lt v lo n nlo, le_of_not_lt hi v nhi n)

    -- `std::max` with a number first is at least that number, whatever the other value is.
    pub le-max : (a b : F) → IsNum a → a ≼ max a b
    unfolding max
    le-max a b n = ground (arith, le_of_lt a b)

    pub min-le : (a b : F) → IsNum a → min a b ≼ a
    unfolding min
    min-le a b n = ground (arith, le_of_lt b a)

    pub lt_nan : (x y : F) → ¬ IsNum x → (lt x y ≡ false) × (lt y x ≡ false)
    lt_nan x y n = ground (arith, num_of_lt x y, num_of_lt y x)

    pub clamp_nan : (v lo hi : F) → ¬ IsNum v → clamp v lo hi ≡ v
    unfolding clamp
    clamp_nan v lo hi n = ground (arith, lt_nan v lo n, lt_nan v hi n)

    pub not_lt_of_le : (x y : F) → x ≼ y → lt y x ≡ false
    not_lt_of_le x y h = let (nx, ny) = num_of_le x y h in ground (arith, lt-eq-not-le y x ny nx)

    -- A value between the limits is left alone.
    pub clamp_inside : (v lo hi : F) → lo ≼ v → v ≼ hi → clamp v lo hi ≡ v
    unfolding clamp
    clamp_inside v lo hi p q = ground (arith, not_lt_of_le lo v p, not_lt_of_le v hi q)

    -- Whatever comes out of `std::clamp` is NaN or within the limits.
    pub clamp-Within : (v lo hi : F) → lo ≼ hi → Within lo hi (clamp v lo hi)
    clamp-Within v lo hi h = elim (Bool-cases (d.le v v)) [
      | inl num ↦ inr (clamp_bounds v lo hi h num)
      | inr nan ↦ inl (rw (clamp_nan v lo hi (λ n. absurd_bool n nan)) nan)
    ]
