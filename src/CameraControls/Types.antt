-- ===== src/CameraControls/Types.antt =====
-- physicar_camera: the types that the camera's parameters are declared with, and the conversions.
use physicar_ros.Base.{
  ℕ, ◌≡◌, ◌≢◌, ◌⊎◌, refl, inl, inr, Bool, true, false, not, List, [], ◌∷◌, ◌==◌, length, arith,
  Bool-cases,
}
use physicar_ros.Base.Int.{ℤ}
use physicar_ros.Double.{Casts}
use physicar_ros.CameraControls.{
  ControlType, type_none, type_bool, type_byte, type_unsigned16, type_unsigned32, type_integer32,
  type_integer64, type_float, type_string, type_rectangle, type_size, type_point, Span, scalar,
  array, ControlValue, none_value, bools, bytes, unsigned16s, unsigned32s, integer32s, integer64s,
  floats, characters, rectangles, sizes, points, type_of, ParameterValue, pv_bool, pv_integer,
  pv_double, pv_bool_array, pv_integer_array, pv_double_array, get_type, invalid_conversion, Result,
  to_rectangle, to_size, to_point, pv_to_cv, pv_to_cv_int, pv_to_cv_int_array, scalar_type,
  array_type, cv_to_pv_type,
}

abbrev pub is_span_array {ℓ} : {A : Type ℓ} → Span A → Bool
is_span_array (scalar x) = false
is_span_array (array xs) = true

-- ControlValue::isArray.
abbrev pub is_array {ℓ} : {G : Type ℓ} → ControlValue G → Bool
is_array none_value = false
is_array (bools s) = is_span_array s
is_array (bytes s) = is_span_array s
is_array (unsigned16s s) = is_span_array s
is_array (unsigned32s s) = is_span_array s
is_array (integer32s s) = is_span_array s
is_array (integer64s s) = is_span_array s
is_array (floats s) = is_span_array s
is_array (characters s) = true
is_array (rectangles s) = is_span_array s
is_array (sizes s) = is_span_array s
is_array (points s) = is_span_array s

-- How many integers make a value of a geometric type.
abbrev pub needed : ControlType → ℕ
needed type_rectangle = 4
needed type_size = 2
needed type_point = 2
needed t = 0

abbrev pub IsGeometric : ControlType → Type 0
IsGeometric t = (t ≡ type_rectangle) ⊎ ((t ≡ type_size) ⊎ (t ≡ type_point))

-- An array control of truth values or of bytes.
abbrev pub IsUnsettable : ControlType → Bool → Type 0
IsUnsettable t is_one = (is_one ≡ false) × ((t ≡ type_bool) ⊎ (t ≡ type_byte))

module _ {F : Type 0} where
  -- A geometric control, and the parameter has another number of integers.
  abbrev pub HasWrongCount : ControlType → ParameterValue F → Type 0
  HasWrongCount t (pv_integer_array is) = IsGeometric t × (length is ≢ needed t)
  HasWrongCount t p = ⊥

module _ {F G : Type 0} where
  -- The conversion gives a value of the control's type, an array exactly if the control is one, or it
  -- is refused, for one of two reasons.
  abbrev pub Converted : ControlType → Bool → ParameterValue F → Result (ControlValue G) → Type 0
  Converted t is_one p (inr v) =
      (type_of v ≡ t) × (is_array v ≡ not is_one) × (¬ IsUnsettable t is_one)
  Converted t is_one p (inl e) =
      (e ≡ invalid_conversion) × (IsUnsettable t is_one ⊎ HasWrongCount t p)

module _ (F G : Type 0) where
  rectangle-Converted :
      (is : List ℤ)
      → Converted {F = F} {G = G} type_rectangle true (pv_integer_array is) (to_rectangle is)
  rectangle-Converted (x ∷ y ∷ w ∷ h ∷ []) = (refl, refl, λ u. ground arith)
  rectangle-Converted is = (refl, inr (inl refl, ground arith))

  size-Converted :
      (is : List ℤ) → Converted {F = F} {G = G} type_size true (pv_integer_array is) (to_size is)
  size-Converted (w ∷ h ∷ []) = (refl, refl, λ u. ground arith)
  size-Converted is = (refl, inr (inr (inl refl), ground arith))

  point-Converted :
      (is : List ℤ) → Converted {F = F} {G = G} type_point true (pv_integer_array is) (to_point is)
  point-Converted (x ∷ y ∷ []) = (refl, refl, λ u. ground arith)
  point-Converted is = (refl, inr (inr (inr refl), ground arith))

module _ {F G : Type 0} ⦃cast : Casts F G⦄ (float_of : ℤ → G) where
  scalar-Converted :
      (t : ControlType) (p : ParameterValue F)
      → t ≢ type_string
      → scalar_type t ≡ inr (get_type p)
      → Converted t true p (pv_to_cv float_of p t)
  unfolding scalar_type pv_to_cv pv_to_cv_int pv_to_cv_int_array
  scalar-Converted type_none p n h = absurd (cc)
  scalar-Converted type_bool (pv_bool b) n h = (refl, refl, λ u. ground arith)
  scalar-Converted type_bool p n h = absurd (cc)
  scalar-Converted type_byte (pv_integer i) n h = (refl, refl, λ u. ground arith)
  scalar-Converted type_byte p n h = absurd (cc)
  scalar-Converted type_unsigned16 (pv_integer i) n h = (refl, refl, λ u. ground arith)
  scalar-Converted type_unsigned16 p n h = absurd (cc)
  scalar-Converted type_unsigned32 (pv_integer i) n h = (refl, refl, λ u. ground arith)
  scalar-Converted type_unsigned32 p n h = absurd (cc)
  scalar-Converted type_integer32 (pv_integer i) n h = (refl, refl, λ u. ground arith)
  scalar-Converted type_integer32 p n h = absurd (cc)
  scalar-Converted type_integer64 (pv_integer i) n h = (refl, refl, λ u. ground arith)
  scalar-Converted type_integer64 p n h = absurd (cc)
  scalar-Converted type_float (pv_double f) n h = (refl, refl, λ u. ground arith)
  scalar-Converted type_float p n h = absurd (cc)
  scalar-Converted type_string p n h = absurd (n refl)
  scalar-Converted type_rectangle (pv_integer_array is) n h = rectangle-Converted F G is
  scalar-Converted type_rectangle p n h = absurd (cc)
  scalar-Converted type_size (pv_integer_array is) n h = size-Converted F G is
  scalar-Converted type_size p n h = absurd (cc)
  scalar-Converted type_point (pv_integer_array is) n h = point-Converted F G is
  scalar-Converted type_point p n h = absurd (cc)

  array-Converted :
      (t : ControlType) (p : ParameterValue F)
      → t ≢ type_string
      → array_type t ≡ inr (get_type p)
      → Converted t false p (pv_to_cv float_of p t)
  unfolding array_type pv_to_cv pv_to_cv_int pv_to_cv_int_array
  array-Converted type_none p n h = absurd (cc)
  array-Converted type_bool (pv_bool_array bs) n h = (refl, inl (refl, inl refl))
  array-Converted type_bool p n h = absurd (cc)
  array-Converted type_byte (pv_integer_array is) n h = (refl, inl (refl, inr refl))
  array-Converted type_byte p n h = absurd (cc)
  array-Converted type_unsigned16 (pv_integer_array is) n h = (refl, refl, λ u. ground arith)
  array-Converted type_unsigned16 p n h = absurd (cc)
  array-Converted type_unsigned32 (pv_integer_array is) n h = (refl, refl, λ u. ground arith)
  array-Converted type_unsigned32 p n h = absurd (cc)
  array-Converted type_integer32 (pv_integer_array is) n h = (refl, refl, λ u. ground arith)
  array-Converted type_integer32 p n h = absurd (cc)
  array-Converted type_integer64 (pv_integer_array is) n h = (refl, refl, λ u. ground arith)
  array-Converted type_integer64 p n h = absurd (cc)
  array-Converted type_float (pv_double_array fs) n h = (refl, refl, λ u. ground arith)
  array-Converted type_float p n h = absurd (cc)
  array-Converted type_string p n h = absurd (n refl)
  array-Converted type_rectangle p n h = absurd (cc)
  array-Converted type_size p n h = absurd (cc)
  array-Converted type_point p n h = absurd (cc)

  -- For a control that is no string, a parameter of the type that is declared for it is converted to a
  -- value of the control's type, which is an array exactly if the control is one, so that the assertion
  -- after the conversion holds; or the conversion is refused. It is always refused for a control that is an array of truth
  -- values or of bytes, and otherwise only for a rectangle, size or point when the number of integers
  -- is not 4, 2 and 2.
  pub pv_to_cv-Converted :
      (extent : ℕ) (t : ControlType) (p : ParameterValue F)
      → t ≢ type_string
      → cv_to_pv_type extent t ≡ inr (get_type p)
      → Converted t (extent == 0) p (pv_to_cv float_of p t)
  unfolding cv_to_pv_type
  pv_to_cv-Converted extent t p n h = elim (Bool-cases (extent == 0)) [
    | inl one ↦ rw one (scalar-Converted t p n (rw one at h))
    | inr many ↦ rw many (array-Converted t p n (rw many at h))
  ]
