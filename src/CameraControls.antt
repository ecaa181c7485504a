-- ===== src/CameraControls.antt =====
-- physicar_camera/src: control values of libcamera, parameter values of rclcpp, and the conversions
-- cv_to_pv.cpp and pv_to_cv.cpp, for LIBCAMERA_VER_GE(0, 4, 0). `F` stands for `double` and `G` for
-- `float`. libcamera keeps a string as an array of its characters: `isArray` holds of it, `numElements`
-- is its length, and no control value is made of several strings.

pub mod Types
pub mod RoundTrip
pub mod Tests
use Prim.Native.String.{String, len}
use physicar_ros.Base.{
  ℕ, ◌+◌, ◌-◌, ◌%◌, ◌^◌, ◌≡◌, ◌⊎◌, inl, inr, Bool, true, false, not, List, [], ◌∷◌, map,
  if◌then◌else◌, ltb, ◌==◌,
}
use physicar_ros.Base.Int.{ℤ, pos, negsuc}
use physicar_ros.Double.{Casts}

pub data ControlType : Type 0 where
  type_none type_bool type_byte type_unsigned16 type_unsigned32 : ControlType
  type_integer32 type_integer64 type_float type_string : ControlType
  type_rectangle type_size type_point : ControlType

pub record Rectangle : Type 0 where
  pub x : ℤ
  pub y : ℤ
  pub width : ℕ
  pub height : ℕ

pub record Size : Type 0 where
  pub width : ℕ
  pub height : ℕ

pub record Point : Type 0 where
  pub x : ℤ
  pub y : ℤ

-- A value or an array of values (`isArray`).
pub data Span {ℓ} (A : Type ℓ) : Type ℓ where
  scalar : A → Span A
  array : List A → Span A

-- libcamera::ControlValue. Bytes and unsigned integers are natural numbers.
pub data ControlValue {ℓ} (G : Type ℓ) : Type ℓ where
  none_value : ControlValue G
  bools : Span Bool → ControlValue G
  bytes : Span ℕ → ControlValue G
  unsigned16s : Span ℕ → ControlValue G
  unsigned32s : Span ℕ → ControlValue G
  integer32s : Span ℤ → ControlValue G
  integer64s : Span ℤ → ControlValue G
  floats : Span G → ControlValue G
  characters : String → ControlValue G
  rectangles : Span Rectangle → ControlValue G
  sizes : Span Size → ControlValue G
  points : Span Point → ControlValue G

abbrev pub type_of {ℓ} : {G : Type ℓ} → ControlValue G → ControlType
type_of none_value = type_none
type_of (bools s) = type_bool
type_of (bytes s) = type_byte
type_of (unsigned16s s) = type_unsigned16
type_of (unsigned32s s) = type_unsigned32
type_of (integer32s s) = type_integer32
type_of (integer64s s) = type_integer64
type_of (floats s) = type_float
type_of (characters s) = type_string
type_of (rectangles s) = type_rectangle
type_of (sizes s) = type_size
type_of (points s) = type_point

-- rclcpp::ParameterType and rclcpp::ParameterValue.
pub data ParameterType : Type 0 where
  parameter_not_set parameter_bool parameter_integer parameter_double : ParameterType
  parameter_string parameter_byte_array parameter_bool_array : ParameterType
  parameter_integer_array parameter_double_array parameter_string_array : ParameterType

pub data ParameterValue {ℓ} (F : Type ℓ) : Type ℓ where
  pv_not_set : ParameterValue F
  pv_bool : Bool → ParameterValue F
  pv_integer : ℤ → ParameterValue F
  pv_double : F → ParameterValue F
  pv_string : String → ParameterValue F
  pv_byte_array : List ℕ → ParameterValue F
  pv_bool_array : List Bool → ParameterValue F
  pv_integer_array : List ℤ → ParameterValue F
  pv_double_array : List F → ParameterValue F
  pv_string_array : List String → ParameterValue F

abbrev pub get_type {ℓ} : {F : Type ℓ} → ParameterValue F → ParameterType
get_type pv_not_set = parameter_not_set
get_type (pv_bool b) = parameter_bool
get_type (pv_integer i) = parameter_integer
get_type (pv_double f) = parameter_double
get_type (pv_string s) = parameter_string
get_type (pv_byte_array bs) = parameter_byte_array
get_type (pv_bool_array bs) = parameter_bool_array
get_type (pv_integer_array is) = parameter_integer_array
get_type (pv_double_array fs) = parameter_double_array
get_type (pv_string_array ss) = parameter_string_array

-- The exceptions; and `fault` is a failed assertion of libcamera, or a read of the characters of a string
-- as if they were strings.
pub data Failure : Type 0 where
  invalid_conversion unsupported_control fault : Failure

abbrev pub Result {ℓ} : Type ℓ → Type ℓ
Result A = Failure ⊎ A

-- `static_cast` to an unsigned and to a signed integer of a width.
abbrev pub to_unsigned : ℕ → ℤ → ℕ
to_unsigned width (pos n) = n % 2 ^ width
to_unsigned width (negsuc n) = 2 ^ width - 1 - n % 2 ^ width

abbrev pub signed : ℕ → ℕ → ℤ
signed width n = if ltb n (2 ^ (width - 1)) then pos n else negsuc (2 ^ width - 1 - n)

abbrev pub to_signed : ℕ → ℤ → ℤ
to_signed width i = signed width (to_unsigned width i)

abbrev pub is_nonzero : ℤ → Bool
is_nonzero (pos n) = not (n == 0)
is_nonzero (negsuc n) = true

-- `extract_value`.
abbrev pub extract {ℓ} : {A : Type ℓ} → Span A → List A
extract (scalar x) = x ∷ []
extract (array xs) = xs

-- `cv_to_pv` of the extracted values: nothing, a scalar or an array.
abbrev pub by_size {ℓ κ} :
    {A : Type ℓ} {F : Type κ}
    → (A → ParameterValue F)
    → (List A → Result (ParameterValue F))
    → List A
    → Result (ParameterValue F)
by_size one many [] = inr pv_not_set
by_size one many (x ∷ []) = inr (one x)
by_size one many (x ∷ y ∷ rest) = many (x ∷ y ∷ rest)

module _ {ℓ} {F : Type ℓ} where
  -- `cv_to_pv_array` where no ParameterValue is made of the vector.
  abbrev pub refused {κ} : {A : Type κ} → A → Result (ParameterValue F)
  refused xs = inl invalid_conversion

  abbrev pub of_rectangle : Rectangle → ParameterValue F
  of_rectangle r = pv_integer_array (r.x ∷ r.y ∷ pos r.width ∷ pos r.height ∷ [])

  abbrev pub of_size : Size → ParameterValue F
  of_size s = pv_integer_array (pos s.width ∷ pos s.height ∷ [])

  abbrev pub of_point : Point → ParameterValue F
  of_point p = pv_integer_array (p.x ∷ p.y ∷ [])

module _ {ℓ} {F G : Type ℓ} ⦃cast : Casts F G⦄ where
  open cast use {widen}

  unfoldable pub cv_to_pv : ControlValue G → Result (ParameterValue F)
  cv_to_pv none_value = inr pv_not_set
  cv_to_pv (bools s) = by_size pv_bool (λ bs. inr (pv_bool_array bs)) (extract s)
  cv_to_pv (bytes s) = by_size (λ b. pv_integer (pos b)) (λ bs. inr (pv_byte_array bs)) (extract s)
  cv_to_pv (unsigned16s s) = by_size (λ n. pv_integer (pos n)) refused (extract s)
  cv_to_pv (unsigned32s s) = by_size (λ n. pv_integer (pos n)) refused (extract s)
  cv_to_pv (integer32s s) = by_size pv_integer (λ is. inr (pv_integer_array is)) (extract s)
  cv_to_pv (integer64s s) = by_size pv_integer (λ is. inr (pv_integer_array is)) (extract s)
  cv_to_pv (floats s) =
      by_size (λ f. pv_double (widen f)) (λ fs. inr (pv_double_array (map widen fs))) (extract s)
  -- `get<Span<const CTString>>`: as many strings as there are characters.
  cv_to_pv (characters s) = if len s == 0 then inr pv_not_set else inl fault
  cv_to_pv (rectangles s) = by_size of_rectangle refused (extract s)
  cv_to_pv (sizes s) = by_size of_size refused (extract s)
  cv_to_pv (points s) = by_size of_point refused (extract s)

module _ {ℓ} {G : Type ℓ} where
  abbrev pub to_rectangle : List ℤ → Result (ControlValue G)
  to_rectangle (x ∷ y ∷ w ∷ h ∷ []) = inr (
      rectangles (
        scalar (record {
          x = to_signed 32 x;
          y = to_signed 32 y;
          width = to_unsigned 32 w;
          height = to_unsigned 32 h;
        })))
  to_rectangle values = inl invalid_conversion

  abbrev pub to_size : List ℤ → Result (ControlValue G)
  to_size (w ∷ h ∷ []) =
      inr (sizes (scalar (record { width = to_unsigned 32 w; height = to_unsigned 32 h })))
  to_size values = inl invalid_conversion

  abbrev pub to_point : List ℤ → Result (ControlValue G)
  to_point (x ∷ y ∷ []) = inr (points (scalar (record { x = to_signed 32 x; y = to_signed 32 y })))
  to_point values = inl invalid_conversion

  -- `float_of` is the conversion of an integer to `float`.
  unfoldable pub pv_to_cv_int_array : (ℤ → G) → List ℤ → ControlType → Result (ControlValue G)
  pv_to_cv_int_array float_of values type_none = inr none_value
  pv_to_cv_int_array float_of values type_bool = inl invalid_conversion
  pv_to_cv_int_array float_of values type_byte = inl invalid_conversion
  pv_to_cv_int_array float_of values type_integer32 =
      inr (integer32s (array (map (to_signed 32) values)))
  pv_to_cv_int_array float_of values type_integer64 = inr (integer64s (array values))
  pv_to_cv_int_array float_of values type_unsigned16 =
      inr (unsigned16s (array (map (to_unsigned 16) values)))
  pv_to_cv_int_array float_of values type_unsigned32 =
      inr (unsigned32s (array (map (to_unsigned 32) values)))
  pv_to_cv_int_array float_of values type_float = inr (floats (array (map float_of values)))
  pv_to_cv_int_array float_of values type_string = inl invalid_conversion
  pv_to_cv_int_array float_of values type_rectangle = to_rectangle values
  pv_to_cv_int_array float_of values type_size = to_size values
  pv_to_cv_int_array float_of values type_point = to_point values

  -- A single integer.
  unfoldable pub pv_to_cv_int : (ℤ → G) → ℤ → ControlType → ControlValue G
  pv_to_cv_int float_of i type_bool = bools (scalar (is_nonzero i))
  pv_to_cv_int float_of i type_byte = bytes (scalar (to_unsigned 8 i))
  pv_to_cv_int float_of i type_unsigned16 = unsigned16s (scalar (to_unsigned 16 i))
  pv_to_cv_int float_of i type_unsigned32 = unsigned32s (scalar (to_unsigned 32 i))
  pv_to_cv_int float_of i type_integer32 = integer32s (scalar (to_signed 32 i))
  pv_to_cv_int float_of i type_integer64 = integer64s (scalar i)
  pv_to_cv_int float_of i type_float = floats (scalar (float_of i))
  pv_to_cv_int float_of i type_none = none_value
  pv_to_cv_int float_of i type_string = none_value
  pv_to_cv_int float_of i type_rectangle = none_value
  pv_to_cv_int float_of i type_size = none_value
  pv_to_cv_int float_of i type_point = none_value

module _ {ℓ} {F G : Type ℓ} ⦃cast : Casts F G⦄ where
  open cast use {narrow}

  unfoldable pub pv_to_cv : (ℤ → G) → ParameterValue F → ControlType → Result (ControlValue G)
  pv_to_cv float_of pv_not_set type = inr none_value
  pv_to_cv float_of (pv_bool b) type = inr (bools (scalar b))
  pv_to_cv float_of (pv_integer i) type = inr (pv_to_cv_int float_of i type)
  pv_to_cv float_of (pv_double f) type = inr (floats (scalar (narrow f)))
  pv_to_cv float_of (pv_string s) type = inr (characters s)
  pv_to_cv float_of (pv_byte_array bs) type = inr (bytes (array bs))
  pv_to_cv float_of (pv_bool_array bs) type = inl invalid_conversion
  pv_to_cv float_of (pv_integer_array is) type = pv_to_cv_int_array float_of is type
  pv_to_cv float_of (pv_double_array fs) type = inr (floats (array (map narrow fs)))
  pv_to_cv float_of (pv_string_array ss) type = inl fault

-- The type of the parameter that is declared for a control. Its extent is zero for a single value.
unfoldable pub scalar_type : ControlType → Result ParameterType
scalar_type type_none = inl unsupported_control
scalar_type type_bool = inr parameter_bool
scalar_type type_byte = inr parameter_integer
scalar_type type_unsigned16 = inr parameter_integer
scalar_type type_unsigned32 = inr parameter_integer
scalar_type type_integer32 = inr parameter_integer
scalar_type type_integer64 = inr parameter_integer
scalar_type type_float = inr parameter_double
scalar_type type_string = inr parameter_string
scalar_type type_rectangle = inr parameter_integer_array
scalar_type type_size = inr parameter_integer_array
scalar_type type_point = inr parameter_integer_array

unfoldable pub array_type : ControlType → Result ParameterType
array_type type_none = inl unsupported_control
array_type type_bool = inr parameter_bool_array
array_type type_byte = inr parameter_integer_array
array_type type_unsigned16 = inr parameter_integer_array
array_type type_unsigned32 = inr parameter_integer_array
array_type type_integer32 = inr parameter_integer_array
array_type type_integer64 = inr parameter_integer_array
array_type type_float = inr parameter_double_array
array_type type_string = inr parameter_string_array
array_type type_rectangle = inl unsupported_control
array_type type_size = inl unsupported_control
array_type type_point = inl unsupported_control

unfoldable pub cv_to_pv_type : ℕ → ControlType → Result ParameterType
cv_to_pv_type extent type = if extent == 0 then scalar_type type else array_type type
