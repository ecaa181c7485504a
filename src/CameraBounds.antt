-- ===== src/CameraBounds.antt =====
-- physicar_camera/src/clamp.cpp: clamping control values, and their order.
-- A failed assertion of libcamera or of this file, and a read beyond the end of an array, give `none`.
pub mod Spans
pub mod Clamped
use Prim.Native.String.{len}
use physicar_ros.Base.{
  ℕ, ◌+◌, ◌*◌, ◌%◌, ◌^◌, inl, inr, Bool, true, false, ◌&&◌, ◌||◌, not, Option, none, some, List, [],
  ◌∷◌, if◌then◌else◌, ltb, ◌==◌, length, ◌>>=◌,
}
use physicar_ros.Base.Int.{ℤ, pos, ◌+ℤ◌, ◌-ℤ◌, ◌*ℤ◌, ltb_ℤ}
use physicar_ros.Double.{Double}
use physicar_ros.CameraControls.{
  ControlType, Rectangle, Size, Point, Span, scalar, array, ControlValue, none_value, bools, bytes,
  unsigned16s, unsigned32s, integer32s, integer64s, floats, characters, rectangles, sizes, points,
  Result, invalid_conversion, to_unsigned,
}
use physicar_ros.CameraBounds.Spans.{
  lt_bool, Orders, clamp_by, flip, clamp_rectangle, clamp_point, lt_rectangle, gt_rectangle,
  lt_point, gt_point, is_array_span, count, clamp_span, compare_span,
}

module _ {ℓ} {G : Type ℓ} where
  -- The enumerator of `type()`.
  abbrev pub type_code : ControlValue G → ℕ
  type_code none_value = 0
  type_code (bools s) = 1
  type_code (bytes s) = 2
  type_code (unsigned16s s) = 3
  type_code (unsigned32s s) = 4
  type_code (integer32s s) = 5
  type_code (integer64s s) = 6
  type_code (floats s) = 7
  type_code (characters s) = 8
  type_code (rectangles s) = 9
  type_code (sizes s) = 10
  type_code (points s) = 11

  -- `isArray` and `numElements`.
  abbrev pub has_elements : ControlValue G → Bool × ℕ
  has_elements none_value = (false, 0)
  has_elements (bools s) = (is_array_span s, count s)
  has_elements (bytes s) = (is_array_span s, count s)
  has_elements (unsigned16s s) = (is_array_span s, count s)
  has_elements (unsigned32s s) = (is_array_span s, count s)
  has_elements (integer32s s) = (is_array_span s, count s)
  has_elements (integer64s s) = (is_array_span s, count s)
  has_elements (floats s) = (is_array_span s, count s)
  has_elements (characters s) = (true, len s)
  has_elements (rectangles s) = (is_array_span s, count s)
  has_elements (sizes s) = (is_array_span s, count s)
  has_elements (points s) = (is_array_span s, count s)

  -- `get<T>`, which asserts the type.
  abbrev pub get_bools : ControlValue G → Option (Span Bool)
  get_bools (bools s) = some s
  get_bools v = none

  abbrev pub get_bytes : ControlValue G → Option (Span ℕ)
  get_bytes (bytes s) = some s
  get_bytes v = none

  abbrev pub get_unsigned16s : ControlValue G → Option (Span ℕ)
  get_unsigned16s (unsigned16s s) = some s
  get_unsigned16s v = none

  abbrev pub get_unsigned32s : ControlValue G → Option (Span ℕ)
  get_unsigned32s (unsigned32s s) = some s
  get_unsigned32s v = none

  abbrev pub get_integer32s : ControlValue G → Option (Span ℤ)
  get_integer32s (integer32s s) = some s
  get_integer32s v = none

  abbrev pub get_integer64s : ControlValue G → Option (Span ℤ)
  get_integer64s (integer64s s) = some s
  get_integer64s v = none

  abbrev pub get_floats : ControlValue G → Option (Span G)
  get_floats (floats s) = some s
  get_floats v = none

  abbrev pub get_rectangles : ControlValue G → Option (Span Rectangle)
  get_rectangles (rectangles s) = some s
  get_rectangles v = none

  abbrev pub get_sizes : ControlValue G → Option (Span Size)
  get_sizes (sizes s) = some s
  get_sizes v = none

  abbrev pub get_points : ControlValue G → Option (Span Point)
  get_points (points s) = some s
  get_points v = none

  -- `clamp<T>` of a value that is not a truth value.
  abbrev pub clamp_as {κ} :
      {A : Type κ}
      → (Span A → ControlValue G)
      → (ControlValue G → Option (Span A))
      → (A → A → A → A)
      → Span A
      → ControlValue G
      → ControlValue G
      → Option (ControlValue G)
  clamp_as wrap get f s lo hi =
      get lo >>= λ a. get hi >>= λ b. clamp_span f s a b >>= λ r. some (wrap r)

  abbrev pub compare_as {κ} :
      {A : Type κ}
      → (ControlValue G → Option (Span A))
      → (A → A → Bool)
      → Span A
      → ControlValue G
      → Option Bool
  compare_as get test s v = get v >>= λ t. compare_span test s t

  abbrev pub same_kind : ControlValue G → ControlValue G → Bool
  same_kind lo hi =
      let (a, m) = has_elements lo in
      let (b, n) = has_elements hi in
      (type_code lo == type_code hi) && ((a && b) || (not a && not b)) && (m == n)

  -- The assertion before a comparison.
  abbrev pub comparable : ControlValue G → ControlValue G → Bool
  comparable lhs rhs =
      (type_code lhs == type_code rhs)
      && (((has_elements lhs).1 == (has_elements rhs).1) || ((has_elements rhs).1 == 1))

module _ {ℓ} {G : Type ℓ} ⦃f : Double G⦄ (o : Orders) where
  open o use {lt_size}

  -- The `switch` of `clamp`.
  unfoldable pub clamp_value :
      ControlValue G → ControlValue G → ControlValue G → Option (ControlValue G)
  clamp_value none_value lo hi = some none_value
  clamp_value (bools s) lo hi = some (bools s)
  clamp_value (bytes s) lo hi = clamp_as bytes get_bytes (clamp_by ltb) s lo hi
  clamp_value (unsigned16s s) lo hi = clamp_as unsigned16s get_unsigned16s (clamp_by ltb) s lo hi
  clamp_value (unsigned32s s) lo hi = clamp_as unsigned32s get_unsigned32s (clamp_by ltb) s lo hi
  clamp_value (integer32s s) lo hi = clamp_as integer32s get_integer32s (clamp_by ltb_ℤ) s lo hi
  clamp_value (integer64s s) lo hi = clamp_as integer64s get_integer64s (clamp_by ltb_ℤ) s lo hi
  clamp_value (floats s) lo hi = clamp_as floats get_floats (clamp_by f.lt) s lo hi
  -- `clamp_array` makes an array of strings, which libcamera's assertion refuses.
  clamp_value (characters s) lo hi = none
  clamp_value (rectangles s) lo hi = clamp_as rectangles get_rectangles clamp_rectangle s lo hi
  clamp_value (sizes s) lo hi = clamp_as sizes get_sizes (clamp_by lt_size) s lo hi
  clamp_value (points s) lo hi = clamp_as points get_points clamp_point s lo hi

  -- `clamp`.
  unfoldable pub clamp :
      ControlValue G → ControlValue G → ControlValue G → Option (Result (ControlValue G))
  clamp value lo hi =
      if same_kind lo hi
      then (clamp_value value lo hi >>= λ r. some (inr r))
      else some (inl invalid_conversion)

  unfoldable pub lt_value : ControlValue G → ControlValue G → Option Bool
  lt_value none_value v = some false
  lt_value (bools s) v = compare_as get_bools lt_bool s v
  lt_value (bytes s) v = compare_as get_bytes ltb s v
  lt_value (unsigned16s s) v = compare_as get_unsigned16s ltb s v
  lt_value (unsigned32s s) v = compare_as get_unsigned32s ltb s v
  lt_value (integer32s s) v = compare_as get_integer32s ltb_ℤ s v
  lt_value (integer64s s) v = compare_as get_integer64s ltb_ℤ s v
  lt_value (floats s) v = compare_as get_floats f.lt s v
  -- The characters are read as strings, if there are any.
  lt_value (characters s) v = if len s == 0 then some false else none
  lt_value (rectangles s) v = compare_as get_rectangles lt_rectangle s v
  lt_value (sizes s) v = compare_as get_sizes lt_size s v
  lt_value (points s) v = compare_as get_points lt_point s v

  unfoldable pub gt_value : ControlValue G → ControlValue G → Option Bool
  gt_value none_value v = some false
  gt_value (bools s) v = compare_as get_bools (flip lt_bool) s v
  gt_value (bytes s) v = compare_as get_bytes (flip ltb) s v
  gt_value (unsigned16s s) v = compare_as get_unsigned16s (flip ltb) s v
  gt_value (unsigned32s s) v = compare_as get_unsigned32s (flip ltb) s v
  gt_value (integer32s s) v = compare_as get_integer32s (flip ltb_ℤ) s v
  gt_value (integer64s s) v = compare_as get_integer64s (flip ltb_ℤ) s v
  gt_value (floats s) v = compare_as get_floats (flip f.lt) s v
  gt_value (characters s) v = if len s == 0 then some false else none
  gt_value (rectangles s) v = compare_as get_rectangles gt_rectangle s v
  gt_value (sizes s) v = compare_as get_sizes (flip lt_size) s v
  gt_value (points s) v = compare_as get_points gt_point s v

  -- `operator<` and `operator>`.
  unfoldable pub lt_control : ControlValue G → ControlValue G → Option Bool
  lt_control lhs rhs = if comparable lhs rhs then lt_value lhs rhs else none

  unfoldable pub gt_control : ControlValue G → ControlValue G → Option Bool
  gt_control lhs rhs = if comparable lhs rhs then gt_value lhs rhs else none
