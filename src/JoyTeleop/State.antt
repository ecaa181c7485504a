-- ===== src/JoyTeleop/State.antt =====
-- JoyTeleopNode: the values of a mapping, the keys, the state and the messages it publishes.
use Prim.Native.String.{String}
use text.Mathlib.Text.{◌==◌ as str_eq}
use physicar_ros.Base.{
  zero, ◌-◌, ◌^◌, ◌%◌, Bool, true, false, not, ◌||◌, Option, none, some, List, [], ◌∷◌,
  if◌then◌else◌, ltb,
}
use physicar_ros.Base.Int.{ℤ, pos, negsuc}
use physicar_ros.Double.{Double}
use physicar_ros.StringMap.{lookup}
use physicar_ros.Driver.Arbitration.{TeleopStatus}

-- struct Val, by its `type`; the members that do not belong to it are zero or false.
pub data Val {ℓ} (F : Type ℓ) : Type ℓ where
  int : ℤ → Val F
  float : F → Val F
  bool : Bool → Val F

pub record Joy {ℓ} (F : Type ℓ) : Type ℓ where
  pub axes : List F
  pub buttons : List ℤ

pub record Teleop {ℓ} (F : Type ℓ) : Type ℓ where
  pub mapping : List (String × Val F)
  pub mapping_source : String
  pub mapping_units : String
  -- The period of `timer_`, in seconds.
  pub timer_period : F
  pub enabled : Bool
  pub last_joy : Joy F
  pub has_joy : Bool
  pub last_joy_time : ℤ
  pub drive_engaged : Bool
  pub camera_engaged : Bool
  pub drive_input_ns : ℤ
  pub camera_input_ns : ℤ
  pub estop_latched : Bool
  pub prev_center : Bool
  pub pan : F
  pub tilt : F
  pub published_enabled : Bool

-- What is published: /teleop/speed, /teleop/steering, /teleop/camera/pan, /teleop/camera/tilt,
-- ~/status and /teleop/status.
pub data Message {ℓ} (F : Type ℓ) : Type ℓ where
  speed : F → Message F
  steering : F → Message F
  camera_pan : F → Message F
  camera_tilt : F → Message F
  joy_status : Bool → Message F
  teleop_status : TeleopStatus → Message F

abbrev pub member : String → List String → Bool
member k [] = false
member k (j ∷ js) = str_eq k j || member k js

abbrev pub int_keys : List String
int_keys =
    "axis_speed" ∷ "axis_steering" ∷ "axis_pan" ∷ "axis_tilt" ∷ "deadman_button" ∷ "estop_button"
    ∷ "center_camera_button" ∷ "camera_assist_button" ∷ []

abbrev pub float_keys : List String
float_keys = "max_speed" ∷ "max_steering" ∷ "max_pan" ∷ "max_tilt" ∷ "deadzone" ∷ "rate" ∷ []

abbrev pub bool_keys : List String
bool_keys = "invert_speed" ∷ "invert_steering" ∷ "invert_pan" ∷ "invert_tilt" ∷ []

unfoldable pub is_int_key : String → Bool
is_int_key k = member k int_keys

unfoldable pub is_float_key : String → Bool
is_float_key k = member k float_keys

unfoldable pub is_bool_key : String → Bool
is_bool_key k = member k bool_keys

unfoldable pub is_known_key : String → Bool
is_known_key k = is_int_key k || is_float_key k || is_bool_key k

-- `static_cast<int>` of an `int64_t`: the value modulo 2^32.
unfoldable pub to_int : ℤ → ℤ
to_int (pos n) = let m = n % 2 ^ 32 in if ltb m (2 ^ 31) then pos m else negsuc (2 ^ 32 - 1 - m)
to_int (negsuc n) = let m = n % 2 ^ 32 in if ltb m (2 ^ 31) then negsuc m else pos (2 ^ 32 - 1 - m)

abbrev pub is_negative : ℤ → Bool
is_negative (pos n) = false
is_negative (negsuc n) = true

abbrev pub is_zero : ℤ → Bool
is_zero (pos zero) = true
is_zero z = false

module _ {ℓ} {F : Type ℓ} ⦃d : Double F⦄ where
  open d use {literal, of_ℤ, trunc}

  abbrev pub as_int : Val F → ℤ
  as_int (int i) = i
  as_int (float f) = trunc f
  as_int (bool b) = trunc (literal 0 0)

  abbrev pub as_float : Val F → F
  as_float (int i) = of_ℤ i
  as_float (float f) = f
  as_float (bool b) = of_ℤ (pos 0)

  abbrev pub as_bool : Val F → Bool
  as_bool (int i) = not (is_zero i)
  as_bool (float f) = false
  as_bool (bool b) = b

  -- `mapping_[k]`. The constructor of the node enters every key and nothing removes one; an absent key
  -- would read as the `Val` of no arguments.
  abbrev or_default : Option (Val F) → Val F
  or_default none = int (pos 0)
  or_default (some v) = v

  unfoldable pub value : String → Teleop F → Val F
  value k s = or_default (lookup k s.mapping)

  unfoldable pub int_value : String → Teleop F → ℤ
  unfolding value
  int_value k s = to_int (as_int (value k s))
