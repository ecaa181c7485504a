-- ===== src/Driver/Calibration.antt =====
-- PhysicarDriverNode: the calibration, its file and the service that sets it.
pub mod Service
pub mod Kept
pub mod Bounds
pub mod Sync
pub mod Status
mod Tests
use Prim.Native.String.{String, ◌++◌ as ◌<>◌, len, slice}
use text.Mathlib.Text.{◌==◌ as str_eq}
use physicar_ros.Base.{
  ℕ, ◌+◌, ◌-◌, ◌≡◌, Bool, true, false, not, ◌||◌, ◌&&◌, Option, none, some, if◌then◌else◌, arith,
  ltb,
}
use physicar_ros.Double.{Double, clamp, rad_of_deg, deg_of_rad}
use physicar_ros.Rosmaster.Hardware.{Hardware}
use physicar_ros.Servo.{
  ServoController, ch_throttle, ch_steering, ch_pan, ch_tilt, servo_center, set_limits, set_trim,
  set_inverted, apply_angle,
}
use physicar_ros.Driver.State.{Driver, max_steering, max_pan, max_tilt}

pub record CalibrationData {ℓ} (F : Type ℓ) : Type ℓ where
  pub steering_center : F
  pub pan_center : F
  pub tilt_center : F
  pub reverse_direction : Bool
  pub speed_gain : F
  pub source : String
  pub is_saved : Bool

-- The file, if it exists, and its text, if it can be opened; and the functions of the C++ library that read and print its text: `std::string::find` from a
-- position, `std::stod` (nothing where it throws), `std::snprintf` of the five values, `std::to_string`,
-- `tolower`, and the write, which tells whether the file could be opened and whether it went well.
pub record Files {ℓ} (F : Type ℓ) : Type ℓ where
  pub file : Option (Option String)
  pub find : String → String → ℕ → Option ℕ
  pub stod : String → Option F
  pub print : F → F → F → Bool → F → String
  pub to_string : F → String
  pub lower : String → String
  pub write : String → Bool × Bool

-- req of physicar_interfaces/srv/SetCalibration.
pub record CalibrationRequest {ℓ} (F : Type ℓ) : Type ℓ where
  pub channel : String
  pub center_value : F
  pub max_value : F
  pub bool_value : Bool

pub record CalibrationResponse : Type 0 where
  pub success : Bool
  pub message : String
  pub current_calibration_json : String

-- The node with its calibration and the parameters that stand in for a file.
pub record Calibrated {ℓ} (F : Type ℓ) : Type ℓ where
  pub driver : Driver F
  pub cal : CalibrationData F
  pub parameters : CalibrationData F

abbrev or_else {ℓ} : {A : Type ℓ} → A → Option A → A
or_else a none = a
or_else a (some b) = b

abbrev has : Option ℕ → Bool
has none = false
has (some p) = true

abbrev channel_of : String → Option ℕ
channel_of name =
    if str_eq name "pan"
    then some ch_pan
    else (if str_eq name "tilt"
        then some ch_tilt
        else (if str_eq name "steering" then some ch_steering else none))

module _ {ℓ} {F : Type ℓ} where
  abbrev pub to_json : Files F → CalibrationData F → String
  to_json h c =
      h.print c.steering_center c.pan_center c.tilt_center c.reverse_direction c.speed_gain

  -- The text of the file is `content`; what stands behind the first colon after the quoted key.
  abbrev find_colon : Files F → String → Option ℕ → Option ℕ
  find_colon h content none = none
  find_colon h content (some p) = h.find content ":" p

  abbrev find_value : Files F → String → String → Option ℕ
  find_value h content key = find_colon h content (h.find content ("\"" <> key <> "\"") 0)

  abbrev double_at : Files F → String → F → Option ℕ → F
  double_at h content default none = default
  double_at h content default (some p) =
      or_else default (h.stod (slice content (p + 1) (len content)))

  unfoldable pub get_double : Files F → String → String → F → F
  get_double h content key default = double_at h content default (find_value h content key)

  abbrev bool_at : Files F → String → Bool → Option ℕ → Bool
  bool_at h content default none = default
  bool_at h content default (some p) =
      let sub = slice content (p + 1) (p + 11) in
      if has (h.find sub "true" 0)
      then true
      else (if has (h.find sub "false" 0) then false else default)

  unfoldable pub get_bool : Files F → String → String → Bool → Bool
  get_bool h content key default = bool_at h content default (find_value h content key)

  -- `save`: a file that cannot be opened leaves `is_saved` alone.
  abbrev pub save : Files F → CalibrationData F → CalibrationData F × Bool
  save h c =
      let (opened, good) = h.write (to_json h c) in
      (record c { is_saved = if opened then good else c.is_saved }, opened && good)

module _ {ℓ} {F : Type ℓ} ⦃d : Double F⦄ where
  open d use {literal, lt, le, add, sub, div, neg, sin, asin}

  abbrev pub defaults : CalibrationData F
  defaults = record {
    steering_center = literal 0 0;
    pan_center = literal 0 0;
    tilt_center = literal 0 0;
    reverse_direction = false;
    speed_gain = literal 10 1;
    source = "defaults";
    is_saved = false;
  }

  abbrev within_30 : F → F
  within_30 v = clamp v (neg (literal 30 0)) (literal 30 0)

  -- The gain, under its name or the one it had before.
  unfoldable pub stored_gain : Files F → String → F
  stored_gain h content =
      let gain = get_double h content "speed_gain" (neg (literal 1 0)) in
      if lt gain (literal 0 0) then get_double h content "esc_gain" (literal 1 0) else gain

  unfoldable pub load_json : Files F → Option String → CalibrationData F
  load_json h none = defaults
  load_json h (some content) = record {
    steering_center = within_30 (get_double h content "steering_center" (literal 0 0));
    pan_center = within_30 (get_double h content "pan_center" (literal 0 0));
    tilt_center = within_30 (get_double h content "tilt_center" (literal 0 0));
    reverse_direction = get_bool h content "reverse_direction" false;
    speed_gain = clamp (stored_gain h content) (literal 1 1) (literal 50 1);
    source = "json_file";
    is_saved = true;
  }

  -- `SERVO_CENTER - x` and `SERVO_CENTER + x` as limits, around the centre.
  abbrev around : ℕ → F → ServoController F → ServoController F
  around ch x = set_limits ch (sub servo_center x) (add servo_center x) servo_center

  abbrev max_servo_offset : ServoController F → F
  max_servo_offset s = deg_of_rad (asin (div (sin (rad_of_deg max_steering)) s.steering_ratio))

  -- The limits and trims, which `apply_calibration` sets before it moves a servo.
  unfoldable pub trimmed : CalibrationData F → ServoController F → ServoController F
  trimmed c s = set_trim ch_tilt (neg c.tilt_center) (
      around ch_tilt max_tilt (
        set_trim ch_pan c.pan_center (
          around ch_pan max_pan (
            around ch_throttle (literal 30 0) (
              set_trim ch_steering c.steering_center
                (around ch_steering (max_servo_offset s) s))))))

  abbrev move : ServoController F → Option ℕ → Hardware → Hardware
  move s none w = w
  move s (some ch) w = (apply_angle s ch servo_center w).0

  unfoldable pub apply_calibration : String → Calibrated F → Calibrated F
  apply_calibration move_to_center s =
      let servo = trimmed s.cal s.driver.servo in
      let turned = set_inverted ch_throttle s.cal.reverse_direction servo in
      record s {
        driver = record (s.driver) {
          hardware = move servo (channel_of move_to_center) s.driver.hardware;
          servo = record turned { speed_gain = s.cal.speed_gain };
        };
      }

  -- The calibration of the file, or the parameters if there is none.
  abbrev load : Files F → Option (Option String) → Calibrated F → CalibrationData F
  load h (some text) s = load_json h text
  load h none s = record (s.parameters) { source = "yaml_params"; is_saved = s.cal.is_saved }

  unfoldable pub load_and_apply_calibration : Files F → Calibrated F → Calibrated F
  load_and_apply_calibration h s = apply_calibration "" (record s { cal = load h h.file s })
