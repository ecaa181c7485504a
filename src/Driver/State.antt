-- ===== src/Driver/State.antt =====
-- PhysicarDriverNode: its members and constants.
use Prim.Native.String.{String}
use physicar_ros.Base.{Bool, false, List, []}
use physicar_ros.Base.Int.{ℤ}
use physicar_ros.Double.{Double}
use physicar_ros.Rosmaster.Hardware.{Hardware}
use physicar_ros.Servo.{ServoController, initial_servo}

pub record TeleopSource {ℓ} (F : Type ℓ) : Type ℓ where
  pub drive : Bool
  pub camera : Bool
  pub estop : Bool
  pub timeout_sec : F
  pub last_ns : ℤ

-- The calibration is in `Calibration`; its values reach the driving code through `servo`.
pub record Driver {ℓ} (F : Type ℓ) : Type ℓ where
  pub hardware : Hardware
  pub servo : ServoController F
  pub teleop_sources : List (String × TeleopSource F)
  pub cmd_timeout : F
  pub last_drive_cmd_time : F
  pub wheel_radius : F
  pub wheelbase : F
  pub track_width : F
  pub target_speed : F
  pub actual_speed : F
  pub speed_adjust : F
  pub actual_speed_time : F
  pub prev_actual_speed : F
  pub prev_odom_time : F
  pub current_voltage : F
  pub brake_active : Bool
  pub current_steering : F
  pub current_throttle : F
  pub current_pan : F
  pub current_tilt : F
  pub battery_low_thresh : F
  pub battery_low_warned : Bool
  pub battery_cells_detected : Bool

module _ {ℓ} {F : Type ℓ} ⦃d : Double F⦄ where
  open d use {literal}

  abbrev pub max_steering : F
  max_steering = literal 200 1

  abbrev pub max_speed : F
  max_speed = literal 300 2

  abbrev pub max_pan : F
  max_pan = literal 300 1

  abbrev pub max_tilt : F
  max_tilt = literal 300 1

  abbrev pub feedback_timeout : F
  feedback_timeout = literal 5 1

  abbrev pub feedback_lookahead : F
  feedback_lookahead = literal 2 1

  abbrev pub feedback_p_gain : F
  feedback_p_gain = literal 15 1

  abbrev pub feedback_max_adjust : F
  feedback_max_adjust = literal 5 1

  abbrev pub speed_deadzone : F
  speed_deadzone = literal 1 2

  abbrev pub brake_speed : F
  brake_speed = literal 30 2

  -- The members' initial values, with the default parameters.
  abbrev pub initial : Hardware → Driver F
  initial h = record {
    hardware = h;
    servo = initial_servo;
    teleop_sources = [];
    cmd_timeout = literal 1 0;
    last_drive_cmd_time = literal 0 0;
    wheel_radius = literal 375 4;
    wheelbase = literal 18 2;
    track_width = literal 16 2;
    target_speed = literal 0 0;
    actual_speed = literal 0 0;
    speed_adjust = literal 0 0;
    actual_speed_time = literal 0 0;
    prev_actual_speed = literal 0 0;
    prev_odom_time = literal 0 0;
    current_voltage = literal 74 1;
    brake_active = false;
    current_steering = literal 0 0;
    current_throttle = literal 0 0;
    current_pan = literal 0 0;
    current_tilt = literal 0 0;
    battery_low_thresh = literal 66 1;
    battery_low_warned = false;
    battery_cells_detected = false;
  }
