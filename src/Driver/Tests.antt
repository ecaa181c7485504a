-- ===== src/Driver/Tests.antt =====
-- The theorems on the driver node, on concrete states.
use physicar_ros.Base.{ℕ, ◌≡◌, refl, true, false, ◌&&◌, ◌||◌, none, List, [], ◌∷◌}
use physicar_ros.Base.Int.{pos}
use physicar_ros.Double.{IsNum, clamp}
use physicar_ros.Double.Micro.{Micro, micro_double, dec, nan, Micro-IsOrdered, Micro-IsRounded}
use physicar_ros.StringMap.{lookup}
use physicar_ros.Rosmaster.Hardware.{Hardware}
use physicar_ros.Servo.{
  initial_servo, ch_throttle, esc_center_ns, set_throttle_speed, apply_angle, servo_angle,
}
use physicar_ros.Gpio.{set_duty_ns}
use physicar_ros.Servo.Limits.{AllSafe, apply_angle-AllSafe}
use physicar_ros.Driver.State.{Driver, TeleopSource, initial, speed_deadzone}
use physicar_ros.Driver.Arbitration.{
  TeleopStatus, any, any_except, Distinct, is_fresh, drive_engaged, source_name,
}
use physicar_ros.Driver.Drive.{set_speed, odom_callback, cmd_watchdog, is_stale}
use physicar_ros.Driver.Drive.Stale.{IsStopped, cmd_watchdog-IsStopped}
use physicar_ros.Driver.Drive.Braking.{IsBraking, brake_ends, run_odom}
use physicar_ros.Driver.Drive.Nan.{set_speed_nan}
use physicar_ros.Driver.Node.{
  Times, Event, speed, steering, teleop_pan, servo_command, teleop_status, watchdog_timer, odom,
  step, run,
}
use physicar_ros.Driver.Node.Pulses.{AllGuarded, run-AllGuarded}
use physicar_ros.Driver.Node.Ownership.{drive_engaged-teleop_status, reported}
use physicar_ros.Driver.Node.Callbacks.{
  Callback, event, calibration_request, joints_timer, perform_all,
}
use physicar_ros.Driver.Node.Safety.{perform_all-IsLimited}
use physicar_ros.Driver.Calibration.{Files, CalibrationRequest, Calibrated, defaults}
use physicar_ros.Driver.Drive.Tracking.{IsLimited}

-- Boards that take every write.
abbrev boards : Hardware
boards = record { connected = true; accepts = λ _. true; log = [] }

abbrev at : ℕ → Times Micro
at n = record { ns = pos n; steady = dec n 9 }

abbrev drive : List (Times Micro × Event Micro)
drive = (at 0, speed (dec 9 0)) ∷ (at 1, odom (dec 1 0)) ∷ (at 2, watchdog_timer) ∷ []

-- A calibration service whose file cannot be found, and a request to centre the steering.
abbrev files : Files Micro
files = record {
  file = none;
  find = λ s t p. none;
  stod = λ s. none;
  print = λ a b c r g. "";
  to_string = λ x. "";
  lower = λ s. s;
  write = λ s. (true, true);
}

abbrev centring : CalibrationRequest Micro
centring = record {
  channel = "steering";
  center_value = dec 3 0;
  max_value = dec 0 0;
  bool_value = false;
}

abbrev car : Calibrated Micro
car = record { driver = initial boards; cal = defaults; parameters = defaults }

abbrev history : List (Callback Micro)
history =
    event (at 0) (speed (dec 9 0))
    ∷ calibration_request files centring
    ∷ event (at 1) (odom (dec 1 0))
    ∷ joints_timer
    ∷ event (at 2) watchdog_timer
    ∷ []

perform_all-IsLimited_example : IsLimited Micro-IsOrdered (perform_all history car).driver
perform_all-IsLimited_example = perform_all-IsLimited Micro-IsOrdered history car refl refl

-- A joystick that owns the drive for half a second, from time 100.
abbrev joy : TeleopStatus
joy = record {
  source = "joy";
  drive_engaged = true;
  camera_engaged = false;
  estop_latched = false;
  timeout_sec = pos 0;
  timeout_nanosec = 500_000_000;
}

abbrev joy_source : TeleopSource Micro
joy_source = record {
  drive = true;
  camera = false;
  estop = false;
  timeout_sec = dec 5 1;
  last_ns = pos 100;
}

abbrev owned : Driver Micro
owned = record (initial boards) { teleop_sources = ("joy", joy_source) ∷ [] }

no_source : lookup {V = TeleopSource Micro} "joy" [] ≡ none
unfolding lookup
no_source = refl

drive_engaged-teleop_status_example :
    (drive_engaged (pos 200) (step (at 100) (teleop_status joy) owned) ≡ (
      (is_fresh (pos 200) (reported {F = Micro} (pos 100) joy) && true)
      || any_except (source_name joy) (λ u. is_fresh (pos 200) u && u.drive) owned.teleop_sources))
    × Distinct (step (at 100) (teleop_status joy) owned).teleop_sources
drive_engaged-teleop_status_example =
    drive_engaged-teleop_status (at 100) (pos 200) joy owned (no_source, tt)

owned_now : drive_engaged (pos 200) owned ≡ true
unfolding drive_engaged any is_fresh
owned_now = refl

-- A car that was told to drive at 1 m/s at time 0.
abbrev driving : Driver Micro
driving = record (initial boards) {
  target_speed = dec 1 0;
  last_drive_cmd_time = dec 1 0;
  actual_speed = dec 1 0;
  actual_speed_time = dec 49 1;
}

stale_now : is_stale (dec 5 0) driving ≡ true
stale_now = refl

cmd_watchdog-IsStopped_example :
    IsStopped Micro-IsOrdered (dec 5 0) driving (cmd_watchdog (dec 5 0) driving)
cmd_watchdog-IsStopped_example =
    cmd_watchdog-IsStopped Micro-IsOrdered (dec 5 0) driving refl stale_now

abbrev braking : Driver Micro
braking = record (initial boards) { brake_active = true; actual_speed = dec 1 0 }

is_braking : IsBraking braking
is_braking = record { stopping = refl; active = refl }

brake_ends_example :
    ((odom_callback (dec 2 0) (dec 1 1) (run_odom ((dec 1 0, dec 1 0) ∷ []) braking)).hardware
      ≡ (set_duty_ns ch_throttle
          (pos esc_center_ns)
          (run_odom ((dec 1 0, dec 1 0) ∷ []) braking).hardware).0)
    × ((odom_callback (dec 2 0) (dec 1 1) (run_odom ((dec 1 0, dec 1 0) ∷ []) braking)).brake_active
        ≡ false)
    × ((odom_callback (dec 2 0) (dec 1 1) (run_odom ((dec 1 0, dec 1 0) ∷ []) braking)).speed_adjust
        ≡ dec 0 0)
brake_ends_example =
    brake_ends Micro-IsOrdered ((dec 1 0, dec 1 0) ∷ []) (dec 2 0) (dec 1 1) braking is_braking
      (refl, tt) refl

angle-IsNum : IsNum (servo_angle initial_servo 2 (dec 100 0))
unfolding servo_angle clamp
angle-IsNum = refl

apply_angle-AllSafe_example : AllSafe (apply_angle initial_servo 2 (dec 100 0) boards).0
apply_angle-AllSafe_example =
    apply_angle-AllSafe Micro-IsOrdered Micro-IsRounded initial_servo 2 (dec 100 0) boards
      (λ _. angle-IsNum) tt

-- NaN as speed, steering and pan, and a raw command that opens no channel.
abbrev broken : List (Times Micro × Event Micro)
broken =
    (at 0, speed nan)
    ∷ (at 1, steering nan)
    ∷ (at 1, teleop_pan nan)
    ∷ (at 2, odom nan)
    ∷ (at 3, servo_command (dec 7 0 ∷ nan ∷ []))
    ∷ []

run-AllGuarded_example : AllGuarded (run broken (initial boards)).hardware
run-AllGuarded_example = run-AllGuarded broken (initial boards) tt

set_speed_nan_example :
    ((set_speed (dec 5 0) nan driving).hardware
      ≡ (set_throttle_speed initial_servo (micro_double.neg speed_deadzone) (dec 74 1) boards).0)
    × (cmd_watchdog (dec 60 0) (set_speed (dec 5 0) nan driving) ≡ set_speed (dec 5 0) nan driving)
set_speed_nan_example =
    set_speed_nan Micro-IsOrdered (dec 5 0) (dec 60 0) nan driving (λ p. absurd (cc))

abbrev warned : Driver Micro
warned = record driving { battery_cells_detected = true; battery_low_warned = true }
