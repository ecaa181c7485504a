-- ===== src/Driver/Drive.antt =====
-- PhysicarDriverNode: speed, steering, odometry feedback, /cmd_vel and the command watchdog.
pub mod Tracking
pub mod Stale
pub mod Braking
pub mod Nan
use physicar_ros.Base.{ℕ, ◌+◌, ◌≡◌, Bool, true, false, ◌&&◌, ◌||◌, not, if◌then◌else◌}
use physicar_ros.Base.Int.{ℤ}
use physicar_ros.Double.{Double, clamp, max, min, rad_of_deg, deg_of_rad}
use physicar_ros.Rosmaster.Hardware.{Hardware}
use physicar_ros.Servo.{set_throttle_speed, set_steering_wheel_angle}
use physicar_ros.Driver.State.{
  Driver, max_steering, max_speed, feedback_timeout, feedback_lookahead, feedback_p_gain,
  feedback_max_adjust, speed_deadzone, brake_speed,
}
use physicar_ros.Driver.Arbitration.{drive_engaged}

module _ {ℓ} {F : Type ℓ} ⦃d : Double F⦄ where
  open d use {literal, lt, le, eq, add, sub, mul, div, neg, abs, atan, copysign}

  -- `servo_.set_throttle_speed(speed, voltage)`, whose result the node drops.
  abbrev pub throttle : F → F → Driver F → Driver F
  throttle speed voltage s = record s {
    hardware = (set_throttle_speed s.servo speed voltage s.hardware).0;
  }

  -- `servo_.set_throttle_speed(0.0)`, with the default voltage.
  abbrev pub stop_throttle : Driver F → Driver F
  stop_throttle = throttle (literal 0 0) (literal 74 1)

  abbrev pub release_brake : Driver F → Driver F
  release_brake s = record s { speed_adjust = literal 0 0; brake_active = false }

  -- `get_adjusted_speed`, which also forgets a stale adjustment.
  abbrev pub fresh_adjust : F → Driver F → F
  fresh_adjust now s =
      if lt feedback_timeout (sub now s.actual_speed_time) then literal 0 0 else s.speed_adjust

  unfoldable pub adjusted_speed : F → Driver F → F
  adjusted_speed now s =
      let adj = add s.target_speed (fresh_adjust now s) in
      if eq s.target_speed (literal 0 0)
      then literal 0 0
      else if lt (literal 0 0) s.target_speed
      then max speed_deadzone adj
      else min (neg speed_deadzone) adj

  unfoldable pub keep_adjust : F → Driver F → Driver F
  keep_adjust now s =
      if eq s.target_speed (literal 0 0) then s else record s { speed_adjust = fresh_adjust now s }

  -- `servo_.set_throttle_speed(get_adjusted_speed(), current_voltage_)`
  unfoldable pub follow_target : F → Driver F → Driver F
  follow_target now s = throttle (adjusted_speed now s) s.current_voltage (keep_adjust now s)

  -- `set_speed`, at the steady time `now`.
  unfoldable pub command : F → F → Driver F → Driver F
  command now speed s = record s {
    last_drive_cmd_time = now;
    target_speed = speed;
    current_throttle = speed;
  }

  unfoldable pub brake_or_stop : F → Driver F → Driver F
  brake_or_stop now s =
      if lt feedback_timeout (sub now s.actual_speed_time) || le (abs s.actual_speed) brake_speed
      then release_brake (stop_throttle s)
      else record s { brake_active = true }

  unfoldable pub set_speed : F → F → Driver F → Driver F
  set_speed now speed_mps s =
      let speed = clamp speed_mps (neg max_speed) max_speed in
      let s' = command now speed s in
      if lt (abs speed) speed_deadzone
      then brake_or_stop now s'
      else follow_target now (record s' { brake_active = false })

  unfoldable pub set_steering_rad : F → Driver F → Driver F
  set_steering_rad rad s =
      let deg = clamp (deg_of_rad rad) (neg max_steering) max_steering in
      record s {
        current_steering = rad_of_deg deg;
        hardware = (set_steering_wheel_angle s.servo deg s.hardware).0;
      }

  -- The part of `odom_callback` for a target in the dead zone.
  unfoldable pub brake_step : F → Driver F → Driver F
  brake_step actual s =
      if not s.brake_active
      then s
      else if le (abs actual) brake_speed
      then release_brake (stop_throttle s)
      else throttle (neg (copysign brake_speed actual)) s.current_voltage s

  unfoldable pub feedback : F → F → F → Driver F → Driver F
  feedback now actual accel s =
      let predicted = add actual (mul accel feedback_lookahead) in
      let error = sub s.target_speed predicted in
      let adjust =
        clamp (mul error feedback_p_gain) (neg feedback_max_adjust) feedback_max_adjust in
      follow_target now (record s { speed_adjust = adjust })

  unfoldable pub odom_accel : F → F → Driver F → F
  odom_accel now actual s =
      let dt =
        (if lt (literal 0 0) s.prev_odom_time then sub now s.prev_odom_time else literal 0 0) in
      if lt (literal 1 3) dt then div (sub actual s.prev_actual_speed) dt else literal 0 0

  abbrev pub measure : F → F → Driver F → Driver F
  measure now actual s = record s {
    prev_actual_speed = actual;
    prev_odom_time = now;
    actual_speed = actual;
    actual_speed_time = now;
  }

  unfoldable pub odom_callback : F → F → Driver F → Driver F
  odom_callback now actual s =
      let accel = odom_accel now actual s in
      let s' = measure now actual s in
      if lt (abs s.target_speed) speed_deadzone
      then brake_step actual s'
      else feedback now actual accel s'

  unfoldable pub cmd_vel_steering : F → F → Driver F → F
  cmd_vel_steering vx wz s =
      if lt (literal 1 2) (abs vx)
      then deg_of_rad (atan (div (mul wz s.wheelbase) vx))
      else if lt (literal 1 2) (abs wz)
      then copysign max_steering wz
      else literal 0 0

  unfoldable pub cmd_vel_callback : ℤ → F → F → F → Driver F → Driver F
  cmd_vel_callback now_ns now vx wz s =
      if drive_engaged now_ns s
      then s
      else set_steering_rad (rad_of_deg (cmd_vel_steering vx wz s)) (set_speed now vx s)

  -- The timer of the drive-command watchdog, which runs only if `cmd_timeout_ > 0`.
  abbrev pub is_stale : F → Driver F → Bool
  is_stale now s =
      le speed_deadzone (abs s.target_speed) && lt s.cmd_timeout (sub now s.last_drive_cmd_time)

  unfoldable pub cmd_watchdog : F → Driver F → Driver F
  cmd_watchdog now s =
      if lt (literal 0 0) s.cmd_timeout && is_stale now s then set_speed now (literal 0 0) s else s
