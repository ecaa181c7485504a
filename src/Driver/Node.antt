-- ===== src/Driver/Node.antt =====
-- PhysicarDriverNode: its callbacks as steps. All of them stand in the node's default callback group,
-- which is mutually exclusive: they run one after the other, also under the MultiThreadedExecutor.
-- An event carries the times that the clocks show when its callback runs.
pub mod Ownership
pub mod Callbacks
pub mod Safety
pub mod Pulses
use physicar_ros.Base.{Bool, true, false, Option, List, [], ◌∷◌, if◌then◌else◌}
use physicar_ros.Base.Int.{ℤ}
use physicar_ros.Double.{Double}
use physicar_ros.Driver.State.{Driver}
use physicar_ros.Driver.Arbitration.{
  TeleopStatus, drive_engaged, camera_engaged, teleop_status_callback,
}
use physicar_ros.Driver.Drive.{
  set_speed, set_steering_rad, odom_callback, cmd_vel_callback, cmd_watchdog,
}
use physicar_ros.Driver.Camera.{apply_pan, apply_tilt, servo_commands}
use physicar_ros.Driver.Battery.{publish_battery}

-- `ns` is `now().nanoseconds()` and `steady` is `steady_now()`.
pub record Times {ℓ} (F : Type ℓ) : Type ℓ where
  pub ns : ℤ
  pub steady : F

pub data Event {ℓ} (F : Type ℓ) : Type ℓ where
  speed : F → Event F
  steering : F → Event F
  teleop_speed : F → Event F
  teleop_steering : F → Event F
  cmd_vel : F → F → Event F
  pan : F → Event F
  tilt : F → Event F
  teleop_pan : F → Event F
  teleop_tilt : F → Event F
  servo_command : List F → Event F
  odom : F → Event F
  teleop_status : TeleopStatus → Event F
  watchdog_timer : Event F
  battery_timer : F → Event F

module _ {ℓ} {F : Type ℓ} ⦃d : Double F⦄ where
  unfoldable pub step : Times F → Event F → Driver F → Driver F
  step t (speed v) s = if drive_engaged t.ns s then s else set_speed t.steady v s
  step t (steering v) s = if drive_engaged t.ns s then s else set_steering_rad v s
  step t (teleop_speed v) s = set_speed t.steady v s
  step t (teleop_steering v) s = set_steering_rad v s
  step t (cmd_vel vx wz) s = cmd_vel_callback t.ns t.steady vx wz s
  step t (pan v) s = if camera_engaged t.ns s then s else apply_pan v s
  step t (tilt v) s = if camera_engaged t.ns s then s else apply_tilt v s
  step t (teleop_pan v) s = apply_pan v s
  step t (teleop_tilt v) s = apply_tilt v s
  step t (servo_command l) s = servo_commands l s
  step t (odom v) s = odom_callback t.steady v s
  step t (teleop_status m) s = teleop_status_callback t.ns m s
  step t watchdog_timer s = cmd_watchdog t.steady s
  step t (battery_timer v) s = (publish_battery v s).0

  unfoldable pub run : List (Times F × Event F) → Driver F → Driver F
  run [] s = s
  run ((t, e) ∷ es) s = run es (step t e s)
