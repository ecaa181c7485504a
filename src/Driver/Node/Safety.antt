-- ===== src/Driver/Node/Safety.antt =====
-- What holds of the driver after every history of callbacks.
use physicar_ros.Base.{◌≡◌, refl, Bool, true, false, List, [], ◌∷◌, if◌then◌else◌, arith}
use physicar_ros.Double.{Double, IsOrdered}
use physicar_ros.Driver.State.{Driver}
use physicar_ros.Driver.Arbitration.{teleop_status_callback}
use physicar_ros.Driver.Drive.{set_steering_rad, cmd_vel_callback, cmd_watchdog}
use physicar_ros.Driver.Drive.Tracking.{
  IsLimited, zero-Within, set_speed-IsLimited, odom_callback-IsLimited,
}
use physicar_ros.Driver.Camera.{apply_pan, apply_tilt, servo_commands}
use physicar_ros.Driver.Battery.{publish_battery, publish_present, detect_battery, warn_low}
use physicar_ros.Driver.Calibration.{
  Files, CalibrationRequest, Calibrated, load_and_apply_calibration, apply_calibration,
}
use physicar_ros.Driver.Calibration.Service.{set_calibration}
use physicar_ros.Driver.Calibration.Kept.{set_calibration_kept}
use physicar_ros.Driver.Node.Callbacks.{
  Callback, event, calibration_request, imu_timer, joints_timer, perform, perform_all,
}
use physicar_ros.Driver.Node.{
  Times, Event, speed, steering, teleop_speed, teleop_steering, cmd_vel, pan, tilt, teleop_pan,
  teleop_tilt, servo_command, odom, teleop_status, watchdog_timer, battery_timer, step,
}

module _ {ℓ} {F : Type ℓ} ⦃d : Double F⦄ (laws : IsOrdered F) where
  open d use {literal}

  abbrev Limited : Driver F → Type ℓ
  Limited s = IsLimited laws s

  Limited-if : (b : Bool) (s t : Driver F) → Limited s → Limited t → Limited (if b then s else t)
  Limited-if true s t hs ht = hs
  Limited-if false s t hs ht = ht

  -- What leaves the target and the adjustment alone.
  frame :
      (s t : Driver F)
      → t.target_speed ≡ s.target_speed
      → t.speed_adjust ≡ s.speed_adjust
      → Limited s
      → Limited t
  frame s t p q l = record {
    target_within = rw p l.target_within;
    adjust_within = rw q l.adjust_within;
  }

  battery-Limited : (v : F) (s : Driver F) → Limited s → Limited (publish_battery v s).0
  unfolding publish_battery publish_present detect_battery warn_low
  battery-Limited v s l = frame s (publish_battery v s).0 (ground arith) (ground arith) l

  servo_commands-Limited : (c : List F) (s : Driver F) → Limited s → Limited (servo_commands c s)
  unfolding servo_commands
  servo_commands-Limited [] s l = l
  servo_commands-Limited (c ∷ []) s l = l
  servo_commands-Limited (c ∷ a ∷ rest) s l =
      frame s (servo_commands (c ∷ a ∷ rest) s) (ground arith) (ground arith) l

  set_steering_rad-Limited : (v : F) (s : Driver F) → Limited s → Limited (set_steering_rad v s)
  unfolding set_steering_rad
  set_steering_rad-Limited v s l = frame s (set_steering_rad v s) refl refl l

  apply_pan-Limited : (v : F) (s : Driver F) → Limited s → Limited (apply_pan v s)
  unfolding apply_pan
  apply_pan-Limited v s l = frame s (apply_pan v s) refl refl l

  apply_tilt-Limited : (v : F) (s : Driver F) → Limited s → Limited (apply_tilt v s)
  unfolding apply_tilt
  apply_tilt-Limited v s l = frame s (apply_tilt v s) refl refl l

  -- Every callback keeps the target speed and the feedback adjustment within their limits, whatever
  -- value it is called with.
  pub step-IsLimited :
      (t : Times F) (e : Event F) (s : Driver F) → IsLimited laws s → IsLimited laws (step t e s)
  unfolding step cmd_vel_callback cmd_watchdog teleop_status_callback
  step-IsLimited t (speed v) s l = Limited-if _ _ _ l (set_speed-IsLimited laws t.steady v s l)
  step-IsLimited t (steering v) s l = Limited-if _ _ _ l (set_steering_rad-Limited v s l)
  step-IsLimited t (teleop_speed v) s l = set_speed-IsLimited laws t.steady v s l
  step-IsLimited t (teleop_steering v) s l = set_steering_rad-Limited v s l
  step-IsLimited t (cmd_vel vx wz) s l =
      Limited-if _ _ _ l (set_steering_rad-Limited _ _ (set_speed-IsLimited laws t.steady vx s l))
  step-IsLimited t (pan v) s l = Limited-if _ _ _ l (apply_pan-Limited v s l)
  step-IsLimited t (tilt v) s l = Limited-if _ _ _ l (apply_tilt-Limited v s l)
  step-IsLimited t (teleop_pan v) s l = apply_pan-Limited v s l
  step-IsLimited t (teleop_tilt v) s l = apply_tilt-Limited v s l
  step-IsLimited t (servo_command c) s l = servo_commands-Limited c s l
  step-IsLimited t (odom v) s l = odom_callback-IsLimited laws t.steady v s l
  step-IsLimited t (teleop_status m) s l = frame s _ refl refl l
  step-IsLimited t watchdog_timer s l =
      Limited-if _ _ _ (set_speed-IsLimited laws t.steady (literal 0 0) s l) l
  step-IsLimited t (battery_timer v) s l = battery-Limited v s l

module _ {F : Type 0} ⦃d : Double F⦄ (laws : IsOrdered F) where
  open d use {literal}

  calibration-Limited :
      (files : Files F) (req : CalibrationRequest F) (s : Calibrated F)
      → IsLimited laws s.driver
      → IsLimited laws (set_calibration files req s).0.driver
  unfolding load_and_apply_calibration apply_calibration
  calibration-Limited files req s l =
      set_calibration_kept (λ t. IsLimited laws t.driver) files req s
        (record {
          as_before = l;
          loaded = frame laws s.driver _ refl refl l;
          reversed = frame laws s.driver _ refl refl l;
          gained = λ e. frame laws s.driver _ refl refl l;
          centered = λ name e. frame laws s.driver _ refl refl l;
          saved = λ t b k. k;
        })

  perform-Limited :
      (c : Callback F) (s : Calibrated F)
      → IsLimited laws s.driver
      → IsLimited laws (perform c s).0.driver
  unfolding perform
  perform-Limited (event t e) s l = step-IsLimited laws t e s.driver l
  perform-Limited (calibration_request files req) s l = calibration-Limited files req s l
  perform-Limited (imu_timer imu) s l = l
  perform-Limited joints_timer s l = l

  all-Limited :
      (cs : List (Callback F)) (s : Calibrated F)
      → IsLimited laws s.driver
      → IsLimited laws (perform_all cs s).driver
  unfolding perform_all
  all-Limited [] s l = l
  all-Limited (c ∷ cs) s l = all-Limited cs _ (perform-Limited c s l)

  -- From every state in which the target speed and the adjustment are zero, as the constructor leaves
  -- them whatever its parameters are, after every history of the callbacks of topics, of timers and of
  -- the service that sets the calibration the target speed is NaN or within -3 .. 3 m/s and the
  -- adjustment NaN or within -0.5 .. 0.5 m/s.
  pub perform_all-IsLimited :
      (cs : List (Callback F)) (s : Calibrated F)
      → s.driver.target_speed ≡ literal 0 0
      → s.driver.speed_adjust ≡ literal 0 0
      → IsLimited laws (perform_all cs s).driver
  perform_all-IsLimited cs s target adjust = all-Limited cs s (record {
    target_within = rw target (zero-Within laws 300 2);
    adjust_within = rw adjust (zero-Within laws 5 1);
  })
