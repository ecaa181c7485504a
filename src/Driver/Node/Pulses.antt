-- ===== src/Driver/Node/Pulses.antt =====
-- What the driver's callbacks tell the boards, after every history of them.
use physicar_ros.Base.{◌⊎◌, ◌≡◌, refl, Bool, List, [], ◌∷◌, if◌then◌else◌, if-intro, inl, inr}
use physicar_ros.Base.Int.{ℤ, pos}
use physicar_ros.Double.{Double}
use physicar_ros.Rosmaster.Hardware.{
  Hardware, Output, serial, pwm, export_file, period, duty_cycle, enable, emit-All,
}
use physicar_ros.Rosmaster.Transmit.{set_pwm_servo}
use physicar_ros.Gpio.{set_servo}
use physicar_ros.Servo.{
  ServoController, ch_pan, ch_tilt, ch_steering, servo_center, apply_angle,
  set_steering_wheel_angle,
}
use physicar_ros.Servo.Limits.{IsSafe, Told, set_pwm_servo-Told}
use physicar_ros.Driver.State.{Driver}
use physicar_ros.Driver.Arbitration.{teleop_status_callback}
use physicar_ros.Driver.Drive.{set_speed, set_steering_rad, cmd_vel_callback, cmd_watchdog}
use physicar_ros.Driver.Drive.Tracking.{set_speed-Told, odom_callback-Told}
use physicar_ros.Driver.Camera.{apply_pan, apply_tilt, servo_commands}
use physicar_ros.Driver.Battery.Levels.{publish_battery-Told}
use physicar_ros.Driver.Node.{
  Times, Event, speed, steering, teleop_speed, teleop_steering, cmd_vel, pan, tilt, teleop_pan,
  teleop_tilt, servo_command, odom, teleop_status, watchdog_timer, battery_timer, step, run,
}

-- A safe command, but for the width of a pulse on the steering channel, of index 0.
abbrev pub IsGuarded : Output → Type 0
IsGuarded (pwm (duty_cycle idx) v) = (idx ≡ 0) ⊎ IsSafe (pwm (duty_cycle idx) v)
IsGuarded (serial bytes) = IsSafe (serial bytes)
IsGuarded (pwm export_file v) = IsSafe (pwm export_file v)
IsGuarded (pwm (period idx) v) = IsSafe (pwm (period idx) v)
IsGuarded (pwm (enable idx) v) = IsSafe (pwm (enable idx) v)

abbrev pub AllGuarded : Hardware → Type 0
AllGuarded h = Told IsGuarded h

IsGuarded-of_IsSafe : (o : Output) → IsSafe o → IsGuarded o
IsGuarded-of_IsSafe (pwm (duty_cycle idx) v) s = inr s
IsGuarded-of_IsSafe (serial bytes) s = s
IsGuarded-of_IsSafe (pwm export_file v) s = s
IsGuarded-of_IsSafe (pwm (period idx) v) s = s
IsGuarded-of_IsSafe (pwm (enable idx) v) s = s

servo-AllGuarded :
    (ch angle : ℤ) (h : Hardware) → AllGuarded h → AllGuarded (set_pwm_servo ch angle h).0
servo-AllGuarded = set_pwm_servo-Told IsGuarded IsGuarded-of_IsSafe

module _ {ℓ} {F : Type ℓ} ⦃d : Double F⦄ where
  open d use {literal}

  -- The steering servo is told one pulse, on its own channel.
  steering-AllGuarded :
      (c : ServoController F) (angle : F) (h : Hardware)
      → AllGuarded h
      → AllGuarded (apply_angle c ch_steering angle h).0
  unfolding apply_angle set_servo
  steering-AllGuarded c angle h s = emit-All IsGuarded (pwm (duty_cycle 0) _) h (inl refl) s

  wheel-AllGuarded :
      (c : ServoController F) (wheel : F) (h : Hardware)
      → AllGuarded h
      → AllGuarded (set_steering_wheel_angle c wheel h).0
  unfolding set_steering_wheel_angle
  wheel-AllGuarded c wheel h s =
      if-intro {A = Hardware × Bool} (λ r. AllGuarded r.0) _ _ _
        (steering-AllGuarded c servo_center h s) (steering-AllGuarded c _ h s)

  set_steering_rad-AllGuarded :
      (v : F) (s : Driver F) → AllGuarded s.hardware → AllGuarded (set_steering_rad v s).hardware
  unfolding set_steering_rad
  set_steering_rad-AllGuarded v s h = wheel-AllGuarded s.servo _ s.hardware h

  apply_pan-AllGuarded :
      (v : F) (s : Driver F) → AllGuarded s.hardware → AllGuarded (apply_pan v s).hardware
  unfolding apply_pan apply_angle
  apply_pan-AllGuarded v s h = servo-AllGuarded (pos ch_pan) _ s.hardware h

  apply_tilt-AllGuarded :
      (v : F) (s : Driver F) → AllGuarded s.hardware → AllGuarded (apply_tilt v s).hardware
  unfolding apply_tilt apply_angle
  apply_tilt-AllGuarded v s h = servo-AllGuarded (pos ch_tilt) _ s.hardware h

  servo_commands-AllGuarded :
      (c : List F) (s : Driver F) → AllGuarded s.hardware → AllGuarded (servo_commands c s).hardware
  unfolding servo_commands
  servo_commands-AllGuarded [] s h = h
  servo_commands-AllGuarded (c ∷ []) s h = h
  servo_commands-AllGuarded (c ∷ a ∷ rest) s h =
      if-intro (λ (t : Driver F). AllGuarded t.hardware) _ _ _
        (servo-AllGuarded (d.trunc c) _ s.hardware h) h

  -- A callback that another owner of the drive or of the camera may hold back.
  held-AllGuarded :
      (b : Bool) (s t : Driver F)
      → AllGuarded s.hardware
      → AllGuarded t.hardware
      → AllGuarded (if b then s else t).hardware
  held-AllGuarded b s t = if-intro (λ (u : Driver F). AllGuarded u.hardware) b s t

  speed-AllGuarded :
      (now v : F) (s : Driver F) → AllGuarded s.hardware → AllGuarded (set_speed now v s).hardware
  speed-AllGuarded = set_speed-Told IsGuarded IsGuarded-of_IsSafe

  step-AllGuarded :
      (t : Times F) (e : Event F) (s : Driver F)
      → AllGuarded s.hardware
      → AllGuarded (step t e s).hardware
  unfolding step cmd_vel_callback cmd_watchdog teleop_status_callback
  step-AllGuarded t (speed v) s h = held-AllGuarded _ _ _ h (speed-AllGuarded t.steady v s h)
  step-AllGuarded t (steering v) s h = held-AllGuarded _ _ _ h (set_steering_rad-AllGuarded v s h)
  step-AllGuarded t (teleop_speed v) s h = speed-AllGuarded t.steady v s h
  step-AllGuarded t (teleop_steering v) s h = set_steering_rad-AllGuarded v s h
  step-AllGuarded t (cmd_vel vx wz) s h =
      held-AllGuarded _ _ _ h (set_steering_rad-AllGuarded _ _ (speed-AllGuarded t.steady vx s h))
  step-AllGuarded t (pan v) s h = held-AllGuarded _ _ _ h (apply_pan-AllGuarded v s h)
  step-AllGuarded t (tilt v) s h = held-AllGuarded _ _ _ h (apply_tilt-AllGuarded v s h)
  step-AllGuarded t (teleop_pan v) s h = apply_pan-AllGuarded v s h
  step-AllGuarded t (teleop_tilt v) s h = apply_tilt-AllGuarded v s h
  step-AllGuarded t (servo_command c) s h = servo_commands-AllGuarded c s h
  step-AllGuarded t (odom v) s h = odom_callback-Told IsGuarded IsGuarded-of_IsSafe t.steady v s h
  step-AllGuarded t (teleop_status m) s h = h
  step-AllGuarded t watchdog_timer s h =
      held-AllGuarded _ _ _ (speed-AllGuarded t.steady (literal 0 0) s h) h
  step-AllGuarded t (battery_timer v) s h = publish_battery-Told IsGuarded IsGuarded-of_IsSafe v s h

  -- Every history of the callbacks of topics and timers, NaN values included, tells the boards safe
  -- commands only, but for the width of a pulse on the steering channel, if only such commands
  -- were told before.
  pub run-AllGuarded :
      (es : List (Times F × Event F)) (s : Driver F)
      → AllGuarded s.hardware
      → AllGuarded (run es s).hardware
  unfolding run
  run-AllGuarded [] s h = h
  run-AllGuarded ((t, e) ∷ es) s h = run-AllGuarded es (step t e s) (step-AllGuarded t e s h)
