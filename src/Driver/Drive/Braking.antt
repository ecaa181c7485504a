-- ===== src/Driver/Drive/Braking.antt =====
-- The active brake: from a stop command at speed to the centred throttle.
use physicar_ros.Base.{◌≡◌, refl, true, false, List, [], ◌∷◌, arith}
use physicar_ros.Base.Int.{pos}
use physicar_ros.Double.{Double, IsOrdered}
use physicar_ros.Servo.{set_throttle_speed, ch_throttle, esc_center_ns}
use physicar_ros.Gpio.{set_duty_ns}
use physicar_ros.Driver.State.{Driver, speed_deadzone, brake_speed}
use physicar_ros.Driver.Drive.{measure, brake_step, odom_callback}
use physicar_ros.Driver.Drive.Stale.{stop_centers}

module _ {ℓ} {F : Type ℓ} ⦃d : Double F⦄ where
  open d use {literal, lt, le, sub, abs, neg, copysign}

  -- A stop was commanded while the car was fast.
  pub record IsBraking (s : Driver F) : Type 0 where
    pub stopping : lt (abs s.target_speed) speed_deadzone ≡ true
    pub active : s.brake_active ≡ true

  -- While the brake is active and the measured speed is not at or below the brake speed, a
  -- measurement tells the throttle the brake speed against the motion, and the brake stays
  -- active.
  pub brakes_while_fast :
      (now actual : F) (s : Driver F)
      → IsBraking s
      → le (abs actual) brake_speed ≡ false
      → let t = odom_callback now actual s in
        IsBraking t
        × (t.hardware
            ≡ (set_throttle_speed s.servo
                (neg (copysign brake_speed actual))
                s.current_voltage
                s.hardware).0)
  unfolding odom_callback brake_step
  brakes_while_fast now actual s b fast =
      (record { stopping = ground arith; active = ground arith }, ground arith)

  -- The measurements of a run, each with its time.
  pub run_odom : List (F × F) → Driver F → Driver F
  run_odom [] s = s
  run_odom ((now, actual) ∷ ms) s = run_odom ms (odom_callback now actual s)

  abbrev pub AllFast : List (F × F) → Type ℓ
  AllFast [] = Unit
  AllFast ((now, actual) ∷ ms) = (le (abs actual) brake_speed ≡ false) × AllFast ms

  run_odom-IsBraking :
      (ms : List (F × F)) (s : Driver F) → AllFast ms → IsBraking s → IsBraking (run_odom ms s)
  unfolding run_odom
  run_odom-IsBraking [] s f b = b
  run_odom-IsBraking ((now, actual) ∷ ms) s (f, fs) b =
      run_odom-IsBraking ms (odom_callback now actual s) fs (brakes_while_fast now actual s b f).0

  module _ (laws : IsOrdered F) where
    -- While the brake is active, however many measurements of a fast car come first, the first
    -- slow one centres the throttle, clears the adjustment and releases the brake.
    pub brake_ends :
        (ms : List (F × F)) (now actual : F) (s : Driver F)
        → IsBraking s
        → AllFast ms
        → le (abs actual) brake_speed ≡ true
        → let before = run_odom ms s in
          let after = odom_callback now actual before in
          (after.hardware ≡ (set_duty_ns ch_throttle (pos esc_center_ns) before.hardware).0)
          × (after.brake_active ≡ false)
          × (after.speed_adjust ≡ literal 0 0)
    unfolding odom_callback brake_step
    brake_ends ms now actual s b fast slow =
        let before = run_odom ms s in
        let still = run_odom-IsBraking ms s fast b in
        rw (still.stopping, still.active, slow)
          (stop_centers laws (measure now actual before), refl, refl)
