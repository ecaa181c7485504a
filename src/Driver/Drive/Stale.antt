-- ===== src/Driver/Drive/Stale.antt =====
-- The command watchdog: a drive command that is not renewed is replaced by a stop.
use physicar_ros.Base.{ℕ, ◌≤◌, ◌<◌, ◌≡◌, Bool, true, not, ◌||◌, if◌then◌else◌, arith}
use physicar_ros.Base.Int.{pos}
use physicar_ros.Double.{Double, IsOrdered, clamp, clamp_inside}
use physicar_ros.Servo.{set_throttle_speed, ch_throttle, esc_center_ns}
use physicar_ros.Gpio.{set_duty_ns}
use physicar_ros.Driver.State.{Driver, max_speed, brake_speed, feedback_timeout}
use physicar_ros.Driver.Drive.{
  stop_throttle, command, brake_or_stop, set_speed, is_stale, cmd_watchdog,
}

module _ {ℓ} {F : Type ℓ} ⦃d : Double F⦄ (laws : IsOrdered F) where
  open d use {literal, lt, le, sub, abs, neg}
  open laws use {literal_mono, literal_strict, literal_zero, neg-literal-le, abs_literal, num_of_le}

  -- A speed of zero puts the pulse in the centre.
  zero_is_small :
      (m e : ℕ) → 0 < m → m ≤ 1_000_000 → e ≤ 6 → lt (abs (literal 0 0)) (literal m e) ≡ true
  zero_is_small m e h b k = rw (abs_literal 0 0, ← literal_zero e) (literal_strict 0 m e h b k)

  pub stop_centers :
      (s : Driver F)
      → (stop_throttle s).hardware ≡ (set_duty_ns ch_throttle (pos esc_center_ns) s.hardware).0
  unfolding set_throttle_speed
  stop_centers s = rw (zero_is_small 1 3 (omega arith) (omega arith) (omega arith))

  clamp_zero : clamp (literal 0 0) (neg max_speed) max_speed ≡ literal 0 0
  clamp_zero =
      clamp_inside laws (literal 0 0) (neg max_speed) max_speed
        (rw (← literal_zero 2) (neg-literal-le 300 0 2))
        (rw (← literal_zero 2) (literal_mono 0 300 2 (omega arith)))

  -- The car is slow, or nothing recent is known of its speed.
  abbrev pub may_stop : F → Driver F → Bool
  may_stop now s =
      lt feedback_timeout (sub now s.actual_speed_time) || le (abs s.actual_speed) brake_speed

  -- What a stop leaves behind: the throttle is centred, or the brake is armed.
  pub record IsStopped (now : F) (s t : Driver F) : Type ℓ where
    pub target : t.target_speed ≡ literal 0 0
    pub renewed : t.last_drive_cmd_time ≡ now
    pub pulse : t.hardware ≡ (
        if may_stop now s
        then (set_duty_ns ch_throttle (pos esc_center_ns) s.hardware).0
        else s.hardware)
    pub brake : t.brake_active ≡ not (may_stop now s)

  -- A stop command.
  pub set_speed_stop : (now : F) (s : Driver F) → IsStopped now s (set_speed now (literal 0 0) s)
  unfolding set_speed command brake_or_stop
  set_speed_stop now s =
      rw (clamp_zero, zero_is_small 1 2 (omega arith) (omega arith) (omega arith))
        (record {
          target = ground arith;
          renewed = ground arith;
          pulse = ground (arith, stop_centers (command now (literal 0 0) s));
          brake = ground arith;
        })

  -- Where the watchdog is enabled, the target speed is not below the dead zone in size and not NaN, and
  -- the command that set it is older than the timeout, the watchdog's timer stops the car: the target is
  -- zero, and the throttle is centred if the car is slow or its speed is unknown, while otherwise the
  -- brake is armed.
  pub cmd_watchdog-IsStopped :
      (now : F) (s : Driver F)
      → lt (literal 0 0) s.cmd_timeout ≡ true
      → is_stale now s ≡ true
      → IsStopped now s (cmd_watchdog now s)
  unfolding cmd_watchdog
  cmd_watchdog-IsStopped now s enabled stale = rw (enabled, stale) (set_speed_stop now s)
