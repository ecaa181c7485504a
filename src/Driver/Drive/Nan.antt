-- ===== src/Driver/Drive/Nan.antt =====
-- A speed command that is NaN: `std::clamp` lets it through, and every later comparison is false.
use physicar_ros.Base.{◌∙◌, ◌≡◌, false, arith}
use physicar_ros.Double.{Double, IsNum, IsOrdered, clamp_nan, lt_nan, min}
use physicar_ros.Servo.{set_throttle_speed}
use physicar_ros.Driver.Drive.Tracking.{set_speed_target}
use physicar_ros.Driver.State.{Driver, max_speed, speed_deadzone}
use physicar_ros.Driver.Drive.{
  adjusted_speed, keep_adjust, follow_target, fresh_adjust, command, set_speed, cmd_watchdog,
}

module _ {ℓ} {F : Type ℓ} ⦃d : Double F⦄ (laws : IsOrdered F) where
  open d use {literal, lt, le, eq, add, abs, neg}
  open laws use {num_of_le, num_of_eq, num_of_add, abs_num}

  not_le_nan : (x y : F) → ¬ IsNum y → le x y ≡ false
  not_le_nan x y n = ground (arith, num_of_le x y)

  -- With a target that is NaN the throttle is told the reverse of the dead zone.
  adjusted_speed_nan :
      (now : F) (s : Driver F) → ¬ IsNum s.target_speed → adjusted_speed now s ≡ neg speed_deadzone
  unfolding adjusted_speed min
  adjusted_speed_nan now s n =
      let adj = add s.target_speed (fresh_adjust now s) in
      ground (
        arith,
        num_of_eq s.target_speed (literal 0 0),
        lt_nan laws s.target_speed (literal 0 0) n,
        num_of_add s.target_speed (fresh_adjust now s),
        lt_nan laws adj (neg speed_deadzone),
      )

  cmd_watchdog_nan : (now : F) (s : Driver F) → ¬ IsNum s.target_speed → cmd_watchdog now s ≡ s
  unfolding cmd_watchdog
  cmd_watchdog_nan now s n =
      ground (arith, not_le_nan speed_deadzone (abs s.target_speed), abs_num s.target_speed)

  set_speed_nan_pulse :
      (now v : F) (s : Driver F)
      → ¬ IsNum v
      → (set_speed now v s).hardware
        ≡ (set_throttle_speed s.servo (neg speed_deadzone) s.current_voltage s.hardware).0
  unfolding set_speed follow_target keep_adjust command
  set_speed_nan_pulse now v s n =
      let big : lt (abs v) speed_deadzone ≡ false =
        (lt_nan laws (abs v) speed_deadzone (λ m. n (abs_num v m))).0 in
      let s' : Driver F = record (command now v s) { brake_active = false } in
      rw (clamp_nan laws v (neg max_speed) max_speed n, big)
        (ground (arith, adjusted_speed_nan now s' n))

  -- A NaN command drives the car: the throttle is told the dead zone speed in reverse at once, and
  -- at no later time does the watchdog act on that command.
  pub set_speed_nan :
      (now later v : F) (s : Driver F)
      → ¬ IsNum v
      → let t = set_speed now v s in
        (t.hardware
          ≡ (set_throttle_speed s.servo (neg speed_deadzone) s.current_voltage s.hardware).0)
        × (cmd_watchdog later t ≡ t)
  set_speed_nan now later v s n =
      let e = set_speed_target now v s ∙ clamp_nan laws v (neg max_speed) max_speed n in
      (set_speed_nan_pulse now v s n, cmd_watchdog_nan later (set_speed now v s) (rw e n))
