-- ===== src/Driver/Battery/Levels.antt =====
-- What the battery reports say.
use physicar_ros.Base.{
  ◌≡◌, refl, sym, ◌∙◌, inl, inr, Bool-cases, true, false, Option, some, if◌then◌else◌, arith,
}
use physicar_ros.Base.Int.{pos, ◌≤ℤ◌}
use physicar_ros.Double.{Double}
use physicar_ros.Rosmaster.Hardware.{Output}
use physicar_ros.Servo.Limits.{IsSafe, Told, set_beep-Told}
use physicar_ros.Driver.State.{Driver}
use physicar_ros.Driver.Battery.{
  BatteryState, battery_percentage, detect_battery, warn_low, publish_present, publish_battery,
  dead, good, discharging,
}

module _ {ℓ} {F : Type ℓ} ⦃d : Double F⦄ where
  open d use {literal, of_ℤ, lt, le, div}

  -- The percentage is one of 0 .. 100 at every voltage.
  battery_percentage_bounds :
      (v : F) → (pos 0 ≤ℤ battery_percentage v) × (battery_percentage v ≤ℤ pos 100)
  unfolding battery_percentage
  battery_percentage_bounds v = ground arith

  -- What a call leaves behind for a voltage above zero: the message says dead exactly when the
  -- voltage is below the threshold of the new state, and just then the warning has been given.
  pub record IsReported (voltage : F) (r : Driver F × Option (BatteryState F)) : Type ℓ where
    pub message :
        r.1
        ≡ some (record {
          voltage = voltage;
          present = true;
          percentage = div (of_ℤ (battery_percentage voltage)) (literal 100 0);
          status = discharging;
          health = if lt voltage r.0.battery_low_thresh then dead else good;
        })
    pub current : r.0.current_voltage ≡ voltage
    pub detected : r.0.battery_cells_detected ≡ true
    pub warned : r.0.battery_low_warned ≡ lt voltage r.0.battery_low_thresh

  warn_low_frame :
      (s : Driver F)
      → ((warn_low s).battery_low_warned ≡ true)
        × ((warn_low s).battery_low_thresh ≡ s.battery_low_thresh)
        × ((warn_low s).current_voltage ≡ s.current_voltage)
        × ((warn_low s).battery_cells_detected ≡ s.battery_cells_detected)
  unfolding warn_low
  warn_low_frame s = ground arith

  detect_battery_done :
      (voltage : F) (s : Driver F) → (detect_battery voltage s).battery_cells_detected ≡ true
  unfolding detect_battery
  detect_battery_done voltage s = ground arith

  abbrev measured : F → Driver F → Driver F
  measured voltage s = record (detect_battery voltage s) { current_voltage = voltage }

  publish_present-IsReported :
      (voltage : F) (s : Driver F) → IsReported voltage (publish_present voltage s)
  unfolding publish_present
  publish_present-IsReported voltage s =
      let s' = measured voltage s in
      let (w, t, v, k) = warn_low_frame s' in
      elim (Bool-cases (lt voltage (detect_battery voltage s).battery_low_thresh)) [
        | inl low ↦ rw low (record {
          message = rw (t, low);
          current = v;
          detected = k ∙ detect_battery_done voltage s;
          warned = w ∙ sym (rw (t, low));
        })
        | inr high ↦ rw high (record {
          message = rw high;
          current = refl;
          detected = detect_battery_done voltage s;
          warned = sym high;
        })
      ]

  publishes_present :
      (voltage : F) (s : Driver F)
      → s.hardware.connected ≡ true
      → le voltage (literal 0 0) ≡ false
      → publish_battery voltage s ≡ publish_present voltage s
  unfolding publish_battery
  publishes_present voltage s c p = ground arith

  -- With the board connected, a voltage that is not at or below zero is reported: the message says
  -- dead exactly when it is below the new threshold, and just then the warning has been given.
  pub publish_battery-IsReported :
      (voltage : F) (s : Driver F)
      → s.hardware.connected ≡ true
      → le voltage (literal 0 0) ≡ false
      → IsReported voltage (publish_battery voltage s)
  publish_battery-IsReported voltage s c p =
      rw (publishes_present voltage s c p) (publish_present-IsReported voltage s)

  -- Once the cells are detected and the warning has been given, a report below the threshold
  -- tells the hardware nothing more, and the warning stays.
  pub warning_stays :
      (voltage : F) (s : Driver F)
      → s.battery_cells_detected ≡ true
      → s.battery_low_warned ≡ true
      → lt voltage s.battery_low_thresh ≡ true
      → let t = (publish_battery voltage s).0 in
        (t.hardware ≡ s.hardware) × (t.battery_low_warned ≡ true)
  unfolding publish_battery publish_present warn_low detect_battery
  warning_stays voltage s c w l = ground arith

  -- Whatever holds of all safe commands, and of the commands told before, holds after a report of the
  -- battery.
  pub publish_battery-Told {κ} :
      (P : Output → Type κ)
      → ((o : Output) → IsSafe o → P o)
      → (voltage : F) (s : Driver F) → Told P s.hardware
      → Told P (publish_battery voltage s).0.hardware
  unfolding publish_battery publish_present warn_low detect_battery
  publish_battery-Told P holds voltage s h =
      ground (arith, set_beep-Told P holds (pos 500) s.hardware h)
