-- ===== src/Driver/Battery.antt =====
-- The battery helpers and PhysicarDriverNode::publish_battery.
pub mod Levels
use physicar_ros.Base.{ℕ, ◌≡◌, Bool, true, false, not, Option, none, some, ◌==◌, if◌then◌else◌}
use physicar_ros.Base.Int.{ℤ, pos, clamp_ℤ}
use physicar_ros.Double.{Double}
use physicar_ros.Rosmaster.Transmit.{set_beep}
use physicar_ros.Driver.State.{Driver}

pub data SupplyStatus : Type 0 where
  status_unknown discharging : SupplyStatus

pub data SupplyHealth : Type 0 where
  health_unknown good dead : SupplyHealth

-- The fields of sensor_msgs/BatteryState that depend on the state.
pub record BatteryState {ℓ} (F : Type ℓ) : Type ℓ where
  pub voltage : F
  pub present : Bool
  pub percentage : F
  pub status : SupplyStatus
  pub health : SupplyHealth

module _ {ℓ} {F : Type ℓ} ⦃d : Double F⦄ where
  open d use {literal, of_ℤ, trunc, lt, le, sub, mul, div}

  unfoldable pub detect_cells : F → ℕ
  detect_cells v = if lt (literal 90 1) v then 3 else 2

  unfoldable pub battery_percentage : F → ℤ
  battery_percentage v =
      let three = detect_cells v == 3 in
      let lo = (if three then literal 96 1 else literal 64 1) in
      let hi = (if three then literal 126 1 else literal 84 1) in
      clamp_ℤ (trunc (mul (div (sub v lo) (sub hi lo)) (literal 100 0))) (pos 0) (pos 100)

  unfoldable pub battery_low_threshold : F → F
  battery_low_threshold v = if detect_cells v == 3 then literal 99 1 else literal 66 1

  -- The first voltage seen decides the number of cells, and so the warning threshold.
  unfoldable pub detect_battery : F → Driver F → Driver F
  detect_battery voltage s = if s.battery_cells_detected then s else record s {
    battery_cells_detected = true;
    battery_low_thresh = battery_low_threshold voltage;
  }

  -- The warning and its beep come once for each time that the voltage falls below the threshold.
  unfoldable pub warn_low : Driver F → Driver F
  warn_low s =
      if s.battery_low_warned
      then s
      else record s { battery_low_warned = true; hardware = (set_beep (pos 500) s.hardware).0 }

  -- `publish_battery` once a voltage has been received.
  unfoldable pub publish_present : F → Driver F → Driver F × Option (BatteryState F)
  publish_present voltage s =
      let s' = record (detect_battery voltage s) { current_voltage = voltage } in
      let low = lt voltage s'.battery_low_thresh in
      (
        if low then warn_low s' else record s' { battery_low_warned = false },
        some (record {
          voltage = voltage;
          present = true;
          percentage = div (of_ℤ (battery_percentage voltage)) (literal 100 0);
          status = discharging;
          health = if low then dead else good;
        }),
      )

  unfoldable pub publish_battery : F → Driver F → Driver F × Option (BatteryState F)
  publish_battery voltage s =
      if not s.hardware.connected
      then (s, none)
      else if le voltage (literal 0 0)
      then (
        s,
        some (record {
          voltage = voltage;
          present = false;
          percentage = literal 0 0;
          status = status_unknown;
          health = health_unknown;
        }),
      )
      else publish_present voltage s
