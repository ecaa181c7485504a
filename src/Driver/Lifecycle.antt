-- ===== src/Driver/Lifecycle.antt =====
-- PhysicarDriverNode: what its constructor and its destructor do to the boards.
pub mod Neutral
use physicar_ros.Base.{ℕ, zero, suc, Bool, false, if◌then◌else◌}
use physicar_ros.Double.{Double}
use physicar_ros.Rosmaster.Hardware.{Hardware}
use physicar_ros.Gpio.{connect, disconnect}
use physicar_ros.Servo.{
  ServoController, ch_throttle, servo_center, apply_angle, center_all, set_throttle_speed,
}
use physicar_ros.Driver.Calibration.{Files, Calibrated, load_and_apply_calibration}

abbrev with_connected : Bool → Hardware → Hardware
with_connected b h = record h { connected = b }

module _ {F : Type 0} ⦃d : Double F⦄ where
  open d use {literal}

  -- The loop of `initialize_esc`; its delays are left out.
  unfoldable pub repeat_center : ℕ → ServoController F → Hardware → Hardware
  repeat_center zero c h = h
  repeat_center (suc n) c h = repeat_center n c (apply_angle c ch_throttle servo_center h).0

  unfoldable pub initialize_esc : ServoController F → Hardware → Hardware
  initialize_esc c h = (center_all c (repeat_center 50 c (center_all c h).0)).0

  abbrev with_hardware : Calibrated F → Hardware → Calibrated F
  with_hardware s h = record s { driver = record (s.driver) { hardware = h } }

  -- The constructor: `opened` is whether the serial line could be opened, `found` and `exists` are what
  -- the PWM chip is found like.
  unfoldable pub start : Files F → Bool → Bool → (ℕ → Bool) → Calibrated F → Calibrated F
  start files opened found exists s =
      let loaded = load_and_apply_calibration files s in
      let (h, ready) = connect found exists (with_connected opened loaded.driver.hardware) in
      with_hardware loaded (if ready then initialize_esc loaded.driver.servo h else h)

  -- The destructor: `found` is whether the PWM board is connected.
  unfoldable pub shut_down : Bool → (ℕ → Bool) → Calibrated F → Calibrated F
  shut_down found exists s =
      let c = s.driver.servo in
      let stopped = (set_throttle_speed c (literal 0 0) (literal 74 1) s.driver.hardware).0 in
      let neutral = disconnect exists (center_all c stopped).0 in
      with_hardware s (with_connected false (if found then neutral else s.driver.hardware))
