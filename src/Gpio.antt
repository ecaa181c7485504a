-- ===== src/Gpio.antt =====
-- class GpioPwmBoard of physicar_bringup/src/physicar_driver_node.cpp: the two hardware PWM channels
-- under sysfs. A path is modelled by the file that it names; `found` says whether `chip_dir` found
-- the chip, and `exists` which channel directories are there.
use physicar_ros.Base.{ℕ, ◌+◌, ◌/◌, Bool, true, false, Option, none, some, if◌then◌else◌, ◌==◌}
use physicar_ros.Base.Int.{ℤ, pos, clamp_ℤ}
use physicar_ros.Double.{Double, clamp}
use physicar_ros.Rosmaster.Hardware.{
  Hardware, Output, pwm, export_file, period, duty_cycle, enable, emit,
}

abbrev pub period_ns : ℕ
period_ns = 20_000_000

abbrev pub min_duty_ns : ℕ
min_duty_ns = 500_000

abbrev pub duty_range_ns : ℕ
duty_range_ns = 2_000_000

abbrev pub neutral_ns : ℕ
neutral_ns = min_duty_ns + duty_range_ns / 2

-- `kChannelMap.find(channel)`.
abbrev pub channel_index : ℕ → Option ℕ
channel_index channel = if channel == 1 then some 1 else if channel == 2 then some 0 else none

-- A write whose result the code drops.
abbrev pub write_file : Output → Hardware → Hardware
write_file o h = (emit o h).0

unfoldable pub set_duty_ns : ℕ → ℤ → Hardware → Hardware × Bool
set_duty_ns channel duty h = elim (channel_index channel) [
  | none ↦ (h, false)
  | some idx ↦
      emit
        (pwm (duty_cycle idx) (clamp_ℤ duty (pos min_duty_ns) (pos (min_duty_ns + duty_range_ns))))
        h
]

-- The body of the loop of `connect`, for one channel.
unfoldable pub connect_channel : (ℕ → Bool) → ℕ → Hardware → Hardware
connect_channel exists idx h =
    let h₁ = if exists idx then h else write_file (pwm export_file (pos idx)) h in
    let h₂ = write_file (pwm (period idx) (pos period_ns)) h₁ in
    let h₃ = write_file (pwm (duty_cycle idx) (pos neutral_ns)) h₂ in
    write_file (pwm (enable idx) (pos 1)) h₃

-- The loop goes through the map in the order of its keys: channel 1 (index 1), channel 2 (index 0).
unfoldable pub connect : (found : Bool) → (ℕ → Bool) → Hardware → Hardware × Bool
connect found exists h =
    if found then (connect_channel exists 0 (connect_channel exists 1 h), true) else (h, false)

unfoldable pub disconnect_channel : (ℕ → Bool) → ℕ → Hardware → Hardware
disconnect_channel exists idx h =
    if exists idx then write_file (pwm (duty_cycle idx) (pos neutral_ns)) h else h

unfoldable pub disconnect : (ℕ → Bool) → Hardware → Hardware
disconnect exists h = disconnect_channel exists 0 (disconnect_channel exists 1 h)

module _ {ℓ} {F : Type ℓ} ⦃d : Double F⦄ where
  open d use {literal, of_ℤ, add, mul, div, trunc}

  -- The pulse width of an angle within 0 .. 180 degrees.
  abbrev pub duty_of_angle : F → ℤ
  duty_of_angle angle =
      trunc
        (add (of_ℤ (pos min_duty_ns)) (mul (div angle (literal 180 0)) (of_ℤ (pos duty_range_ns))))

  unfoldable pub set_servo : ℕ → F → Hardware → Hardware × Bool
  set_servo channel angle h = elim (channel_index channel) [
    | none ↦ (h, false)
    | some idx ↦
        emit (pwm (duty_cycle idx) (duty_of_angle (clamp angle (literal 0 0) (literal 180 0)))) h
  ]
