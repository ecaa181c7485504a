-- ===== src/Servo/Limits.antt =====
-- What the boards are told stays within the limits of the hardware, on every path of `Gpio` and
-- `Servo`.
use physicar_ros.Base.{
  ℕ, ◌%◌, ◌⊎◌, ◌≤◌, ◌<◌, ◌≡◌, refl, Bool, false, ◌||◌, List, [], ◌∷◌, if◌then◌else◌, if-intro,
  if-case, not, Option, some, none, ◌+◌, arith, ◌==◌, All, Bool-cases, inl, inr,
}
use physicar_ros.Base.Int.{ℤ, pos, ◌≤ℤ◌, clamp_ℤ, ltb_ℤ, pos_part}
use physicar_ros.Double.{Double, ◌≼◌, IsNum, IsOrdered, IsRounded, clamp_bounds}
use physicar_ros.Rosmaster.Hardware.{
  Hardware, Output, serial, pwm, export_file, period, duty_cycle, enable, emit, emit-All,
}
use physicar_ros.Rosmaster.Transmit.{
  checksum, send_cmd, servo_frame, beep_frame, set_pwm_servo, set_beep,
}
use physicar_ros.Gpio.{
  min_duty_ns, duty_range_ns, neutral_ns, period_ns, set_duty_ns, set_servo, duty_of_angle, connect,
  connect_channel, disconnect, disconnect_channel,
}
use physicar_ros.Servo.{
  ServoController, ch_throttle, ch_steering, servo_angle, apply_angle, set_throttle_speed,
  throttle_duty,
}

-- The bytes of a servo command name one of the four channels and an angle of at most 180 degrees.
abbrev pub ServoWithin : List ℕ → Type 0
ServoWithin (h ∷ i ∷ l ∷ f ∷ c ∷ a ∷ []) = ((f == 3) ≡ false) ⊎ ((1 ≤ c) × (c ≤ 4) × (a ≤ 180))
ServoWithin bytes = Unit

-- A pulse width lies within 0.5 .. 2.5 ms, the period is 20 ms, and no channel is ever switched off.
abbrev pub IsSafe : Output → Type 0
IsSafe (serial bytes) = All (λ b. b < 256) bytes × ServoWithin bytes
IsSafe (pwm export_file v) = (pos 0 ≤ℤ v) × (v ≤ℤ pos 1)
IsSafe (pwm (period idx) v) = v ≡ pos 20_000_000
IsSafe (pwm (duty_cycle idx) v) = (idx ≤ 1) × (pos 500_000 ≤ℤ v) × (v ≤ℤ pos 2_500_000)
IsSafe (pwm (enable idx) v) = v ≡ pos 1

abbrev pub AllSafe : Hardware → Type 0
AllSafe h = All IsSafe h.log

abbrev pub all_safe : (o : Output) (h : Hardware) → IsSafe o → AllSafe h → AllSafe (emit o h).0
all_safe = emit-All IsSafe

servo_frame-IsSafe :
    (connected : Bool) (channel angle : ℤ)
    → (not connected || ltb_ℤ channel (pos 1) || ltb_ℤ (pos 4) channel) ≡ false
    → IsSafe (
        serial
          (servo_frame (pos_part channel % 256) (pos_part (clamp_ℤ angle (pos 0) (pos 180)) % 256)))
servo_frame-IsSafe connected channel angle ok = ground arith

abbrev pub Told {κ} : (Output → Type κ) → Hardware → Type κ
Told P h = All P h.log

-- Whatever holds of all safe commands, and of the commands told before, holds after the functions of
-- the boards that tell safe commands only.
module _ {κ} (P : Output → Type κ) (holds : (o : Output) → IsSafe o → P o) where
  send_cmd-Told :
      (cmd : List ℕ) (h : Hardware) → IsSafe (serial cmd) → Told P h → Told P (send_cmd cmd h).0
  unfolding send_cmd
  send_cmd-Told cmd h c s =
      let first = emit-All P (serial cmd) h (holds (serial cmd) c) s in
      let sum = holds (serial (checksum cmd ∷ [])) (omega arith) in
      if-intro {A = Hardware × Bool} (λ r. Told P r.0) _ _ _
        (emit-All P (serial (checksum cmd ∷ [])) (emit (serial cmd) h).0 sum first) first

  pub set_pwm_servo-Told :
      (channel angle : ℤ) (h : Hardware) → Told P h → Told P (set_pwm_servo channel angle h).0
  unfolding set_pwm_servo
  set_pwm_servo-Told channel angle h s =
      let frame =
        servo_frame (pos_part channel % 256) (pos_part (clamp_ℤ angle (pos 0) (pos 180)) % 256) in
      if-case {A = Hardware × Bool} (λ r. Told P r.0) _ _ (send_cmd frame h) (λ _. s)
        (λ ok. send_cmd-Told frame h (servo_frame-IsSafe h.connected channel angle ok) s)

  pub set_beep-Told : (duration : ℤ) (h : Hardware) → Told P h → Told P (set_beep duration h).0
  unfolding set_beep
  set_beep-Told duration h s =
      if-intro {A = Hardware × Bool} (λ r. Told P r.0) _ _ (send_cmd (beep_frame duration) h) s
        (send_cmd-Told (beep_frame duration) h (omega arith, inl refl) s)

  pub set_duty_ns-Told :
      (channel : ℕ) (duty : ℤ) (h : Hardware) → Told P h → Told P (set_duty_ns channel duty h).0
  unfolding set_duty_ns
  set_duty_ns-Told channel duty h s =
      if-intro (λ o. Told P (on_channel o).0) (channel == 1) (some 1) _ (told 1 (omega arith))
        (if-intro (λ o. Told P (on_channel o).0) (channel == 2) (some 0) none (told 0 (omega arith))
          s)
    where
      pulse : ℤ
      pulse = clamp_ℤ duty (pos min_duty_ns) (pos (min_duty_ns + duty_range_ns))

      on_channel : Option ℕ → Hardware × Bool
      on_channel o = elim o [ none ↦ (h, false) | some idx ↦ emit (pwm (duty_cycle idx) pulse) h ]

      told : (idx : ℕ) → idx ≤ 1 → Told P (emit (pwm (duty_cycle idx) pulse) h).0
      told idx i = emit-All P (pwm (duty_cycle idx) pulse) h (holds _ (ground arith)) s

connect_channel-AllSafe :
    (exists : ℕ → Bool) (idx : ℕ) (h : Hardware)
    → idx ≤ 1
    → AllSafe h
    → AllSafe (connect_channel exists idx h)
unfolding connect_channel
connect_channel-AllSafe exists idx h i s =
    let created : AllSafe (if exists idx then h else (emit (pwm export_file (pos idx)) h).0) =
      ground (arith, all_safe (pwm export_file (pos idx)) h (omega arith) s) in
    all_safe (pwm (enable idx) (pos 1)) _ refl (
      all_safe (pwm (duty_cycle idx) (pos neutral_ns)) _ (omega arith)
        (all_safe (pwm (period idx) (pos period_ns)) _ refl created))

-- Connecting and disconnecting the PWM channels writes safe values only.
pub connect-AllSafe :
    (found : Bool) (exists : ℕ → Bool) (h : Hardware)
    → AllSafe h
    → AllSafe (connect found exists h).0
unfolding connect
connect-AllSafe found exists h s = ground (
  arith,
  connect_channel-AllSafe exists 0 (connect_channel exists 1 h) (omega arith)
      (connect_channel-AllSafe exists 1 h (omega arith) s),
)

pub disconnect-AllSafe :
    (exists : ℕ → Bool) (h : Hardware) → AllSafe h → AllSafe (disconnect exists h)
unfolding disconnect disconnect_channel emit
disconnect-AllSafe exists h s = ground arith

module _ {ℓ} {F : Type ℓ} ⦃d : Double F⦄ (laws : IsOrdered F) (rounded : IsRounded F) where
  open d use {literal, of_ℤ, trunc, add, mul, div, lt, abs}
  open laws use {literal_mono}
  open rounded use {div_mono, div_exact, mul_mono, mul_exact, add_mono, add_exact, trunc_bounds}

  -- An angle of 0 .. 180 degrees makes a pulse of 0.5 .. 2.5 ms.
  duty_of_angle_bounds :
      (a : F)
      → literal 0 0 ≼ a
      → a ≼ literal 180 0
      → (pos 500_000 ≤ℤ duty_of_angle a) × (duty_of_angle a ≤ℤ pos 2_500_000)
  duty_of_angle_bounds a lo hi =
      let n : ℕ = 2_000_000 in
      let q = div a (literal 180 0) in
      let zero_num : literal 0 0 ≼ literal 0 0 = literal_mono 0 0 0 (omega arith) in
      let q₀ : literal 0 0 ≼ q =
        rw (div_exact 0 180 (omega arith) (omega arith)) at
          (div_mono (literal 0 0) a 180 (omega arith) (omega arith) zero_num lo) in
      let q₁ : q ≼ literal 1 0 =
        rw (div_exact 1 180 (omega arith) (omega arith)) at
          (div_mono a (literal 180 0) 180 (omega arith) (omega arith) lo hi) in
      let m₀ : of_ℤ (pos 0) ≼ mul q (of_ℤ (pos n)) =
        rw (mul_exact 0 n (omega arith) (omega arith) (omega arith)) at
          (mul_mono (literal 0 0) q n (omega arith) (omega arith) zero_num q₀) in
      let m₁ : mul q (of_ℤ (pos n)) ≼ of_ℤ (pos n) =
        rw (mul_exact 1 n (omega arith) (omega arith) (omega arith)) at
          (mul_mono q (literal 1 0) n (omega arith) (omega arith) q₀ q₁) in
      trunc_bounds (add (of_ℤ (pos 500_000)) (mul q (of_ℤ (pos n)))) 500_000 2_500_000 (omega arith)
        (rw (add_exact 500_000 0 (omega arith)) at
          (add_mono (of_ℤ (pos 0)) _ 500_000 (omega arith) m₀))
        (rw (add_exact 500_000 n (omega arith)) at
          (add_mono _ (of_ℤ (pos n)) 500_000 (omega arith) m₁))

  -- A PWM channel gets a safe pulse for every angle that is not NaN.
  pub set_servo-AllSafe :
      (channel : ℕ) (angle : F) (h : Hardware)
      → IsNum angle
      → AllSafe h
      → AllSafe (set_servo channel angle h).0
  unfolding set_servo emit
  set_servo-AllSafe channel angle h n s =
      let (lo, hi) =
        clamp_bounds laws angle (literal 0 0) (literal 180 0) (literal_mono 0 180 0 (omega arith))
          n in
      ground (arith, duty_of_angle_bounds _ lo hi)

  -- If only safe commands were told to the hardware before, `apply_angle` tells it safe ones
  -- only: on the two PWM channels for every angle that is not NaN after limits and trim, on the
  -- others for every angle.
  pub apply_angle-AllSafe :
      (c : ServoController F) (ch : ℕ) (angle : F) (h : Hardware)
      → ((ch ≡ ch_throttle) ⊎ (ch ≡ ch_steering) → IsNum (servo_angle c ch angle))
      → AllSafe h
      → AllSafe (apply_angle c ch angle h).0
  unfolding apply_angle
  apply_angle-AllSafe c ch angle h n s =
      elim (Bool-cases (ch == ch_throttle || ch == ch_steering)) [
        | inl e ↦ rw e (set_servo-AllSafe ch (servo_angle c ch angle) h (n (ground arith)) s)
        | inr e ↦ rw e (
            set_pwm_servo-Told IsSafe (λ o safe. safe) (pos ch)
              (trunc (d.round (servo_angle c ch angle))) h s)
      ]

-- The throttle is told a safe pulse at every speed and voltage, NaN included.
pub set_throttle_speed-Told {ℓ κ} :
    {F : Type ℓ} ⦃d : Double F⦄ (P : Output → Type κ)
    → ((o : Output) → IsSafe o → P o)
    → (c : ServoController F) (speed voltage : F) (h : Hardware) → Told P h
    → Told P (set_throttle_speed c speed voltage h).0
unfolding set_throttle_speed
set_throttle_speed-Told ⦃d⦄ P holds c speed voltage h s =
    if-intro {A = Hardware × Bool} (λ r. Told P r.0) _ _ _
      (set_duty_ns-Told P holds ch_throttle (pos 1_500_000) h s)
      (set_duty_ns-Told P holds ch_throttle (throttle_duty c speed voltage) h s)
