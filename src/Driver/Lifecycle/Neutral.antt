-- ===== src/Driver/Lifecycle/Neutral.antt =====
-- What the boards are left with when the driver node ends.
use physicar_ros.Base.{ℕ, ◌≡◌, refl, ◌∙◌, Bool, true, false, List, [], ◌∷◌, if-intro, arith}
use physicar_ros.Base.Int.{ℤ, pos}
use physicar_ros.Double.{Double}
use physicar_ros.Rosmaster.Hardware.{Hardware, Output, pwm, duty_cycle, emit}
use physicar_ros.Rosmaster.Transmit.{send_cmd, set_pwm_servo}
use physicar_ros.Gpio.{neutral_ns, set_duty_ns, set_servo, disconnect, disconnect_channel}
use physicar_ros.Servo.{
  ServoController, ch_throttle, servo_angle, apply_angle, center_channels, center_all,
  set_throttle_speed,
}
use physicar_ros.Driver.Calibration.{Calibrated}
use physicar_ros.Driver.Lifecycle.{shut_down}

-- What the kernel takes, which no write changes.
abbrev Same : Hardware → Hardware → Type 0
Same h h' = h'.accepts ≡ h.accepts

emit-Same : (o : Output) (h : Hardware) → Same h (emit o h).0
unfolding emit
emit-Same o h = ground arith

send_cmd-Same : (cmd : List ℕ) (h : Hardware) → Same h (send_cmd cmd h).0
unfolding send_cmd emit
send_cmd-Same cmd h = ground arith

set_pwm_servo-Same : (channel angle : ℤ) (h : Hardware) → Same h (set_pwm_servo channel angle h).0
unfolding set_pwm_servo
set_pwm_servo-Same channel angle h =
    if-intro {A = Hardware × Bool} (λ r. Same h r.0) _ _ _ refl (send_cmd-Same _ h)

set_duty_ns-Same : (channel : ℕ) (duty : ℤ) (h : Hardware) → Same h (set_duty_ns channel duty h).0
unfolding set_duty_ns emit
set_duty_ns-Same channel duty h = ground arith

module _ {ℓ} {F : Type ℓ} ⦃d : Double F⦄ where
  set_servo-Same : (channel : ℕ) (angle : F) (h : Hardware) → Same h (set_servo channel angle h).0
  unfolding set_servo emit
  set_servo-Same channel angle h = ground arith

  apply_angle-Same :
      (c : ServoController F) (ch : ℕ) (angle : F) (h : Hardware)
      → Same h (apply_angle c ch angle h).0
  unfolding apply_angle
  apply_angle-Same c ch angle h =
      if-intro {A = Hardware × Bool} (λ r. Same h r.0) _ _ _
        (set_servo-Same ch (servo_angle c ch angle) h) (set_pwm_servo-Same (pos ch) _ h)

  center_channels-Same :
      (c : ServoController F) (chs : List ℕ) (ok : Bool) (h : Hardware)
      → Same h (center_channels c chs ok h).0
  unfolding center_channels
  center_channels-Same c [] ok h = refl
  center_channels-Same c (ch ∷ chs) ok h =
      center_channels-Same c chs _ _ ∙ apply_angle-Same c ch (c.limits ch).center_angle h

  center_all-Same : (c : ServoController F) (h : Hardware) → Same h (center_all c h).0
  unfolding center_all
  center_all-Same c h = center_channels-Same c _ true h

  set_throttle_speed-Same :
      (c : ServoController F) (speed voltage : F) (h : Hardware)
      → Same h (set_throttle_speed c speed voltage h).0
  unfolding set_throttle_speed
  set_throttle_speed-Same c speed voltage h =
      if-intro {A = Hardware × Bool} (λ r. Same h r.0) _ _ _
        (set_duty_ns-Same ch_throttle (pos 1_500_000) h) (set_duty_ns-Same ch_throttle _ h)

-- The neutral pulse on a channel.
abbrev pub neutral : ℕ → Output
neutral idx = pwm (duty_cycle idx) (pos neutral_ns)

-- The last two writes are the neutral pulses of the throttle and of the steering, in this order.
abbrev pub EndsNeutral : Hardware → Hardware → Type 0
EndsNeutral before after = after.log ≡ neutral 0 ∷ neutral 1 ∷ before.log

disconnect-EndsNeutral :
    (exists : ℕ → Bool) (h : Hardware)
    → exists 0 ≡ true
    → exists 1 ≡ true
    → h.accepts (neutral 0) ≡ true
    → h.accepts (neutral 1) ≡ true
    → EndsNeutral h (disconnect exists h)
unfolding disconnect disconnect_channel emit
disconnect-EndsNeutral exists h e₀ e₁ a₀ a₁ = ground arith

module _ {F : Type 0} ⦃d : Double F⦄ where
  open d use {literal}

  -- The hardware once the destructor has stopped the throttle and centred the servos.
  abbrev pub centred : Calibrated F → Hardware
  centred s =
      let c = s.driver.servo in
      (center_all c (set_throttle_speed c (literal 0 0) (literal 74 1) s.driver.hardware).0).0

  -- With the PWM board connected, both of its channels present and their neutral pulses taken by
  -- the kernel, the destructor stops the throttle, centres the servos and ends with the neutral
  -- pulse on the throttle and then on the steering channel, whatever the calibration is; the
  -- serial board is disconnected.
  pub shut_down-EndsNeutral :
      (exists : ℕ → Bool) (s : Calibrated F)
      → exists 0 ≡ true
      → exists 1 ≡ true
      → s.driver.hardware.accepts (neutral 0) ≡ true
      → s.driver.hardware.accepts (neutral 1) ≡ true
      → EndsNeutral (centred s) (shut_down true exists s).driver.hardware
        × ((shut_down true exists s).driver.hardware.connected ≡ false)
  unfolding shut_down
  shut_down-EndsNeutral exists s e₀ e₁ a₀ a₁ =
      let c = s.driver.servo in
      let same : Same s.driver.hardware (centred s) =
        center_all-Same c _
        ∙ set_throttle_speed-Same c (literal 0 0) (literal 74 1) s.driver.hardware in
      (disconnect-EndsNeutral exists (centred s) e₀ e₁ (rw same a₀) (rw same a₁), refl)
