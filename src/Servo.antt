-- ===== src/Servo.antt =====
-- struct ServoLimits and class ServoController of physicar_bringup/src/physicar_driver_node.cpp.
-- The node always has both boards, so the two pointers are not modelled as null.
pub mod Limits
use physicar_ros.Base.{
  ℕ, ◌+◌, ◌≤◌, ◌≡◌, Bool, true, false, ◌&&◌, ◌||◌, List, [], ◌∷◌, if◌then◌else◌, arith, ◌==◌,
}
use physicar_ros.Base.Int.{ℤ, pos, negsuc}
use physicar_ros.Double.{Double, clamp, max, rad_of_deg, deg_of_rad}
use physicar_ros.Rosmaster.Hardware.{Hardware}
use physicar_ros.Rosmaster.Transmit.{set_pwm_servo}
use physicar_ros.Gpio.{set_servo, set_duty_ns}

abbrev pub ch_throttle : ℕ
ch_throttle = 1

abbrev pub ch_steering : ℕ
ch_steering = 2

abbrev pub ch_pan : ℕ
ch_pan = 3

abbrev pub ch_tilt : ℕ
ch_tilt = 4

abbrev pub esc_center_ns : ℕ
esc_center_ns = 1_500_000

pub record ServoLimits {ℓ} (F : Type ℓ) : Type ℓ where
  pub min_angle : F
  pub max_angle : F
  pub center_angle : F

-- `limits`, `trim` and `inverted` are maps over the four channels.
pub record ServoController {ℓ} (F : Type ℓ) : Type ℓ where
  pub limits : ℕ → ServoLimits F
  pub trim : ℕ → F
  pub inverted : ℕ → Bool
  pub steering_ratio : F
  pub speed_gain : F

abbrev pub update {ℓ} : {A : Type ℓ} → (ℕ → A) → ℕ → A → ℕ → A
update m k v j = if j == k then v else m j

-- The power-law model of the ESC: A, K, D and P of one direction of mounting.
pub record EscModel {ℓ} (F : Type ℓ) : Type ℓ where
  pub gain : F
  pub exponent : F
  pub dead_band : F
  pub ratio : F

module _ {ℓ} {F : Type ℓ} ⦃d : Double F⦄ where
  open d use {literal, of_ℤ, trunc, lt, eq, add, sub, mul, div, neg, abs, round, sin, asin, pow, pi}

  abbrev pub servo_center : F
  servo_center = literal 90 0

  abbrev pub clamp_limits : ServoLimits F → F → F
  clamp_limits l a = clamp a l.min_angle l.max_angle

  unfoldable pub from_normalized : ServoLimits F → F → F
  from_normalized l v =
      if d.le (literal 0 0) v
      then add l.center_angle (mul v (sub l.max_angle l.center_angle))
      else add l.center_angle (mul v (sub l.center_angle l.min_angle))

  abbrev pub initial_servo : ServoController F
  initial_servo = record {
    limits = λ _. record {
      min_angle = literal 90 0;
      max_angle = literal 90 0;
      center_angle = literal 90 0;
    };
    trim = λ _. literal 0 0;
    inverted = λ _. false;
    steering_ratio = literal 96 2;
    speed_gain = literal 1 0;
  }

  abbrev pub set_limits : ℕ → F → F → F → ServoController F → ServoController F
  set_limits ch lo hi ctr s = record s {
    limits = update s.limits ch (record { min_angle = lo; max_angle = hi; center_angle = ctr });
  }

  abbrev pub set_trim : ℕ → F → ServoController F → ServoController F
  set_trim ch t s = record s { trim = update s.trim ch t }

  abbrev pub set_inverted : ℕ → Bool → ServoController F → ServoController F
  set_inverted ch inv s = record s { inverted = update s.inverted ch inv }

  -- The angle that `apply_angle` hands to a board.
  unfoldable pub servo_angle : ServoController F → ℕ → F → F
  servo_angle s ch angle =
      let turned = if s.inverted ch then sub (literal 180 0) angle else angle in
      add (clamp_limits (s.limits ch) turned) (s.trim ch)

  unfoldable pub apply_angle : ServoController F → ℕ → F → Hardware → Hardware × Bool
  apply_angle s ch angle h =
      if ch == ch_throttle || ch == ch_steering
      then set_servo ch (servo_angle s ch angle) h
      else set_pwm_servo (pos ch) (trunc (round (servo_angle s ch angle))) h

  unfoldable pub set_steering_wheel_angle : ServoController F → F → Hardware → Hardware × Bool
  set_steering_wheel_angle s wheel h =
      if lt (abs wheel) (literal 1 3)
      then apply_angle s ch_steering servo_center h
      else let sin_servo = div (sin (rad_of_deg wheel)) s.steering_ratio in
        let sin_servo' = clamp sin_servo (neg (literal 1 0)) (literal 1 0) in
        apply_angle s ch_steering (add servo_center (deg_of_rad (asin sin_servo'))) h

  abbrev pub esc_model : Bool → EscModel F
  esc_model true = record {
    gain = literal 37773 0;
    exponent = literal 1186 3;
    dead_band = literal 93981 0;
    ratio = literal 913 3;
  }
  esc_model false = record {
    gain = literal 37937 0;
    exponent = literal 1150 3;
    dead_band = literal 73177 0;
    ratio = literal 810 3;
  }

  -- The gain by direction: the slower direction of the ESC is compensated by `ratio`.
  unfoldable pub direction_gain : Bool → F → F → F → F
  direction_gain rev speed gain p =
      if rev
      then (if lt (literal 0 0) speed then mul gain p else gain)
      else if lt (literal 0 0) speed
      then gain
      else mul gain p

  -- `sign`, -1 or 1.
  unfoldable pub throttle_sign : Bool → F → ℤ
  throttle_sign rev speed =
      if rev
      then (if lt (literal 0 0) speed then pos 1 else negsuc 0)
      else if lt (literal 0 0) speed
      then negsuc 0
      else pos 1

  unfoldable pub throttle_duty : ServoController F → F → F → ℤ
  throttle_duty s speed voltage =
      let rev = s.inverted ch_throttle in
      let m = esc_model rev in
      let g_dir = direction_gain rev speed s.speed_gain m.ratio in
      let v_comp = div (literal 74 1) (max voltage (literal 50 1)) in
      let offset =
        mul (mul g_dir (add (mul m.gain (pow (abs speed) m.exponent)) m.dead_band)) v_comp in
      trunc (add (of_ℤ (pos esc_center_ns)) (mul (of_ℤ (throttle_sign rev speed)) offset))

  unfoldable pub set_throttle_speed : ServoController F → F → F → Hardware → Hardware × Bool
  set_throttle_speed s speed voltage h =
      if lt (abs speed) (literal 1 3)
      then set_duty_ns ch_throttle (pos esc_center_ns) h
      else set_duty_ns ch_throttle (throttle_duty s speed voltage) h

  -- `ok &= apply_angle(ch, lim.center_angle)` over the channels in the order of the map.
  unfoldable pub center_channels : ServoController F → List ℕ → Bool → Hardware → Hardware × Bool
  center_channels s [] ok h = (h, ok)
  center_channels s (ch ∷ chs) ok h =
      let (h', done) = apply_angle s ch (s.limits ch).center_angle h in
      center_channels s chs (ok && done) h'

  unfoldable pub center_all : ServoController F → Hardware → Hardware × Bool
  center_all s h = center_channels s (ch_throttle ∷ ch_steering ∷ ch_pan ∷ ch_tilt ∷ []) true h
