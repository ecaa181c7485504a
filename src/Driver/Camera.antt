-- ===== src/Driver/Camera.antt =====
-- PhysicarDriverNode: pan and tilt of the camera, and the raw servo command.
use physicar_ros.Base.{◌&&◌, List, [], ◌∷◌, if◌then◌else◌}
use physicar_ros.Base.Int.{pos, leb_ℤ}
use physicar_ros.Double.{Double, clamp, rad_of_deg, deg_of_rad}
use physicar_ros.Rosmaster.Transmit.{set_pwm_servo}
use physicar_ros.Servo.{ch_pan, ch_tilt, from_normalized, apply_angle}
use physicar_ros.Driver.State.{Driver, max_pan, max_tilt}

module _ {ℓ} {F : Type ℓ} ⦃d : Double F⦄ where
  open d use {literal, trunc, neg, div, lt, round}

  -- `clamp(rad * 180 / pi, -limit, limit)`, and its share of the limit.
  abbrev limited_deg : F → F → F
  limited_deg limit rad = clamp (deg_of_rad rad) (neg limit) limit

  abbrev share : F → F → F
  share limit deg = if lt (literal 0 0) limit then div deg limit else literal 0 0

  unfoldable pub apply_pan : F → Driver F → Driver F
  apply_pan rad s =
      let deg = limited_deg max_pan rad in
      let angle = from_normalized (s.servo.limits ch_pan) (share max_pan deg) in
      record s {
        current_pan = rad_of_deg deg;
        hardware = (apply_angle s.servo ch_pan angle s.hardware).0;
      }

  unfoldable pub apply_tilt : F → Driver F → Driver F
  apply_tilt rad s =
      let deg = limited_deg max_tilt rad in
      let angle = from_normalized (s.servo.limits ch_tilt) (neg (share max_tilt deg)) in
      record s {
        current_tilt = rad_of_deg deg;
        hardware = (apply_angle s.servo ch_tilt angle s.hardware).0;
      }

  -- The callback of /servo/commands: channel and angle, on a list that has both.
  unfoldable pub servo_commands : List F → Driver F → Driver F
  servo_commands [] s = s
  servo_commands (c ∷ []) s = s
  servo_commands (c ∷ a ∷ rest) s =
      let ch = trunc c in
      if leb_ℤ (pos 1) ch && leb_ℤ ch (pos 4)
      then record s { hardware = (set_pwm_servo ch (trunc (round a)) s.hardware).0 }
      else s
