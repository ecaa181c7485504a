-- ===== src/Driver/Calibration/Sync.antt =====
-- The servos follow the calibration.
use Prim.Native.String.{String}
use physicar_ros.Base.{◌≡◌, refl}
use physicar_ros.Double.{Double}
use physicar_ros.Servo.{ch_throttle, ch_steering, ch_pan, ch_tilt}
use physicar_ros.Driver.Calibration.{
  Files, CalibrationRequest, Calibrated, apply_calibration, load_and_apply_calibration, trimmed,
}
use physicar_ros.Driver.Calibration.Kept.{set_calibration_kept}
use physicar_ros.Driver.Calibration.Service.{set_calibration}

module _ {F : Type 0} ⦃d : Double F⦄ where
  open d use {neg}

  -- The servos are trimmed to the centres, the tilt's with the other sign, and the throttle has the
  -- direction and the gain.
  pub record IsSynced (s : Calibrated F) : Type 0 where
    pub steering : s.driver.servo.trim ch_steering ≡ s.cal.steering_center
    pub pan : s.driver.servo.trim ch_pan ≡ s.cal.pan_center
    pub tilt : s.driver.servo.trim ch_tilt ≡ neg s.cal.tilt_center
    pub direction : s.driver.servo.inverted ch_throttle ≡ s.cal.reverse_direction
    pub gain : s.driver.servo.speed_gain ≡ s.cal.speed_gain

  apply_calibration-IsSynced :
      (name : String) (s : Calibrated F) → IsSynced (apply_calibration name s)
  unfolding apply_calibration trimmed
  apply_calibration-IsSynced name s = record {
    steering = refl;
    pan = refl;
    tilt = refl;
    direction = refl;
    gain = refl;
  }

  -- After a request to set the calibration, whatever it asks for and whether it is refused or the file
  -- cannot be written, the servos follow the calibration, if they did before.
  pub set_calibration-IsSynced :
      (h : Files F) (req : CalibrationRequest F) (s : Calibrated F)
      → IsSynced s
      → IsSynced (set_calibration h req s).0
  unfolding load_and_apply_calibration
  set_calibration-IsSynced h req s p = set_calibration_kept IsSynced h req s (record {
    as_before = p;
    loaded = apply_calibration-IsSynced "" _;
    reversed = apply_calibration-IsSynced "" _;
    gained = λ e. apply_calibration-IsSynced "" _;
    centered = λ name e. apply_calibration-IsSynced name _;
    saved = λ t b q. record {
      steering = q.steering;
      pan = q.pan;
      tilt = q.tilt;
      direction = q.direction;
      gain = q.gain;
    };
  })
