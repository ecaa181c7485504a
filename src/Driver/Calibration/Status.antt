-- ===== src/Driver/Calibration/Status.antt =====
-- PhysicarDriverNode: the messages that tell the calibration. The limits of the hardware and the time
-- stamp, which do not depend on the state, and the file's path are left out.
use Prim.Native.String.{String, ◌++◌ as ◌<>◌}
use physicar_ros.Base.{Bool, true}
use physicar_ros.Driver.Calibration.{Files, Calibrated, to_json}

pub record CalibrationStatus {ℓ} (F : Type ℓ) : Type ℓ where
  pub steering_center : F
  pub pan_center : F
  pub tilt_center : F
  pub reverse_direction : Bool
  pub source : String
  pub is_saved : Bool

pub record GetResponse {ℓ} (F : Type ℓ) : Type ℓ where
  pub success : Bool
  pub message : String
  pub steering_center : F
  pub pan_center : F
  pub tilt_center : F
  pub reverse_direction : Bool
  pub speed_gain : F
  pub source : String
  pub calibration_json : String

module _ {ℓ} {F : Type ℓ} where
  unfoldable pub publish_calibration_status : Calibrated F → CalibrationStatus F
  publish_calibration_status s = record {
    steering_center = s.cal.steering_center;
    pan_center = s.cal.pan_center;
    tilt_center = s.cal.tilt_center;
    reverse_direction = s.cal.reverse_direction;
    source = s.cal.source;
    is_saved = s.cal.is_saved;
  }

  unfoldable pub get_calibration : Files F → Calibrated F → GetResponse F
  get_calibration h s = record {
    success = true;
    message = "Current calibration from " <> s.cal.source;
    steering_center = s.cal.steering_center;
    pan_center = s.cal.pan_center;
    tilt_center = s.cal.tilt_center;
    reverse_direction = s.cal.reverse_direction;
    speed_gain = s.cal.speed_gain;
    source = s.cal.source;
    calibration_json = to_json h s.cal;
  }
