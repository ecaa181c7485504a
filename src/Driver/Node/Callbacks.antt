-- ===== src/Driver/Node/Callbacks.antt =====
-- PhysicarDriverNode: all callbacks that may change its state or read it, on the state with the
-- calibration. The timers of the IMU and of the joints only publish (`publish_imu` and
-- `publish_joint_states`), as does the service that tells the calibration.
use physicar_ros.Base.{Option, List, [], ◌∷◌}
use physicar_ros.Double.{Double}
use physicar_ros.Rosmaster.Report.{ImuData}
use physicar_ros.Driver.Joints.{ImuMessage, JointState, publish_imu, publish_joint_states}
use physicar_ros.Driver.Calibration.{Files, CalibrationRequest, Calibrated}
use physicar_ros.Driver.Calibration.Service.{set_calibration}
use physicar_ros.Driver.Node.{Times, Event, step}

pub data Callback (F : Type 0) : Type 0 where
  event : Times F → Event F → Callback F
  calibration_request : Files F → CalibrationRequest F → Callback F
  imu_timer : ImuData F → Callback F
  joints_timer : Callback F

-- What a timer publishes.
pub data Published (F : Type 0) : Type 0 where
  nothing : Published F
  imu_message : Option (ImuMessage F) → Published F
  joint_message : JointState F → Published F

module _ {F : Type 0} ⦃d : Double F⦄ where
  unfoldable pub perform : Callback F → Calibrated F → Calibrated F × Published F
  perform (event t e) s = (record s { driver = step t e s.driver }, nothing)
  perform (calibration_request files req) s = ((set_calibration files req s).0, nothing)
  perform (imu_timer imu) s = (s, imu_message (publish_imu imu s.driver))
  perform joints_timer s = (s, joint_message (publish_joint_states s.driver))

  unfoldable pub perform_all : List (Callback F) → Calibrated F → Calibrated F
  perform_all [] s = s
  perform_all (c ∷ cs) s = perform_all cs (perform c s).0
