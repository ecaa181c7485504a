-- ===== src/Driver/Joints.antt =====
-- PhysicarDriverNode: the messages made from the state, publish_imu and publish_joint_states.
use physicar_ros.Base.{not, Option, none, some, List, [], ◌∷◌, if◌then◌else◌}
use physicar_ros.Double.{Double}
use physicar_ros.Rosmaster.Report.{ImuData}
use physicar_ros.Driver.State.{Driver}

pub record Vector3 {ℓ} (F : Type ℓ) : Type ℓ where
  pub x : F
  pub y : F
  pub z : F

-- sensor_msgs/Imu and sensor_msgs/MagneticField, as far as they are filled.
pub record ImuMessage {ℓ} (F : Type ℓ) : Type ℓ where
  pub linear_acceleration : Vector3 F
  pub angular_velocity : Vector3 F
  pub magnetic_field : Vector3 F

pub record JointState {ℓ} (F : Type ℓ) : Type ℓ where
  pub position : List F
  pub velocity : List F

module _ {ℓ} {F : Type ℓ} ⦃d : Double F⦄ where
  open d use {literal, lt, add, sub, mul, div, neg, abs, tan, atan}

  unfoldable pub publish_imu : ImuData F → Driver F → Option (ImuMessage F)
  publish_imu imu s =
      if not s.hardware.connected
      then none
      else some (record {
        linear_acceleration = record { x = neg imu.ay; y = neg imu.ax; z = imu.az };
        angular_velocity = record { x = neg imu.gy; y = neg imu.gx; z = neg imu.gz };
        magnetic_field = record {
          x = mul imu.mx (literal 1 6);
          y = mul imu.my (literal 1 6);
          z = mul imu.mz (literal 1 6);
        };
      })

  -- The angles of the left and the right front wheel, by the Ackermann geometry.
  unfoldable pub wheel_angles : Driver F → F × F
  wheel_angles s =
      let radius = div s.wheelbase (tan (abs s.current_steering)) in
      let inner = atan (div s.wheelbase (sub radius (div s.track_width (literal 2 0)))) in
      let outer = atan (div s.wheelbase (add radius (div s.track_width (literal 2 0)))) in
      if lt (literal 1 3) (abs s.current_steering)
      then (if lt (literal 0 0) s.current_steering then (inner, outer) else (neg outer, neg inner))
      else (literal 0 0, literal 0 0)

  unfoldable pub publish_joint_states : Driver F → JointState F
  publish_joint_states s =
      let (left, right) = wheel_angles s in
      let wheel_vel = div s.current_throttle s.wheel_radius in
      let zero = literal 0 0 in
      record {
        position = left ∷ right ∷ s.current_pan ∷ s.current_tilt ∷ zero ∷ zero ∷ zero ∷ zero ∷ [];
        velocity = zero ∷ zero ∷ zero ∷ zero ∷ wheel_vel ∷ wheel_vel ∷ wheel_vel ∷ wheel_vel ∷ [];
      }
