-- ===== src/LaserOdom/Node.antt =====
-- laser_odom_node.cpp: LaserOdomNode. What the transform tree answers is an argument, and `Ros`
-- stands for the time stamps and quaternions of the messages. The log lines are not modelled.
-- `none` is a fault of the matcher.
pub mod Spec
pub mod Refine
pub mod Publish
use Prim.Native.String.{String}
use physicar_ros.Base.{
  ℕ, ◌≡◌, Bool, true, false, ◌&&◌, Option, none, some, List, [], ◌∷◌, ◌++◌, map, if◌then◌else◌,
  length, ltb,
}
use physicar_ros.Double.{Double}
use physicar_ros.ScanFilter.{LaserScan}
use physicar_ros.LaserOdom.Geometry.{
  Point2D, Pose2D, Casts, no_motion, compose, transform, scan_to_points,
}
use physicar_ros.LaserOdom.Grid.{◌>>=◌}
use physicar_ros.LaserOdom.Matcher.{Eigen, ScanMatcher, MatchResult, match}

-- `seconds a b` is `(rclcpp::Time(a) - rclcpp::Time(b)).seconds()`, and `yaw_quaternion` is
-- `setRPY(0, 0, yaw)` with `toMsg`.
pub record Ros (F : Type 0) : Type 1 where
  pub Stamp : Type 0
  pub seconds : Stamp → Stamp → F
  pub Quaternion : Type 0
  pub yaw_quaternion : F → Quaternion

pub record StampedScan (S G : Type 0) : Type 0 where
  pub stamp : S
  pub frame_id : String
  pub scan : LaserScan G

pub record Position (F Q : Type 0) : Type 0 where
  pub x : F
  pub y : F
  pub orientation : Q

pub record Odometry (F S Q : Type 0) : Type 0 where
  pub stamp : S
  pub frame_id : String
  pub child_frame_id : String
  pub pose : Position F Q
  pub linear_x : F
  pub angular_z : F

pub record TransformStamped (F S Q : Type 0) : Type 0 where
  pub stamp : S
  pub frame_id : String
  pub child_frame_id : String
  pub placement : Position F Q

pub data Output (F S Q : Type 0) : Type 0 where
  odometry : Odometry F S Q → Output F S Q
  transformed : TransformStamped F S Q → Output F S Q

-- The parameters that the handlers read.
pub record Config (F : Type 0) : Type 0 where
  pub base_frame : String
  pub odom_frame : String
  pub publish_tf : Bool
  pub matcher : ScanMatcher F

pub record LaserOdom (F G S : Type 0) : Type 0 where
  pub prev_points : List (Point2D G)
  pub prev_stamp : S
  pub has_prev_scan : Bool
  pub got_laser_tf : Bool
  pub laser_to_base : Pose2D F
  pub pose : Pose2D F

-- What the transform tree answers for two frames; `none` is a TransformException.
abbrev pub TfBuffer : Type 0 → Type 0
TfBuffer F = String → String → Option (Pose2D F)

module _ {G : Type 0} ⦃f : Double G⦄ where
  abbrev pub points_of : LaserScan G → List (Point2D G)
  points_of s = scan_to_points s.ranges s.angle_min s.angle_increment s.range_min s.range_max

module _ {F : Type 0} ⦃d : Double F⦄ (ros : Ros F) where
  open ros use {Stamp, seconds, Quaternion, yaw_quaternion}

  abbrev pub position_of : Pose2D F → Position F Quaternion
  position_of p = record { x = p.x; y = p.y; orientation = yaw_quaternion p.yaw }

  unfoldable pub publish_odom :
      Config F → Pose2D F → Stamp → F → F → List (Output F Stamp Quaternion)
  publish_odom config pose stamp vx vyaw =
      odometry (record {
        stamp = stamp;
        frame_id = config.odom_frame;
        child_frame_id = config.base_frame;
        pose = position_of pose;
        linear_x = vx;
        angular_z = vyaw;
      })
      ∷ (if config.publish_tf
          then transformed (record {
            stamp = stamp;
            frame_id = config.odom_frame;
            child_frame_id = config.base_frame;
            placement = position_of pose;
          })
            ∷ []
          else [])

  -- A velocity, if the time between the scans is plausible.
  abbrev pub is_plausible : F → Bool
  is_plausible dt = d.lt (d.literal 1 6) dt && d.lt dt (d.literal 1 0)

  abbrev pub per_second : F → F → F
  per_second dt v = if is_plausible dt then d.div v dt else d.literal 0 0

-- The members' initial values; `zero_stamp` is the stamp of a new message.
abbrev pub initial : {F G S : Type 0} ⦃d : Double F⦄ → S → LaserOdom F G S
initial zero_stamp = record {
  prev_points = [];
  prev_stamp = zero_stamp;
  has_prev_scan = false;
  got_laser_tf = false;
  laser_to_base = no_motion;
  pose = no_motion;
}

-- The service ~/reset: the response is always a success.
unfoldable pub reset : {F G S : Type 0} ⦃d : Double F⦄ → LaserOdom F G S → LaserOdom F G S
reset s = record s { pose = no_motion; has_prev_scan = false }

-- `lookup_laser_tf`, if the transform is not known yet.
unfoldable pub get_laser_tf :
    {F G S : Type 0} → Option (Pose2D F) → LaserOdom F G S → LaserOdom F G S
get_laser_tf none s = s
get_laser_tf (some t) s = record s { laser_to_base = t; got_laser_tf = true }

-- The node's callbacks, one after the other; a scan comes with the transform tree at its time.
pub data Event (F G S : Type 0) : Type 0 where
  scanned : TfBuffer F → StampedScan S G → Event F G S
  reset_called : Event F G S

-- A state and what is published, unless there is a fault.
abbrev pub Step : {F : Type 0} → Ros F → Type 0 → Type 0
Step {F} ros G = Option (LaserOdom F G ros.Stamp × List (Output F ros.Stamp ros.Quaternion))

module _ {F G : Type 0} ⦃d : Double F⦄ ⦃f : Double G⦄ ⦃cast : Casts F G⦄ (ros : Ros F)
    (eigen : Eigen F) (config : Config F) where
  open ros use {Stamp, seconds, Quaternion}

  -- A scan with a predecessor: match, accumulate, publish, shift.
  unfoldable pub advance : Stamp → List (Point2D G) → LaserOdom F G Stamp → Step ros G
  advance stamp points s = match eigen config.matcher s.prev_points points no_motion >>= λ result.
      let pose = compose s.pose result.delta in
      let dt = seconds stamp s.prev_stamp in
      let vx = per_second ros dt result.delta.x in
      let vyaw = per_second ros dt result.delta.yaw in
      some (
        record s { pose = pose; prev_points = points; prev_stamp = stamp },
        publish_odom ros config pose stamp vx vyaw,
      )

  -- The handler after the points are in the frame of the base.
  unfoldable pub take_points : Stamp → List (Point2D G) → LaserOdom F G Stamp → Step ros G
  take_points stamp points s =
      if s.has_prev_scan
      then advance stamp points s
      else some (record s { prev_points = points; prev_stamp = stamp; has_prev_scan = true }, [])

  unfoldable pub on_scan : TfBuffer F → StampedScan Stamp G → LaserOdom F G Stamp → Step ros G
  on_scan tf msg s =
      let points = points_of msg.scan in
      let t = if s.got_laser_tf then s else get_laser_tf (tf config.base_frame msg.frame_id) s in
      if ltb (length points) 20
      then some (s, [])
      else if t.got_laser_tf
      then take_points msg.stamp (map (transform t.laser_to_base) points) t
      else some (t, [])

  abbrev pub step : Event F G Stamp → LaserOdom F G Stamp → Step ros G
  step (scanned tf msg) s = on_scan tf msg s
  step reset_called s = some (reset s, [])

  unfoldable pub run : List (Event F G Stamp) → LaserOdom F G Stamp → Step ros G
  run [] s = some (s, [])
  run (e ∷ es) s = step e s >>= λ p. run es p.0 >>= λ q. some (q.0, p.1 ++ q.1)
