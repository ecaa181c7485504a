-- ===== src/LaserOdom/Node/Spec.antt =====
-- What the node promises: the pose is that of the path through the scans since the last reset.
use physicar_ros.LaserOdom.Grid.Built.{IsSized}
use physicar_ros.Base.{
  All, ◌≤◌, ℕ, ◌≡◌, true, false, Option, none, some, List, [], ◌∷◌, map, if◌then◌else◌, length, ltb,
}
use physicar_ros.Double.{Double}
use physicar_ros.LaserOdom.Geometry.{Point2D, Pose2D, Casts, no_motion, compose, transform}
use physicar_ros.LaserOdom.Grid.{◌>>=◌}
use physicar_ros.LaserOdom.Matcher.{Eigen, match}
use physicar_ros.LaserOdom.Node.{LaserOdom, Ros, Config, Event, scanned, reset_called, points_of}

-- The scans used since the last reset, newest first, in the frame of the base, and the transform
-- from the laser once it is known.
pub record Track (F G : Type 0) : Type 0 where
  pub laser : Option (Pose2D F)
  pub scans : List (List (Point2D G))

abbrev pub first_known {ℓ} : {A : Type ℓ} → Option A → Option A → Option A
first_known none answer = answer
first_known (some t) answer = some t

abbrev pub place_scan :
    {F G : Type 0} ⦃d : Double F⦄ ⦃f : Double G⦄ ⦃cast : Casts F G⦄
    → List (Point2D G)
    → List (List (Point2D G))
    → Option (Pose2D F)
    → Track F G
place_scan points scans none = record { laser = none; scans = scans }
place_scan points scans (some t) = record {
  laser = some t;
  scans = map (transform t) points ∷ scans;
}

module _ {F G : Type 0} ⦃d : Double F⦄ ⦃f : Double G⦄ ⦃cast : Casts F G⦄ (ros : Ros F)
    (eigen : Eigen F) (config : Config F) where
  -- The pose at the end of the path: the motions between neighbours, composed from the oldest on.
  unfoldable pub path_pose : List (List (Point2D G)) → Option (Pose2D F)
  path_pose [] = some no_motion
  path_pose (newest ∷ []) = some no_motion
  path_pose (newest ∷ before ∷ older) = path_pose (before ∷ older) >>= λ pose.
      match eigen config.matcher before newest no_motion >>= λ result.
      some (compose pose result.delta)

  -- A scan of at least twenty points counts, if the transform is known.
  abbrev pub track_step : Event F G ros.Stamp → Track F G → Track F G
  track_step (scanned tf msg) k =
      let points = points_of msg.scan in
      if ltb (length points) 20
      then k
      else place_scan points k.scans (first_known k.laser (tf config.base_frame msg.frame_id))
  track_step reset_called k = record k { scans = [] }

  unfoldable pub track_run : List (Event F G ros.Stamp) → Track F G → Track F G
  track_run [] k = k
  track_run (e ∷ es) k = track_run es (track_step e k)

  -- The node holds the newest scan, the transform if it is known, and the pose of the path.
  abbrev pub HasLaser : Option (Pose2D F) → LaserOdom F G ros.Stamp → Type 0
  HasLaser none s = s.got_laser_tf ≡ false
  HasLaser (some t) s = (s.got_laser_tf ≡ true) × (s.laser_to_base ≡ t)

  abbrev pub HasNewest : List (List (Point2D G)) → LaserOdom F G ros.Stamp → Type 0
  HasNewest [] s = s.has_prev_scan ≡ false
  HasNewest (newest ∷ older) s =
      (s.has_prev_scan ≡ true) × (s.prev_points ≡ newest) × (20 ≤ length newest)

  pub record Follows (k : Track F G) (s : LaserOdom F G ros.Stamp) : Type 0 where
    pub laser : HasLaser k.laser s
    pub newest : HasNewest k.scans s
    pub path : path_pose k.scans ≡ some s.pose

  -- The points of a scan fit the grid of the matcher.
  abbrev pub FitsGrid : List (Point2D G) → Type 0
  FitsGrid points =
      (w : ℕ) × (h : ℕ) × IsSized points (cast.narrow config.matcher.max_correspondence_dist) w h

  -- All scans that count along the way fit.
  abbrev pub AllFit : List (Event F G ros.Stamp) → Track F G → Type 0
  AllFit [] k = Unit
  AllFit (e ∷ es) k = All FitsGrid k.scans × AllFit es (track_step e k)
