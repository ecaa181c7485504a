-- ===== src/LaserOdom/Node/Publish.antt =====
-- LaserOdomNode: what a scan publishes.
use mathlib.Core.Path.{subst}
use physicar_ros.Base.{
  ◌≡◌, ◌⊎◌, refl, inl, inr, Bool, true, false, Option, none, some, List, [], map, if◌then◌else◌,
  length, ltb, All, Bool-cases, if-case, if-intro,
}
use physicar_ros.Double.{Double}
use physicar_ros.LaserOdom.Geometry.{Point2D, Pose2D, Casts, no_motion, compose, transform}
use physicar_ros.LaserOdom.Grid.Cells.{>>=-eq-some, some_inj}
use physicar_ros.LaserOdom.Matcher.{Eigen, MatchResult, match}
use physicar_ros.LaserOdom.Node.{
  LaserOdom, Ros, Step, Config, Output, Odometry, odometry, transformed, StampedScan, TfBuffer,
  points_of, position_of, is_plausible, get_laser_tf, advance, take_points, on_scan, publish_odom,
  per_second,
}

module _ {F : Type 0} ⦃d : Double F⦄ (ros : Ros F) (config : Config F) where
  open ros use {Stamp, Quaternion}

  -- The velocities in a message are those of the motion over the time, or zero if the time between
  -- the scans is not plausible.
  abbrev pub HasVelocity : F → Pose2D F → Odometry F Stamp Quaternion → Type 0
  HasVelocity dt delta o =
      ((is_plausible ros dt ≡ true)
        × (o.linear_x ≡ d.div delta.x dt)
        × (o.angular_z ≡ d.div delta.yaw dt))
      ⊎ ((is_plausible ros dt ≡ false)
          × (o.linear_x ≡ d.literal 0 0)
          × (o.angular_z ≡ d.literal 0 0))

  -- A message carries the stamp and the pose, between the two frames.
  abbrev pub Carries : Stamp → Pose2D F → F → Pose2D F → Output F Stamp Quaternion → Type 0
  Carries stamp pose dt delta (odometry o) =
      (o.stamp ≡ stamp)
      × (o.frame_id ≡ config.odom_frame)
      × (o.child_frame_id ≡ config.base_frame)
      × (o.pose ≡ position_of ros pose)
      × HasVelocity dt delta o
  Carries stamp pose dt delta (transformed t) =
      (t.stamp ≡ stamp)
      × (t.frame_id ≡ config.odom_frame)
      × (t.child_frame_id ≡ config.base_frame)
      × (t.placement ≡ position_of ros pose)

  publish_odom-Carries :
      (pose : Pose2D F) (stamp : Stamp) (dt : F) (delta : Pose2D F)
      → let outs =
          publish_odom ros config pose stamp
            (per_second ros dt delta.x)
            (per_second ros dt delta.yaw) in
        (length outs ≡ (if config.publish_tf then 2 else 1))
        × All (Carries stamp pose dt delta) outs
  unfolding publish_odom
  publish_odom-Carries pose stamp dt delta = elim (Bool-cases config.publish_tf) [
    | inl yes_tf ↦ rw yes_tf (refl, (said, ((refl, refl, refl, refl), tt)))
    | inr no_tf ↦ rw no_tf (refl, (said, tt))
  ]
    where
      velocity :
          (b : Bool)
          → is_plausible ros dt ≡ b
          → ((is_plausible ros dt ≡ true)
              × (per_second ros dt delta.x ≡ d.div delta.x dt)
              × (per_second ros dt delta.yaw ≡ d.div delta.yaw dt))
            ⊎ ((is_plausible ros dt ≡ false)
                × (per_second ros dt delta.x ≡ d.literal 0 0)
                × (per_second ros dt delta.yaw ≡ d.literal 0 0))
      velocity true e = inl (e, rw e refl, rw e refl)
      velocity false e = inr (e, rw e refl, rw e refl)

      said : Carries stamp pose dt delta (
          odometry (record {
            stamp = stamp;
            frame_id = config.odom_frame;
            child_frame_id = config.base_frame;
            pose = position_of ros pose;
            linear_x = per_second ros dt delta.x;
            angular_z = per_second ros dt delta.yaw;
          }))
      said = (refl, refl, refl, refl, velocity (is_plausible ros dt) refl)

module _ {F G : Type 0} ⦃d : Double F⦄ ⦃f : Double G⦄ ⦃cast : Casts F G⦄ (ros : Ros F)
    (eigen : Eigen F) (config : Config F) where
  open ros use {Stamp, Quaternion, seconds}

  -- Nothing is published and the pose stays; or there was a scan before, the motion since then is
  -- added to the pose, and every message carries the new pose.
  abbrev pub Announced :
      Stamp → LaserOdom F G Stamp → LaserOdom F G Stamp × List (Output F Stamp Quaternion) → Type 0
  Announced stamp s (u, outs) =
      ((outs ≡ []) × (u.pose ≡ s.pose))
      ⊎ ((r : MatchResult F) × (s.has_prev_scan ≡ true)
          × (match eigen config.matcher s.prev_points u.prev_points no_motion ≡ some r)
          × (u.pose ≡ compose s.pose r.delta)
          × (length outs ≡ (if config.publish_tf then 2 else 1))
          × All (Carries ros config stamp u.pose (seconds stamp s.prev_stamp) r.delta) outs)

  advance-Announced :
      (stamp : Stamp) (points : List (Point2D G)) (s : LaserOdom F G Stamp)
      (p : LaserOdom F G Stamp × List (Output F Stamp Quaternion))
      → s.has_prev_scan ≡ true
      → advance ros eigen config stamp points s ≡ some p
      → Announced stamp s p
  unfolding advance
  advance-Announced stamp points s p has h =
      let (r, e, eq) =
        >>=-eq-some (match eigen config.matcher s.prev_points points no_motion) _ h in
      let (count, carried) =
        publish_odom-Carries ros config (compose s.pose r.delta) stamp (seconds stamp s.prev_stamp)
          r.delta in
      subst (Announced stamp s) (some_inj eq) (inr (r, has, e, refl, count, carried))

  take_points-Announced :
      (stamp : Stamp) (points : List (Point2D G)) (s : LaserOdom F G Stamp)
      (p : LaserOdom F G Stamp × List (Output F Stamp Quaternion))
      → take_points ros eigen config stamp points s ≡ some p
      → Announced stamp s p
  unfolding take_points
  take_points-Announced stamp points s p =
      if-case (λ r. r ≡ some p → Announced stamp s p) s.has_prev_scan _ _
        (λ has h. advance-Announced stamp points s p has h)
        (λ _ h. subst (Announced stamp s) (some_inj h) (inl (refl, refl)))

  -- The rest of the handler, when the transform has been asked for.
  abbrev placed : Stamp → List (Point2D G) → LaserOdom F G Stamp → Step ros G
  placed stamp points u =
      if u.got_laser_tf
      then take_points ros eigen config stamp (map (transform u.laser_to_base) points) u
      else some (u, [])

  placed-Announced :
      (stamp : Stamp) (points : List (Point2D G)) (s u : LaserOdom F G Stamp)
      (p : LaserOdom F G Stamp × List (Output F Stamp Quaternion))
      → (Announced stamp u p → Announced stamp s p)
      → u.pose ≡ s.pose
      → placed stamp points u ≡ some p
      → Announced stamp s p
  placed-Announced stamp points s u p back same =
      if-case (λ r. r ≡ some p → Announced stamp s p) u.got_laser_tf _ _
        (λ _ h. back (take_points-Announced stamp _ u p h))
        (λ _ h. subst (Announced stamp s) (some_inj h) (inl (refl, same)))

  -- Where the handler of a scan ends without a fault, either nothing is published and the pose
  -- stays, or there was a reference scan, the motion found by the match with it is composed onto the
  -- pose, and one odometry message and, if the parameter says so, one transform go out, with the
  -- scan's stamp, the new pose, and velocities of that motion over the time between the scans if
  -- this time is between a microsecond and a second, and zero otherwise.
  pub on_scan-Announced :
      (tf : TfBuffer F) (msg : StampedScan Stamp G) (s : LaserOdom F G Stamp)
      (p : LaserOdom F G Stamp × List (Output F Stamp Quaternion))
      → on_scan ros eigen config tf msg s ≡ some p
      → Announced msg.stamp s p
  unfolding on_scan get_laser_tf
  on_scan-Announced tf msg s p =
      let points = points_of msg.scan in
      let answer = tf config.base_frame msg.frame_id in
      if-case (λ r. r ≡ some p → Announced msg.stamp s p) (ltb (length points) 20) _ _
        (λ _ h. subst (Announced msg.stamp s) (some_inj h) (inl (refl, refl)))
        (λ _.
          if-intro (λ u. placed msg.stamp points u ≡ some p → Announced msg.stamp s p)
            s.got_laser_tf s (get_laser_tf answer s)
            (placed-Announced msg.stamp points s s p (λ h. h) refl) (asked answer points))
    where
      asked :
          (answer : Option (Pose2D F)) (points : List (Point2D G))
          → placed msg.stamp points (get_laser_tf answer s) ≡ some p
          → Announced msg.stamp s p
      asked none points = placed-Announced msg.stamp points s s p (λ h. h) refl
      asked (some t) points =
          placed-Announced msg.stamp points s (record s { laser_to_base = t; got_laser_tf = true })
            p (λ h. h) refl
