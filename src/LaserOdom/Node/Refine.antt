-- ===== src/LaserOdom/Node/Refine.antt =====
-- LaserOdomNode implements its promise: no fault, and the pose of the path.
use physicar_ros.Base.{
  ◌≡◌, ◌≤◌, refl, sym, if-intro, ap, ◌∙◌, inl, inr, Bool, true, false, Option, none, some, List, [],
  ◌∷◌, ◌++◌, map, if◌then◌else◌, length, ltb, arith, All, Bool-cases, suc,
}
use physicar_ros.Double.{Double, IsOrdered}
use physicar_ros.LaserOdom.Geometry.{Point2D, Pose2D, Casts, no_motion, compose, transform}
use physicar_ros.LaserOdom.Matcher.{Eigen, MatchResult, match}
use physicar_ros.LaserOdom.Matcher.Outcome.{match-Ending}
use physicar_ros.LaserOdom.Node.{
  LaserOdom, Step, Ros, Config, Output, StampedScan, TfBuffer, Event, scanned, reset_called,
  points_of, reset, get_laser_tf, advance, take_points, on_scan, step, run, publish_odom,
  per_second,
}
use physicar_ros.LaserOdom.Node.Spec.{
  Track, path_pose, first_known, place_scan, track_step, track_run, Follows, FitsGrid, AllFit,
  HasLaser, HasNewest,
}

length-map {ℓ κ} :
    {A : Type ℓ} {B : Type κ} (f : A → B) (xs : List A) → length (map f xs) ≡ length xs
length-map f [] = refl
length-map f (x ∷ xs) = ap suc (length-map f xs)

if_true {ℓ} : {A : Type ℓ} {b : Bool} (x y : A) → b ≡ true → (if b then x else y) ≡ x
if_true x y e = rw e refl

if_false {ℓ} : {A : Type ℓ} {b : Bool} (x y : A) → b ≡ false → (if b then x else y) ≡ y
if_false x y e = rw e refl

module _ {F G : Type 0} ⦃d : Double F⦄ ⦃f : Double G⦄ ⦃cast : Casts F G⦄ (ros : Ros F)
    (eigen : Eigen F) (config : Config F) (laws : IsOrdered G) where
  open ros use {Stamp, Quaternion}

  -- No fault, and the new state follows the track.
  abbrev pub Simulated : Track F G → Step ros G → Type 0
  Simulated k r =
      (s : LaserOdom F G Stamp) × (outs : List (Output F Stamp Quaternion)) × (r ≡ some (s, outs))
      × Follows ros eigen config k s

  -- What is published when a match succeeds.
  abbrev motion : Stamp → LaserOdom F G Stamp → MatchResult F → List (Output F Stamp Quaternion)
  motion stamp s r =
      let dt = ros.seconds stamp s.prev_stamp in
      publish_odom ros config (compose s.pose r.delta) stamp (per_second ros dt r.delta.x)
        (per_second ros dt r.delta.yaw)

  advance-some :
      (stamp : Stamp) (points : List (Point2D G)) (s : LaserOdom F G Stamp) {r : MatchResult F}
      → match eigen config.matcher s.prev_points points no_motion ≡ some r
      → advance ros eigen config stamp points s
        ≡ some (
          record s { pose = compose s.pose r.delta; prev_points = points; prev_stamp = stamp },
          motion stamp s r,
        )
  unfolding advance
  advance-some stamp points s e = rw e refl

  take_points-Simulated :
      (stamp : Stamp) (points : List (Point2D G)) (scans : List (List (Point2D G))) (t : Pose2D F)
      (s : LaserOdom F G Stamp)
      → HasLaser ros eigen config (some t) s
      → HasNewest ros eigen config scans s
      → path_pose ros eigen config scans ≡ some s.pose
      → All (FitsGrid ros eigen config) scans
      → 20 ≤ length points
      → Simulated
          (record { laser = some t; scans = points ∷ scans })
          (take_points ros eigen config stamp points s)
  unfolding take_points path_pose
  take_points-Simulated stamp points [] t s laser newest path fit enough = (
    record s { prev_points = points; prev_stamp = stamp; has_prev_scan = true },
    [],
    if_false _ _ newest,
    record { laser = laser; newest = (refl, refl, enough); path = path },
  )
  take_points-Simulated stamp points (before ∷ older) t s laser (has, same, long) path fit enough =
      let (w, h, sized) = fit.0 in
      let (r, e, _) =
        match-Ending eigen config.matcher laws before points no_motion w h sized (omega arith)
          (omega arith) in
      (
        record s { pose = compose s.pose r.delta; prev_points = points; prev_stamp = stamp },
        motion stamp s r,
        if_true _ _ has ∙ advance-some stamp points s {r = r} (rw same e),
        record { laser = laser; newest = (has, refl, enough); path = rw (path, e) refl },
      )

  -- The transform is asked for until it is known.
  get_laser_tf-known :
      (known answer : Option (Pose2D F)) (s : LaserOdom F G Stamp)
      → HasLaser ros eigen config known s
      → HasLaser ros eigen config
          (first_known known answer)
          (if s.got_laser_tf then s else get_laser_tf answer s)
  unfolding get_laser_tf
  get_laser_tf-known none none s h = rw h refl
  get_laser_tf-known none (some t) s h = rw h (refl, refl)
  get_laser_tf-known (some t) answer s (got, same) =
      let eq = if_true s (get_laser_tf answer s) got in
      (ap (λ u. u.got_laser_tf) eq ∙ got, ap (λ u. u.laser_to_base) eq ∙ same)

  -- Asking for the transform changes nothing else.
  abbrev SameScans : LaserOdom F G Stamp → LaserOdom F G Stamp → Type 0
  SameScans s u =
      (u.prev_points ≡ s.prev_points) × (u.has_prev_scan ≡ s.has_prev_scan) × (u.pose ≡ s.pose)

  get_laser_tf-SameScans :
      (answer : Option (Pose2D F)) (s : LaserOdom F G Stamp)
      → SameScans s (if s.got_laser_tf then s else get_laser_tf answer s)
  unfolding get_laser_tf
  get_laser_tf-SameScans none s =
      if-intro (SameScans s) s.got_laser_tf _ _ (refl, refl, refl) (refl, refl, refl)
  get_laser_tf-SameScans (some t) s =
      if-intro (SameScans s) s.got_laser_tf _ _ (refl, refl, refl) (refl, refl, refl)

  HasNewest-SameScans :
      (scans : List (List (Point2D G))) (s u : LaserOdom F G Stamp)
      → SameScans s u
      → HasNewest ros eigen config scans s
      → HasNewest ros eigen config scans u
  HasNewest-SameScans [] s u (_, has, _) h = has ∙ h
  HasNewest-SameScans (p ∷ ps) s u (points, has, _) (h, same, long) = (has ∙ h, points ∙ same, long)

  -- The handler once it is settled whether the transform is known.
  placed-Simulated :
      (stamp : Stamp) (points : List (Point2D G)) (scans : List (List (Point2D G)))
      (known : Option (Pose2D F)) (s : LaserOdom F G Stamp)
      → HasLaser ros eigen config known s
      → HasNewest ros eigen config scans s
      → path_pose ros eigen config scans ≡ some s.pose
      → All (FitsGrid ros eigen config) scans
      → 20 ≤ length points
      → Simulated (place_scan points scans known) (
          if s.got_laser_tf
          then take_points ros eigen config stamp (map (transform s.laser_to_base) points) s
          else some (s, []))
  placed-Simulated stamp points scans none s laser newest path fit enough =
      (s, [], if_false _ _ laser, record { laser = laser; newest = newest; path = path })
  placed-Simulated stamp points scans (some t) s (got, same) newest path fit enough =
      let placed = map (transform t) points in
      let (u, outs, e, follows) =
        take_points-Simulated stamp placed scans t s (got, same) newest path fit
          (rw (length-map (transform t) points) enough) in
      (
        u,
        outs,
        if_true _ _ got
            ∙ (ap (λ p. take_points ros eigen config stamp (map (transform p) points) s) same ∙ e),
        follows,
      )

  pub on_scan-Simulated :
      (tf : TfBuffer F) (msg : StampedScan Stamp G) (k : Track F G) (s : LaserOdom F G Stamp)
      → Follows ros eigen config k s
      → All (FitsGrid ros eigen config) k.scans
      → Simulated
          (track_step ros eigen config (scanned tf msg) k)
          (on_scan ros eigen config tf msg s)
  unfolding on_scan
  on_scan-Simulated tf msg k s follows fit =
      let points = points_of msg.scan in
      let answer = tf config.base_frame msg.frame_id in
      let u = if s.got_laser_tf then s else get_laser_tf answer s in
      let same = get_laser_tf-SameScans answer s in
      elim (Bool-cases (ltb (length points) 20)) [
        | inl few ↦ rw few (s, [], refl, follows)
        | inr enough ↦ rw enough (
            placed-Simulated msg.stamp points k.scans (first_known k.laser answer) u
              (get_laser_tf-known k.laser answer s follows.laser)
              (HasNewest-SameScans k.scans s u same follows.newest)
              (follows.path ∙ ap some (sym (same.2))) fit (ground arith))
      ]

  HasLaser-reset :
      (known : Option (Pose2D F)) (s : LaserOdom F G Stamp)
      → HasLaser ros eigen config known s
      → HasLaser ros eigen config known (reset s)
  unfolding reset
  HasLaser-reset none s h = h
  HasLaser-reset (some t) s h = h

  reset-Follows :
      (k : Track F G) (s : LaserOdom F G Stamp)
      → Follows ros eigen config k s
      → Follows ros eigen config (record k { scans = [] }) (reset s)
  unfolding reset path_pose
  reset-Follows k s follows = record {
    laser = HasLaser-reset k.laser s follows.laser;
    newest = refl;
    path = refl;
  }

  step-Simulated :
      (e : Event F G Stamp) (k : Track F G) (s : LaserOdom F G Stamp)
      → Follows ros eigen config k s
      → All (FitsGrid ros eigen config) k.scans
      → Simulated (track_step ros eigen config e k) (step ros eigen config e s)
  step-Simulated (scanned tf msg) k s follows fit = on_scan-Simulated tf msg k s follows fit
  step-Simulated reset_called k s follows fit = (reset s, [], refl, reset-Follows k s follows)

  -- Over any sequence of scans and resets the node makes no access outside a vector, where conversions
  -- to `int` are taken to give some integer and the cells next to a query's not to overflow, and
  -- afterwards its pose is the composition of the motions between neighbouring scans since the last
  -- reset, where a scan counts if it has at least twenty points in range and the transform to the base
  -- is known; its reference is the newest of these scans. It starts in such a state, and the scans
  -- that count fit the grid.
  pub run_refines :
      (es : List (Event F G Stamp)) (k : Track F G) (s : LaserOdom F G Stamp)
      → Follows ros eigen config k s
      → AllFit ros eigen config es k
      → Simulated (track_run ros eigen config es k) (run ros eigen config es s)
  unfolding run track_run
  run_refines [] k s follows fit = (s, [], refl, follows)
  run_refines (e ∷ es) k s follows (fit, later) =
      let (t, outs, eq, follows') = step-Simulated e k s follows fit in
      let (u, outs', eq', follows'') =
        run_refines es (track_step ros eigen config e k) t follows' later in
      (u, outs ++ outs', rw (eq, eq') refl, follows'')
