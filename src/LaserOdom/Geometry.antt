-- ===== src/LaserOdom/Geometry.antt =====
-- scan_matcher.hpp: points, poses, and the points of a scan.
use physicar_ros.Base.{ℕ, suc, Bool, not, ◌||◌, List, [], ◌∷◌, if◌then◌else◌}
use physicar_ros.Base.Int.{pos}
use physicar_ros.Double.{Double}
pub use physicar_ros.Double.{Casts}

pub record Point2D {ℓ} (G : Type ℓ) : Type ℓ where
  pub x : G
  pub y : G

pub record Pose2D {ℓ} (F : Type ℓ) : Type ℓ where
  pub x : F
  pub y : F
  pub yaw : F

module _ {ℓ} {F : Type ℓ} ⦃d : Double F⦄ where
  -- `Pose2D{}`.
  abbrev pub no_motion : Pose2D F
  no_motion = record { x = d.literal 0 0; y = d.literal 0 0; yaw = d.literal 0 0 }

  unfoldable pub compose : Pose2D F → Pose2D F → Pose2D F
  compose p o =
      let c = d.cos p.yaw in
      let s = d.sin p.yaw in
      record {
        x = d.sub (d.add p.x (d.mul c o.x)) (d.mul s o.y);
        y = d.add (d.add p.y (d.mul s o.x)) (d.mul c o.y);
        yaw = d.add p.yaw o.yaw;
      }

module _ {ℓ κ} {F : Type ℓ} {G : Type κ} ⦃d : Double F⦄ ⦃f : Double G⦄ ⦃cast : Casts F G⦄ where
  unfoldable pub transform : Pose2D F → Point2D G → Point2D G
  transform p q =
      let c = cast.narrow (d.cos p.yaw) in
      let s = cast.narrow (d.sin p.yaw) in
      record {
        x = f.add (f.sub (f.mul c q.x) (f.mul s q.y)) (cast.narrow p.x);
        y = f.add (f.add (f.mul s q.x) (f.mul c q.y)) (cast.narrow p.y);
      }

module _ {G : Type 0} ⦃f : Double G⦄ where
  -- The test that skips a reading.
  abbrev pub is_skipped : G → G → G → Bool
  is_skipped range_min range_max r = not (f.is_finite r) || f.lt r range_min || f.lt range_max r

  abbrev pub point_at : G → G → ℕ → G → Point2D G
  point_at angle_min angle_inc i r =
      let a = f.add angle_min (f.mul (f.of_ℤ (pos i)) angle_inc) in
      record { x = f.mul r (f.cos a); y = f.mul r (f.sin a) }

  -- The loop from the reading with number `i` on.
  unfoldable pub points_from : G → G → G → G → ℕ → List G → List (Point2D G)
  points_from angle_min angle_inc range_min range_max i [] = []
  points_from angle_min angle_inc range_min range_max i (r ∷ rs) =
      let rest = points_from angle_min angle_inc range_min range_max (suc i) rs in
      if is_skipped range_min range_max r then rest else point_at angle_min angle_inc i r ∷ rest

  unfoldable pub scan_to_points : List G → G → G → G → G → List (Point2D G)
  scan_to_points ranges angle_min angle_inc range_min range_max =
      points_from angle_min angle_inc range_min range_max 0 ranges
