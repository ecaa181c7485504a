-- ===== src/LaserOdom/Tests.antt =====
-- Runs of the laser odometry on whole millionths.
use physicar_ros.Base.{
  ℕ, zero, suc, ◌≡◌, refl, Bool, true, ◌&&◌, none, some, List, [], ◌∷◌, map, arith, All,
}
use physicar_ros.Base.Int.{pos}
use physicar_ros.Double.{min, max}
use physicar_ros.Double.Micro.{Micro, micro_double, dec, nan, Micro-IsOrdered}
use physicar_ros.ScanFilter.{LaserScan}
use physicar_ros.LaserOdom.Micro.{Micro-IsMonotone}
use physicar_ros.LaserOdom.Geometry.{
  Point2D, Pose2D, Casts, no_motion, transform, scan_to_points, points_from,
}
use physicar_ros.LaserOdom.Grid.{Best, GridIndex, grid_index, find_nearest, shape, bounding_box}
use physicar_ros.LaserOdom.Grid.Built.{IsSized}
use physicar_ros.LaserOdom.Grid.Nearest.{start, IsNearest, grid_index-IsNearest}
use physicar_ros.LaserOdom.Grid.Bounds.{HasNumbers, shape-IsSized}
use physicar_ros.LaserOdom.Matcher.{Eigen, ScanMatcher, MatchResult, match}
use physicar_ros.LaserOdom.Matcher.Outcome.{Matched, match-Ending}
use physicar_ros.LaserOdom.Node.{
  Ros, Config, LaserOdom, StampedScan, TfBuffer, Event, scanned, reset_called, initial, on_scan,
  points_of, run,
}
use physicar_ros.LaserOdom.Node.Spec.{Track, Follows, AllFit, track_step, track_run, path_pose}
use physicar_ros.LaserOdom.Node.Refine.{Simulated, on_scan-Simulated, run_refines}

instance abbrev same_type : Casts Micro Micro
same_type = record { widen = λ x. x; narrow = λ x. x }

-- A solver for systems whose matrix is diagonal.
abbrev Triple : Type 0
Triple = Micro × Micro × Micro

abbrev per_component : (Micro → Micro → Micro) → Triple → Triple → Triple
per_component op (a, b, c) (x, y, z) = (op a x, op b y, op c z)

abbrev diagonal : Eigen Micro
diagonal = record {
  Matrix3 = Triple;
  Vector3 = Triple;
  zero_matrix = (dec 0 0, dec 0 0, dec 0 0);
  zero_vector = (dec 0 0, dec 0 0, dec 0 0);
  vector = λ x y z. (x, y, z);
  add_matrix = per_component micro_double.add;
  add_vector = per_component micro_double.add;
  scale = λ k v. per_component micro_double.mul (k, k, k) v;
  neg_vector = λ v. per_component micro_double.sub (dec 0 0, dec 0 0, dec 0 0) v;
  outer = per_component micro_double.mul;
  ldlt_solve = λ m v. per_component micro_double.div v m;
  at0 = λ v. v.0;
  at1 = λ v. v.1;
  at2 = λ v. v.2;
}

abbrev settings : ScanMatcher Micro
settings = record {
  max_iterations = pos 2;
  convergence_threshold = dec 1 5;
  max_correspondence_dist = dec 5 1;
  outlier_ratio = dec 75 2;
}

-- So many points, a tenth apart.
abbrev wall_from : ℕ → ℕ → List (Point2D Micro)
wall_from i zero = []
wall_from i (suc n) = record { x = dec i 1; y = dec 1 0 } ∷ wall_from (suc i) n

abbrev wall : List (Point2D Micro)
wall = wall_from 3 12

abbrev is_num : Micro → Bool
is_num x = micro_double.le x x

abbrev all_numbers : List (Point2D Micro) → Bool
all_numbers [] = true
all_numbers (p ∷ ps) = is_num p.x && is_num p.y && all_numbers ps

all_numbers-HasNumbers : (ps : List (Point2D Micro)) → all_numbers ps ≡ true → All HasNumbers ps
all_numbers-HasNumbers [] h = tt
all_numbers-HasNumbers (p ∷ ps) h =
    ((ground arith, ground arith), all_numbers-HasNumbers ps (ground arith))

wall-IsSized : (w : ℕ) × (h : ℕ) × IsSized wall (dec 5 1) w h
unfolding shape bounding_box min max
wall-IsSized =
    shape-IsSized Micro-IsOrdered Micro-IsMonotone wall (dec 5 1) 10 10
      (all_numbers-HasNumbers wall refl) (omega arith) refl refl
      (record { offset = refl; positive = refl; finite = refl; extent = refl; few = omega arith })
      (record { offset = refl; positive = refl; finite = refl; extent = refl; few = omega arith })
      (omega arith)

grid_index-IsNearest_example :
    (g : GridIndex Micro) × (grid_index wall (dec 5 1) ≡ some g)
    × ((q : Point2D Micro) (limit : Micro)
        → (out : Best Micro) × (find_nearest g q (start limit) ≡ some out)
          × IsNearest g wall q limit out)
grid_index-IsNearest_example =
    grid_index-IsNearest Micro-IsOrdered wall (dec 5 1) wall-IsSized.0 wall-IsSized.1 wall-IsSized.2
      (omega arith)

match-Ending_example :
    (r : MatchResult Micro) × (match diagonal settings wall wall no_motion ≡ some r)
    × Matched diagonal settings Micro-IsOrdered wall wall no_motion r
match-Ending_example =
    match-Ending diagonal settings Micro-IsOrdered wall wall no_motion wall-IsSized.0 wall-IsSized.1
      wall-IsSized.2 (omega arith) (omega arith)

abbrev readings : ℕ → List Micro
readings zero = nan ∷ dec 20 0 ∷ []
readings (suc n) = dec 1 0 ∷ readings n

abbrev sweep : LaserScan Micro
sweep = record {
  angle_min = dec 0 0;
  angle_max = dec 5 1;
  angle_increment = dec 2 2;
  time_increment = dec 0 0;
  scan_time = dec 1 1;
  range_min = dec 1 1;
  range_max = dec 12 0;
  ranges = readings 20;
  intensities = [];
}

-- Stamps are tenths of a second.
abbrev tenths : Ros Micro
tenths = record {
  Stamp = ℕ;
  seconds = λ a b. micro_double.sub (dec a 1) (dec b 1);
  Quaternion = Micro;
  yaw_quaternion = λ yaw. yaw;
}

abbrev config : Config Micro
config = record {
  base_frame = "base_footprint";
  odom_frame = "odom";
  publish_tf = true;
  matcher = settings;
}

-- The laser is five centimetres in front of the base.
abbrev mounted : Pose2D Micro
mounted = record { x = dec 5 2; y = dec 0 0; yaw = dec 0 0 }

abbrev known : TfBuffer Micro
known to from = some mounted

abbrev at_tenth : ℕ → Event Micro Micro ℕ
at_tenth n = scanned known (record { stamp = n; frame_id = "laser"; scan = sweep })

abbrev drive : List (Event Micro Micro ℕ)
drive = at_tenth 0 ∷ at_tenth 1 ∷ reset_called ∷ at_tenth 2 ∷ at_tenth 3 ∷ []

abbrev unknown : Track Micro Micro
unknown = record { laser = none; scans = [] }

initial-Follows : Follows tenths diagonal config unknown (initial 0)
unfolding path_pose
initial-Follows = record { laser = refl; newest = refl; path = refl }

abbrev placed : List (Point2D Micro)
placed = map (transform mounted) (points_of sweep)

placed-IsSized : (w : ℕ) × (h : ℕ) × IsSized placed (dec 5 1) w h
unfolding shape bounding_box min max transform scan_to_points points_from
placed-IsSized =
    shape-IsSized Micro-IsOrdered Micro-IsMonotone placed (dec 5 1) 10 10
      (all_numbers-HasNumbers placed refl) (omega arith) refl refl
      (record { offset = refl; positive = refl; finite = refl; extent = refl; few = omega arith })
      (record { offset = refl; positive = refl; finite = refl; extent = refl; few = omega arith })
      (omega arith)

drive-AllFit : AllFit tenths diagonal config drive unknown
unfolding scan_to_points points_from
drive-AllFit =
    let fit = placed-IsSized in (tt, ((fit, tt), ((fit, (fit, tt)), (tt, ((fit, tt), tt)))))

run_refines_example :
    Simulated tenths diagonal config Micro-IsOrdered
      (track_run tenths diagonal config drive unknown)
      (run tenths diagonal config drive (initial 0))
run_refines_example =
    run_refines tenths diagonal config Micro-IsOrdered drive unknown (initial 0) initial-Follows
      drive-AllFit

-- The node with a reference scan.
abbrev second : LaserOdom Micro Micro ℕ
second = record {
  prev_points = placed;
  prev_stamp = 0;
  has_prev_scan = true;
  got_laser_tf = true;
  laser_to_base = mounted;
  pose = no_motion;
}

abbrev next_scan : StampedScan ℕ Micro
next_scan = record { stamp = 1; frame_id = "laser"; scan = sweep }

abbrev one_scan : Track Micro Micro
one_scan = record { laser = some mounted; scans = placed ∷ [] }

second-Simulated :
    Simulated tenths diagonal config Micro-IsOrdered
      (track_step tenths diagonal config (scanned known next_scan) one_scan)
      (on_scan tenths diagonal config known next_scan second)
unfolding path_pose scan_to_points points_from
second-Simulated =
    on_scan-Simulated tenths diagonal config Micro-IsOrdered known next_scan one_scan second
      (record { laser = (refl, refl); newest = (refl, refl, omega arith); path = refl })
      (placed-IsSized, tt)
