-- ===== src/LidarNode/Tests.antt =====
-- The lidar node, on a scan of four measurements and on a lidar with one scan mode.
use mathlib.Core.List.{Memᴰ}
use physicar_ros.Base.{
  ℕ, ◌≡◌, ◌%◌, refl, inr, true, false, ◌&&◌, ◌||◌, none, some, List, [], ◌∷◌, All, arith, get_elem?,
  length,
}
use physicar_ros.Double.Micro.{Micro, micro_double, dec}
use physicar_ros.CameraControls.Tests.{micro_casts}
use physicar_ros.LidarNode.{
  Measurement, apply_index, reverse_data, range_of, intensity_of, publish_scan,
}
use physicar_ros.LidarNode.Scan.{publish_scan-Readings, publish_scan-unwritten}
use physicar_ros.LidarNode.Motor.{ScanMode, Answers, Lidar, start, standby}
use physicar_ros.LidarNode.Motor.Sent.{is_measuring, Agrees, standby-Follows}
use physicar_ros.LidarNode.Loop.{
  Options, Connection, Round, Loop, ascended, start_request, stop_request, rounds, work_loop,
  compensated,
}
use physicar_ros.LidarNode.Loop.Off.{IsLeft, rounds-Agrees, work_loop-IsLeft}
use physicar_ros.LidarNode.Loop.Compensated.{compensated-All}

abbrev reading : ℕ → ℕ → ℕ → Measurement
reading angle dist quality = record { angle_z_q14 = angle; dist_mm_q2 = dist; quality = quality }

abbrev nodes : List Measurement
nodes = reading 0 4000 40 ∷ reading 16384 8000 80 ∷ reading 32768 0 0 ∷ reading 49152 2000 20 ∷ []

publish_scan-Readings_example :
    let scan =
      publish_scan {F = Micro}
        (dec 99 0)
        nodes
        (dec 1 1)
        false
        true
        (dec 0 0)
        (dec 6 0)
        (dec 8 0) in
    (get_elem? scan.ranges
        (apply_index (reverse_data false (micro_double.lt (dec 0 0) (dec 6 0))) true 4 1)
      ≡ some (range_of (dec 99 0) (reading 16384 8000 80)))
    × (get_elem? scan.intensities 1 ≡ some (intensity_of (reading 16384 8000 80)))
publish_scan-Readings_example =
    publish_scan-Readings (dec 99 0) nodes (dec 1 1) false true (dec 0 0) (dec 6 0) (dec 8 0) 1
      (reading 16384 8000 80) (inr refl) refl

abbrev three : List Measurement
three = reading 0 4000 40 ∷ reading 16384 8000 80 ∷ reading 49152 2000 20 ∷ []

publish_scan-unwritten_example :
    get_elem?
      (publish_scan {F = Micro}
        (dec 99 0)
        three
        (dec 1 1)
        false
        true
        (dec 0 0)
        (dec 6 0)
        (dec 8 0)).ranges
      2
    ≡ some (dec 0 0)
publish_scan-unwritten_example =
    publish_scan-unwritten (dec 99 0) three (dec 1 1) false (dec 0 0) (dec 6 0) (dec 8 0)
      (omega arith) refl

abbrev standard : ScanMode Micro
standard = record {
  id = 0;
  us_per_sample = dec 125 0;
  max_distance = dec 12 0;
  scan_mode = "Standard";
}

abbrev willing : Answers Micro
willing = record {
  typical = some standard;
  supported = some (standard ∷ []);
  express = λ k. some standard;
}

abbrev fresh : Lidar Micro
fresh = record {
  has_driver = true;
  is_scanning = false;
  auto_standby = true;
  scan_mode = "";
  scan_frequency = dec 10 0;
  angle_compensate_multiple = 1;
  max_distance = dec 8 0;
  commands = [];
}

fresh-Agrees : Agrees fresh
unfolding is_measuring
fresh-Agrees = record { driver = refl; scanning = refl }

standby-Follows_example :
    is_measuring ((standby Micro 2 2 willing fresh).commands)
    ≡ true && (false || (start Micro willing fresh).0)
standby-Follows_example = standby-Follows Micro 2 willing fresh refl fresh-Agrees

abbrev options : Options
options = record { angle_compensate = true; inverted = false; flip_x_axis = false }

abbrev served : Round Micro Micro
served = record {
  count = 1;
  count_again = 1;
  answers = willing;
  grabbed = some (ascended nodes);
  scan_duration = dec 1 1;
  requests = start_request willing ∷ stop_request ∷ [];
}

abbrev left_alone : Round Micro Micro
left_alone = record {
  count = 0;
  count_again = 0;
  answers = willing;
  grabbed = none;
  scan_duration = dec 1 1;
  requests = [];
}

abbrev begun : Loop Micro
begun = record { lidar = fresh; tuning = true; published = [] }

rounds-Agrees_example :
    Agrees ((rounds (dec 99 0) options (served ∷ served ∷ left_alone ∷ []) begun).lidar)
rounds-Agrees_example =
    rounds-Agrees (dec 99 0) options (served ∷ served ∷ left_alone ∷ []) begun fresh-Agrees

abbrev sound : Connection
sound = record { creates = true; connects = true; has_info = true; is_healthy = true; model = 24 }

work_loop-IsLeft_example :
    IsLeft (((work_loop (dec 99 0) sound options willing (served ∷ left_alone ∷ []) fresh).1).lidar)
work_loop-IsLeft_example =
    work_loop-IsLeft (dec 99 0) sound options willing (served ∷ left_alone ∷ []) fresh refl

compensated-All_example :
    (length (compensated Micro 2 nodes) ≡ 720)
    × All (λ m. m.quality % 4 ≡ 0) (compensated Micro 2 nodes)
    × Memᴰ (reading 49152 2000 20) (compensated Micro 2 nodes)
compensated-All_example =
    compensated-All Micro (λ m. m.quality % 4 ≡ 0) 2
      (reading 0 4000 40 ∷ reading 16384 8000 80 ∷ reading 32768 0 0 ∷ []) []
      (reading 49152 2000 20) refl ((λ e. refl), ((λ e. refl), ((λ e. refl), ((λ e. refl), tt))))
      (omega arith) (λ e. absurd (omega arith)) tt
