-- ===== src/LidarNode/Loop.antt =====
-- `work_loop` of physicar_lidar/src/rplidar_node.cpp, from the creation of the driver. What the
-- driver and the executor do in each round is an argument.
pub mod Off
pub mod Compensated
use physicar_ros.Base.{
  ℕ, suc, zero, ◌+◌, ◌*◌, ◌/◌, ◌^◌, ◌%◌, ◌==◌, Bool, true, false, Option, none, some, List, [], ◌∷◌,
  ◌&&◌, not, if◌then◌else◌, ltb, leb, length, set, replicate, ◌-◌,
}
use physicar_ros.Base.Int.{ℤ, pos, negsuc, ◌-ℤ◌, ltb_ℤ, pos_part}
use physicar_ros.Double.{Double, Casts}
use physicar_ros.ScanFilter.{LaserScan}
use physicar_ros.LidarNode.{
  Measurement, skip_invalid, cut_invalid, last_of, get_angle, publish_scan,
}
use physicar_ros.LidarNode.Motor.{
  Answers, Lidar, set_motor_speed, stop_scan, send, start, stop_motor, start_motor, standby,
}

-- What `ascendScanData` leaves: the measurements in the order of their angles, or
-- SL_RESULT_OPERATION_FAIL, or another result.
pub data Ascended : Type 0 where
  ascended : List Measurement → Ascended
  all_invalid : List Measurement → Ascended
  refused : Ascended

-- The services that `spin_some` serves.
pub data Request (G : Type 0) : Type 0 where
  start_request : Answers G → Request G
  stop_request : Request G

-- The parameters that only the scans depend on.
pub record Options : Type 0 where
  pub angle_compensate : Bool
  pub inverted : Bool
  pub flip_x_axis : Bool

-- A round: the counts of subscribers, the answers to a start, the result of `grabScanDataHq` with
-- that of `ascendScanData`, the seconds it took, the requests.
pub record Round (F G : Type 0) : Type 0 where
  pub count : ℕ
  pub count_again : ℕ
  pub answers : Answers G
  pub grabbed : Option Ascended
  pub scan_duration : F
  pub requests : List (Request G)

-- `tuning` is `scan_frequency_tunning_after_scan`.
pub record Loop (G : Type 0) : Type 0 where
  pub lidar : Lidar G
  pub tuning : Bool
  pub published : List (LaserScan G)

-- What is known of the lidar at the start.
pub record Connection : Type 0 where
  pub creates : Bool
  pub connects : Bool
  pub has_info : Bool
  pub is_healthy : Bool
  pub model : ℕ

-- A place of the compensated scan that nothing was put into.
abbrev pub blank : Measurement
blank = record { angle_z_q14 = 0; dist_mm_q2 = 0; quality = 0 }

-- The loop over j: `count` copies from the place `index` on, those beyond the end at the end. A write
-- outside the buffer would be lost here.
unfoldable pub spread : ℕ → ℕ → ℕ → Measurement → List Measurement → List Measurement
spread zero index size m out = out
spread (suc count) index size m out =
    spread count (suc index) size m (set out (if leb size index then size - 1 else index) m)

module _ (G : Type 0) ⦃g : Double G⦄ where
  unfoldable pub compensate : ℕ → ℤ → List Measurement → List Measurement → List Measurement
  compensate multiple offset [] out = out
  compensate multiple offset (m ∷ ms) out =
      let angle_value = g.trunc (g.mul (get_angle {G = G} m) (g.of_ℤ (pos multiple))) in
      let moved = if ltb_ℤ (angle_value -ℤ offset) (pos 0) then angle_value else offset in
      let dropped = m.dist_mm_q2 == 0 in
      let next = spread multiple (pos_part (angle_value -ℤ moved)) (360 * multiple) m out in
      compensate multiple (if dropped then offset else moved) ms (if dropped then out else next)

  unfoldable pub compensated : ℕ → List Measurement → List Measurement
  compensated multiple nodes = compensate multiple (pos 0) nodes (replicate (360 * multiple) blank)

module _ {G : Type 0} where
  -- `setMotorSpeed(600)`, for the series that is not tuned.
  unfoldable pub turn_slowly : Loop G → Lidar G
  turn_slowly s = if s.tuning then s.lidar else send (set_motor_speed 600) s.lidar

  -- `delete drv`.
  unfoldable pub delete_driver : Lidar G → Lidar G
  delete_driver l = record l { has_driver = false }

  -- After the loop.
  unfoldable pub finish : Loop G → Loop G
  finish s = record s { lidar = delete_driver (send stop_scan (send (set_motor_speed 0) s.lidar)) }

module _ {G : Type 0} ⦃g : Double G⦄ where
  -- `setMotorSpeed(scan_frequency*60)`, and `continue`.
  unfoldable pub tune : Loop G → Loop G
  tune s = record s {
    lidar =
        send
          (set_motor_speed
            (pos_part (g.trunc (g.mul (s.lidar).scan_frequency (g.literal 60 0))) % 2 ^ 16))
          s.lidar;
    tuning = false;
  }

module _ (F : Type 0) {G : Type 0} ⦃d : Double F⦄ ⦃g : Double G⦄ where
  unfoldable pub serve : List (Request G) → Lidar G → Lidar G
  serve [] l = l
  serve (start_request a ∷ rest) l = serve rest ((start_motor F a l).1)
  serve (stop_request ∷ rest) l = serve rest ((stop_motor l).1)

  unfoldable pub spin_some : List (Request G) → Loop G → Loop G
  spin_some requests s = record s { lidar = serve requests s.lidar }

module _ (F : Type 0) {G : Type 0} ⦃d : Double F⦄ ⦃g : Double G⦄ ⦃cast : Casts F G⦄ where
  open cast use {widen, narrow}

  unfoldable pub deg2rad : G → G
  deg2rad x = narrow (d.div (d.mul (widen x) d.pi) (d.literal 180 0))

module _ {F G : Type 0} ⦃d : Double F⦄ ⦃g : Double G⦄ ⦃cast : Casts F G⦄ (infinity : G) where
  -- The call of `publish_scan`.
  unfoldable pub publish : Options → F → G → G → List Measurement → Loop G → Loop G
  publish o scan_time angle_min angle_max nodes s = record s {
    published =
        publish_scan infinity nodes scan_time o.inverted o.flip_x_axis angle_min angle_max
          (s.lidar).max_distance
        ∷ s.published;
  }

  unfoldable pub publish_full : Options → F → List Measurement → Loop G → Loop G
  publish_full o scan_time nodes s =
      publish o scan_time (deg2rad F (g.literal 0 0)) (deg2rad F (g.literal 359 0)) nodes s

  -- From the first valid measurement to the last one. With none the source reads beyond the array,
  -- which a result SL_RESULT_OK of `ascendScanData` excludes.
  unfoldable pub publish_valid : Options → F → List Measurement → Loop G → Loop G
  publish_valid o scan_time nodes s = elim (cut_invalid (skip_invalid nodes)) [
    | [] ↦ s
    | m ∷ ms ↦
        publish o scan_time (deg2rad F (get_angle m)) (deg2rad F (get_angle (last_of m ms)))
          (m ∷ ms) s
  ]

  unfoldable pub on_ascended : Options → F → Ascended → Loop G → Loop G
  on_ascended o scan_time (ascended nodes) s =
      if o.angle_compensate
      then publish_full o scan_time (compensated G (s.lidar).angle_compensate_multiple nodes) s
      else publish_valid o scan_time nodes s
  on_ascended o scan_time (all_invalid nodes) s = publish_full o scan_time nodes s
  on_ascended o scan_time refused s = s

  unfoldable pub round : Options → Round F G → Loop G → Loop G
  round o r s =
      let at = record s { lidar = standby F r.count r.count_again r.answers s.lidar } in
      elim r.grabbed [
        | none ↦ spin_some F r.requests at
        | some result ↦
            if at.tuning
            then tune at
            else spin_some F r.requests (on_ascended o r.scan_duration result at)
      ]

  unfoldable pub rounds : Options → List (Round F G) → Loop G → Loop G
  rounds o [] s = s
  rounds o (r ∷ rest) s = rounds o rest (round o r s)

  -- From the test of `start` to the return value.
  unfoldable pub after_start : Options → List (Round F G) → Loop G → Bool × Lidar G → ℤ × Loop G
  after_start o rs s (true, l) = (pos 0, finish (rounds o rs (record s { lidar = l })))
  after_start o rs s (false, l) = (negsuc 0, record s { lidar = delete_driver l })

  unfoldable pub run : Options → Answers G → List (Round F G) → Loop G → ℤ × Loop G
  run o a rs s =
      let l = turn_slowly s in
      after_start o rs s (if l.auto_standby then (true, l) else start F a l)

  unfoldable pub work_loop :
      Connection → Options → Answers G → List (Round F G) → Lidar G → ℤ × Loop G
  work_loop c o a rs l =
      let s : Loop G = record {
        lidar = record l { has_driver = c.creates };
        tuning = ltb 5 (c.model / 2 ^ 4);
        published = [];
      } in
      if c.creates
      then (if c.connects && (c.has_info && c.is_healthy)
          then run o a rs s
          else (negsuc 0, record s { lidar = delete_driver s.lidar }))
      else (negsuc 0, s)
