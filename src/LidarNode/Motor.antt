-- ===== src/LidarNode/Motor.antt =====
-- The motor of the lidar: start, stop, set_scan_mode and the two services of
-- physicar_lidar/src/rplidar_node.cpp. `Answers` is what the driver answers to the commands that are
-- sent meanwhile.
pub mod Sent
use Prim.Native.String.{String}
use text.Mathlib.Text.{◌==◌ as str_eq}
use physicar_ros.Base.{
  ℕ, ◌^◌, ◌%◌, Bool, true, false, Option, none, some, List, [], ◌∷◌, ◌&&◌, not, if◌then◌else◌, ltb,
  ◌==◌,
}
use physicar_ros.Base.Int.{pos, pos_part}
use physicar_ros.Double.{Double}

-- sl::LidarScanMode.
pub record ScanMode (G : Type 0) : Type 0 where
  pub id : ℕ
  pub us_per_sample : G
  pub max_distance : G
  pub scan_mode : String

-- What is sent to the driver. `setMotorSpeed()` has the default speed 0xFFFF.
pub data Command : Type 0 where
  set_motor_speed : ℕ → Command
  stop_scan : Command
  start_scan : Command
  start_scan_express : ℕ → Command

-- `none` is a result that is not SL_RESULT_OK.
pub record Answers (G : Type 0) : Type 0 where
  pub typical : Option (ScanMode G)
  pub supported : Option (List (ScanMode G))
  pub express : ℕ → Option (ScanMode G)

-- The members. `commands` are those sent so far, the last one first.
pub record Lidar (G : Type 0) : Type 0 where
  pub has_driver : Bool
  pub is_scanning : Bool
  pub auto_standby : Bool
  pub scan_mode : String
  pub scan_frequency : G
  pub angle_compensate_multiple : ℕ
  pub max_distance : G
  pub commands : List Command

-- `sl_u16(-1)` when there is none.
unfoldable pub selected_scan_mode : {G : Type 0} → String → List (ScanMode G) → ℕ
selected_scan_mode name [] = 65535
selected_scan_mode name (s ∷ rest) =
    if str_eq s.scan_mode name then s.id else selected_scan_mode name rest

module _ {G : Type 0} where
  unfoldable pub send : Command → Lidar G → Lidar G
  send c l = record l { commands = c ∷ l.commands }

  unfoldable pub stop : Lidar G → Lidar G
  stop l =
      if l.has_driver
      then record (send (set_motor_speed 0) (send stop_scan l)) { is_scanning = false }
      else l

  unfoldable pub request_scan : Answers G → Lidar G → Option (ScanMode G) × Lidar G
  request_scan a l =
      if str_eq l.scan_mode "" then (a.typical, send start_scan l) else elim a.supported [
        | none ↦ (none, l)
        | some modes ↦
            (let k = selected_scan_mode l.scan_mode modes in
              if k == 65535 then (none, l) else (a.express k, send (start_scan_express k) l))
      ]

  -- The end of `start`, by the result of `set_scan_mode`.
  abbrev pub settle : Bool × Lidar G → Bool × Lidar G
  settle (true, l) = (true, record l { is_scanning = true })
  settle (false, l) = (false, stop l)

  unfoldable pub stop_motor : Lidar G → Bool × Lidar G
  stop_motor l = if l.auto_standby then (false, l) else (true, stop l)

module _ (F : Type 0) {G : Type 0} ⦃d : Double F⦄ ⦃g : Double G⦄ where
  -- A quotient that is negative has no conversion to `size_t`: it counts as 0 here.
  unfoldable pub compensate_multiple : ScanMode G → G → ℕ
  compensate_multiple s frequency =
      let points_per_circle =
        g.trunc (g.div (g.div (g.of_ℤ (pos 1000000)) s.us_per_sample) frequency) in
      let multiple =
        pos_part
          (d.trunc (d.add (d.div (d.of_ℤ points_per_circle) (d.literal 360 0)) (d.literal 1 0))) in
      if ltb multiple 1 then 1 else multiple

  unfoldable pub set_scan_mode : Answers G → Lidar G → Bool × Lidar G
  set_scan_mode a l =
      let r = request_scan a l in
      elim (r.0) [
        | none ↦ (false, r.1)
        | some current ↦ (
          true,
          record (r.1) {
            angle_compensate_multiple = compensate_multiple current l.scan_frequency;
            max_distance = current.max_distance;
          },
        )
      ]

  unfoldable pub start : Answers G → Lidar G → Bool × Lidar G
  start a l =
      if l.has_driver then settle (set_scan_mode a (send (set_motor_speed 65535) l)) else (false, l)

  unfoldable pub start_motor : Answers G → Lidar G → Bool × Lidar G
  start_motor a l = if l.auto_standby then (false, l) else start a l

  -- The beginning of a round, with the two counts of subscribers that it reads.
  unfoldable pub standby : ℕ → ℕ → Answers G → Lidar G → Lidar G
  standby count count_again a l =
      if l.auto_standby
      then (if ltb 0 count && not l.is_scanning
          then (start a l).1
          else (if count_again == 0 && l.is_scanning then stop l else l))
      else l
