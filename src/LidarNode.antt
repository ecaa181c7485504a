-- ===== src/LidarNode.antt =====
-- class RPlidarNode of physicar_lidar/src/rplidar_node.cpp, once it has its driver. What the driver
-- answers is an argument. `G` stands for `float`.
pub mod Scan
pub mod Motor
pub mod Loop
mod Tests
use Prim.Native.String.{String}
use text.Mathlib.Text.{◌==◌ as str_eq}
use physicar_ros.Base.{
  ℕ, zero, suc, ◌+◌, ◌-◌, ◌*◌, ◌/◌, ◌%◌, ◌^◌, Bool, true, false, ◌&&◌, ◌||◌, not, Option, none,
  some, List, [], ◌∷◌, ◌++◌, if◌then◌else◌, ltb, leb, ◌==◌, length, get_elem?, set, replicate,
  ◌>>=◌,
}
use physicar_ros.Base.Int.{ℤ, pos, ◌-ℤ◌, ltb_ℤ, pos_part}
use physicar_ros.Double.{Double, Casts}
use physicar_ros.ScanFilter.{LaserScan}

-- sl_lidar_response_measurement_node_hq_t.
pub record Measurement : Type 0 where
  pub angle_z_q14 : ℕ
  pub dist_mm_q2 : ℕ
  pub quality : ℕ

abbrev pub reverse_data : Bool → Bool → Bool
reverse_data inverted reversed = (not inverted && reversed) || (inverted && not reversed)

-- The element that the measurement `i` of `n` is written to.
unfoldable pub apply_index : Bool → Bool → ℕ → ℕ → ℕ
apply_index reverses flip_x_axis n i =
    let j = if reverses then n - 1 - i else i in
    let scan_midpoint = n / 2 in
    if flip_x_axis
    then (if leb scan_midpoint j then j - scan_midpoint else j + scan_midpoint)
    else j

abbrev pub is_valid : Measurement → Bool
is_valid m = not (m.dist_mm_q2 == 0)

-- The loops that look for the first and for the last valid measurement. They read beyond the array
-- when there is none, which `ascendScanData` reports.
unfoldable pub skip_invalid : List Measurement → List Measurement
skip_invalid [] = []
skip_invalid (m ∷ ms) = if is_valid m then m ∷ ms else skip_invalid ms

unfoldable pub cut_invalid : List Measurement → List Measurement
cut_invalid [] = []
cut_invalid (m ∷ ms) = elim (cut_invalid ms) [
  | [] ↦ if is_valid m then m ∷ [] else []
  | k ∷ ks ↦ m ∷ k ∷ ks
]

unfoldable pub last_of : Measurement → List Measurement → Measurement
last_of m [] = m
last_of m (k ∷ ks) = last_of k ks

module _ {G : Type 0} ⦃g : Double G⦄ where
  unfoldable pub get_angle : Measurement → G
  get_angle m = g.div (g.mul (g.of_ℤ (pos m.angle_z_q14)) (g.literal 90 0)) (g.literal 16384 0)

  -- `infinity` is `std::numeric_limits<float>::infinity()`.
  unfoldable pub range_of : G → Measurement → G
  range_of infinity m =
      let read_value =
        g.div (g.div (g.of_ℤ (pos m.dist_mm_q2)) (g.literal 4 0)) (g.literal 1000 0) in
      if g.eq read_value (g.literal 0 0) then infinity else read_value

  abbrev pub intensity_of : Measurement → G
  intensity_of m = g.of_ℤ (pos (m.quality / 4))

  -- The loop over the measurements, for the ranges.
  unfoldable pub fill_ranges : G → (ℕ → ℕ) → ℕ → List Measurement → List G → List G
  fill_ranges infinity place i [] out = out
  fill_ranges infinity place i (m ∷ ms) out =
      fill_ranges infinity place (suc i) ms (set out (place i) (range_of infinity m))

  -- For the intensities: `nodes[apply_index]`.
  unfoldable pub write_intensity : List Measurement → ℕ → List G → List G
  write_intensity nodes k out = elim (get_elem? nodes k) [
    | none ↦ out
    | some m ↦ set out k (intensity_of m)
  ]

  unfoldable pub fill_intensities :
      List Measurement → (ℕ → ℕ) → ℕ → List Measurement → List G → List G
  fill_intensities nodes place i [] out = out
  fill_intensities nodes place i (m ∷ ms) out =
      fill_intensities nodes place (suc i) ms (write_intensity nodes (place i) out)

module _ {F : Type 0} ⦃d : Double F⦄ where
  -- `(double)(node_count - 1)`.
  abbrev pub steps : ℕ → F
  steps n = d.of_ℤ (pos ((n + 2 ^ 64 - 1) % 2 ^ 64))

module _ {F G : Type 0} ⦃d : Double F⦄ ⦃g : Double G⦄ ⦃cast : Casts F G⦄ (infinity : G) where
  open cast use {widen, narrow}

  -- The message of `publish_scan`.
  unfoldable pub publish_scan : List Measurement → F → Bool → Bool → G → G → G → LaserScan G
  publish_scan nodes scan_time inverted flip_x_axis angle_min angle_max max_distance =
      let n = length nodes in
      let reversed = g.lt angle_min angle_max in
      let from = narrow (d.sub d.pi (widen (if reversed then angle_max else angle_min))) in
      let to = narrow (d.sub d.pi (widen (if reversed then angle_min else angle_max))) in
      let place = apply_index (reverse_data inverted reversed) flip_x_axis n in
      record {
        angle_min = from;
        angle_max = to;
        angle_increment = narrow (d.div (widen (g.sub to from)) (steps n));
        time_increment = narrow (d.div scan_time (steps n));
        scan_time = narrow scan_time;
        range_min = narrow (d.literal 15 2);
        range_max = max_distance;
        ranges = fill_ranges infinity place 0 nodes (replicate n (g.literal 0 0));
        intensities = fill_intensities nodes place 0 nodes (replicate n (g.literal 0 0));
      }
