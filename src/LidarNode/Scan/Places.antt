-- ===== src/LidarNode/Scan/Places.antt =====
-- The element that `publish_scan` of physicar_lidar/src/rplidar_node.cpp writes a reading to.
use physicar_ros.Base.{ℕ, ◌-◌, ◌%◌, ◌<◌, ◌≡◌, ◌≢◌, ◌⊎◌, Bool, true, false, arith}
use physicar_ros.LidarNode.{apply_index}

-- The number of readings is even, or the scan is not turned by half.
abbrev pub IsTurnable : Bool → ℕ → Type 0
IsTurnable flip_x_axis n = (flip_x_axis ≡ false) ⊎ (n % 2 ≡ 0)

pub apply_index-lt : (r f : Bool) (n i : ℕ) → i < n → IsTurnable f n → apply_index r f n i < n
unfolding apply_index
apply_index-lt r f n i h t = ground arith

pub apply_index_inj :
    (r f : Bool) (n i j : ℕ)
    → i < n
    → j < n
    → IsTurnable f n
    → apply_index r f n i ≡ apply_index r f n j
    → i ≡ j
unfolding apply_index
apply_index_inj r f n i j h k t e = ground arith

-- Turning twice is turning back.
pub apply_index-twice :
    (r f : Bool) (n i : ℕ) → i < n → IsTurnable f n → apply_index r f n (apply_index r f n i) ≡ i
unfolding apply_index
apply_index-twice r f n i h t = ground arith

-- With an odd number of readings that are turned by half, nothing is written to the last element.
pub apply_index-ne_last :
    (r : Bool) (n i : ℕ) → i < n → 1 < n → n % 2 ≡ 1 → apply_index r true n i ≢ n - 1
unfolding apply_index
apply_index-ne_last r n i h many odd e = ground arith
