-- ===== src/ScanFilter/Tests.antt =====
-- The theorems on the scan filter, on a scan with a reading of each kind.
use physicar_ros.Base.{◌≡◌, [], ◌∷◌}
use physicar_ros.Double.Micro.{Micro, micro_double, dec, nan}
use physicar_ros.ScanFilter.{LaserScan, scan_callback, Filtered, scan_callback-Filtered}

abbrev scan : LaserScan Micro
scan = record {
  angle_min = dec 0 0;
  angle_max = dec 6 0;
  angle_increment = dec 1 0;
  time_increment = dec 0 0;
  scan_time = dec 1 1;
  range_min = dec 15 2;
  range_max = dec 12 0;
  ranges = dec 1 0 ∷ dec 1 1 ∷ dec 119 1 ∷ nan ∷ [];
  intensities = dec 47 0 ∷ dec 47 0 ∷ dec 47 0 ∷ dec 0 0 ∷ [];
}

scan_callback-Filtered_example :
    Filtered
      (dec 15 2)
      (micro_double.sub (dec 12 0) (dec 1 1))
      scan.ranges
      (scan_callback (dec 1 1) scan).ranges
    × (record (scan_callback (dec 1 1) scan) { ranges = scan.ranges } ≡ scan)
    × (scan_callback (dec 1 1) (scan_callback (dec 1 1) scan) ≡ scan_callback (dec 1 1) scan)
scan_callback-Filtered_example = scan_callback-Filtered (dec 1 1) scan
