-- ===== src/ScanFilter.antt =====
-- physicar_bringup/src/scan_filter_node.cpp. `F` stands for `float`, and the margin is the parameter
-- `range_margin` after its conversion to `float`.
mod Tests
use physicar_ros.Base.{
  ℕ, zero, suc, ◌≡◌, ◌⊎◌, inl, inr, refl, ap, Bool, true, false, ◌&&◌, Option, none, some, List, [],
  ◌∷◌, if◌then◌else◌, arith, Bool-cases, length, All,
}
use physicar_ros.Double.{Double, ◌≼◌, IsNum, IsOrdered}

pub record LaserScan {ℓ} (F : Type ℓ) : Type ℓ where
  pub angle_min : F
  pub angle_max : F
  pub angle_increment : F
  pub time_increment : F
  pub scan_time : F
  pub range_min : F
  pub range_max : F
  pub ranges : List F
  pub intensities : List F

module _ {F : Type 0} ⦃d : Double F⦄ where
  open d use {literal, lt, sub, is_finite}

  -- The test of a reading.
  abbrev pub is_valid : F → F → F → Bool
  is_valid lo hi r = is_finite r && lt lo r && lt r hi

  unfoldable pub filter_range : F → F → F → F
  filter_range lo hi r = if is_valid lo hi r then r else literal 0 0

  unfoldable pub filter_ranges : F → F → List F → List F
  filter_ranges lo hi [] = []
  filter_ranges lo hi (r ∷ rs) = filter_range lo hi r ∷ filter_ranges lo hi rs

  abbrev pub effective_max : F → LaserScan F → F
  effective_max margin msg = sub msg.range_max margin

  -- The intensities are copied if there are any; the new message has none otherwise.
  abbrev pub copy_intensities : List F → List F
  copy_intensities [] = []
  copy_intensities (i ∷ is) = i ∷ is

  unfoldable pub scan_callback : F → LaserScan F → LaserScan F
  scan_callback margin msg = record {
    angle_min = msg.angle_min;
    angle_max = msg.angle_max;
    angle_increment = msg.angle_increment;
    time_increment = msg.time_increment;
    scan_time = msg.scan_time;
    range_min = msg.range_min;
    range_max = msg.range_max;
    ranges = filter_ranges msg.range_min (effective_max margin msg) msg.ranges;
    intensities = copy_intensities msg.intensities;
  }

  -- Each reading is kept, if it is finite and strictly inside the range, or becomes zero, if not.
  abbrev pub Filtered : F → F → List F → List F → Type 0
  Filtered lo hi [] [] = Unit
  Filtered lo hi (r ∷ rs) (s ∷ ss) =
      (((s ≡ r) × (is_finite r ≡ true) × (lt lo r ≡ true) × (lt r hi ≡ true))
        ⊎ ((s ≡ literal 0 0) × ((is_finite r ≡ false) ⊎ ((lt lo r ≡ false) ⊎ (lt r hi ≡ false)))))
      × Filtered lo hi rs ss
  Filtered lo hi rs ss = ⊥

  filter_ranges-Filtered : (lo hi : F) (rs : List F) → Filtered lo hi rs (filter_ranges lo hi rs)
  unfolding filter_ranges filter_range
  filter_ranges-Filtered lo hi [] = tt
  filter_ranges-Filtered lo hi (r ∷ rs) = (ground arith, filter_ranges-Filtered lo hi rs)

  filter_range_idem :
      (lo hi r : F) → filter_range lo hi (filter_range lo hi r) ≡ filter_range lo hi r
  unfolding filter_range
  filter_range_idem lo hi r = ground arith

  filter_ranges_idem :
      (lo hi : F) (rs : List F)
      → filter_ranges lo hi (filter_ranges lo hi rs) ≡ filter_ranges lo hi rs
  unfolding filter_ranges
  filter_ranges_idem lo hi [] = refl
  filter_ranges_idem lo hi (r ∷ rs) = cc (filter_range_idem lo hi r, filter_ranges_idem lo hi rs)

  copy_intensities_idem :
      (is : List F) → copy_intensities (copy_intensities is) ≡ copy_intensities is
  copy_intensities_idem [] = refl
  copy_intensities_idem (i ∷ is) = refl

  scan_callback_idem :
      (margin : F) (msg : LaserScan F)
      → scan_callback margin (scan_callback margin msg) ≡ scan_callback margin msg
  unfolding scan_callback
  scan_callback_idem margin msg = rw (filter_ranges_idem, copy_intensities_idem) refl

  -- The filtered scan has the readings of the scan, one for one: a reading is kept if it is finite,
  -- above the scan's least range and below its greatest one less the margin, and is zero otherwise.
  -- The angles, times, limits and intensities are those of the scan, and a second pass over the
  -- filtered scan changes nothing.
  pub scan_callback-Filtered :
      (margin : F) (msg : LaserScan F)
      → let out = scan_callback margin msg in
        Filtered msg.range_min (sub msg.range_max margin) msg.ranges out.ranges
        × (record out { ranges = msg.ranges } ≡ msg)
        × (scan_callback margin out ≡ out)
  unfolding scan_callback
  scan_callback-Filtered margin msg = (
    filter_ranges-Filtered _ _ msg.ranges,
    ap (λ is. record msg { intensities = is }) (same msg.intensities),
    scan_callback_idem margin msg,
  )
    where
      same : (is : List F) → copy_intensities is ≡ is
      same [] = refl
      same (i ∷ is) = refl
