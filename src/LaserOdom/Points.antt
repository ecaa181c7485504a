-- ===== src/LaserOdom/Points.antt =====
-- scan_to_points: which readings become points.
use mathlib.Core.List.{Memᴰ}
use native.Mathlib.Nat.{add-zero}
use physicar_ros.Base.{
  ℕ, zero, suc, ◌+◌, ◌≡◌, refl, sym, true, false, some, List, [], ◌∷◌, arith, get_elem?, if-case,
  Bool-cases, inl, inr,
}
use physicar_ros.Double.{Double}
use physicar_ros.LaserOdom.Geometry.{Point2D, is_skipped, point_at, points_from, scan_to_points}
use physicar_ros.LaserOdom.Grid.Cells.{some_inj}

shift : (i n : ℕ) → i + suc n ≡ suc i + n
shift i n = omega arith

module _ {G : Type 0} ⦃f : Double G⦄ (angle_min angle_inc range_min range_max : G) where
  -- A finite reading that is not below the minimum and not above the maximum.
  abbrev pub IsUsable : G → Type 0
  IsUsable r = (f.is_finite r ≡ true) × (f.lt r range_min ≡ false) × (f.lt range_max r ≡ false)

  -- A point of a usable reading, at the angle of the reading; `i` is the number of the first reading.
  abbrev pub IsOfReading : ℕ → List G → Point2D G → Type 0
  IsOfReading i ranges p =
      (n : ℕ) × (r : G) × (get_elem? ranges n ≡ some r)
      × IsUsable r
      × (p ≡ point_at angle_min angle_inc (i + n) r)

  abbrev points_after : ℕ → List G → List (Point2D G)
  points_after = points_from angle_min angle_inc range_min range_max

  IsUsable-kept : (r : G) → IsUsable r → is_skipped range_min range_max r ≡ false
  IsUsable-kept r usable = ground arith

  IsOfReading-later :
      (i : ℕ) (r : G) (rs : List G) (p : Point2D G)
      → IsOfReading (suc i) rs p
      → IsOfReading i (r ∷ rs) p
  IsOfReading-later i r rs p (n, v, at, usable, e) = (suc n, v, at, usable, rw (shift i n) e)

  points_from_sound :
      (i : ℕ) (ranges : List G) (p : Point2D G)
      → Memᴰ p (points_after i ranges)
      → IsOfReading i ranges p
  unfolding points_from
  points_from_sound i [] p m = elim m [ ]
  points_from_sound i (r ∷ rs) p m = elim (Bool-cases (is_skipped range_min range_max r)) [
    | inl skip ↦ IsOfReading-later i r rs p (points_from_sound (suc i) rs p (rw skip at m))
    | inr keep ↦ elim (rw keep at m) [
      | Memᴰ.head e ↦ (0, r, refl, ground arith, rw add-zero e)
      | Memᴰ.tail later ↦ IsOfReading-later i r rs p (points_from_sound (suc i) rs p later)
    ]
  ]

  points_from_complete :
      (i : ℕ) (ranges : List G) (n : ℕ) (r : G)
      → get_elem? ranges n ≡ some r
      → IsUsable r
      → Memᴰ (point_at angle_min angle_inc (i + n) r) (points_after i ranges)
  unfolding points_from
  points_from_complete i [] n r at usable = absurd (cc)
  points_from_complete i (v ∷ vs) zero r at usable =
      let keep : is_skipped range_min range_max v ≡ false =
        rw (some_inj at) (IsUsable-kept r usable) in
      rw (keep, add-zero, sym (some_inj at)) (Memᴰ.head refl)
  points_from_complete i (v ∷ vs) (suc n) r at usable =
      let rest = points_from_complete (suc i) vs n r at usable in
      if-case (Memᴰ (point_at angle_min angle_inc (i + suc n) r)) (is_skipped range_min range_max v)
        _ _ (λ _. rw (shift i n) rest) (λ _. Memᴰ.tail (rw (shift i n) rest))

  -- The points are exactly those of the finite readings that are neither below the minimum nor
  -- above the maximum, each at its distance in the direction of its number in the scan.
  pub scan_to_points_lem :
      (ranges : List G)
      → let points = scan_to_points ranges angle_min angle_inc range_min range_max in
        ((p : Point2D G) → Memᴰ p points → IsOfReading 0 ranges p)
        × ((p : Point2D G) → IsOfReading 0 ranges p → Memᴰ p points)
  unfolding scan_to_points
  scan_to_points_lem ranges = (
    points_from_sound 0 ranges,
    λ p (n, r, at, usable, e). rw e (points_from_complete 0 ranges n r at usable),
  )
