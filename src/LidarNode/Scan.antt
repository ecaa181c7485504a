-- ===== src/LidarNode/Scan.antt =====
-- Where the readings of the lidar stand in the message.
pub mod Places
use physicar_ros.Base.{
  ℕ, zero, suc, ◌+◌, ◌-◌, ◌%◌, ◌<◌, ◌≤◌, ◌≡◌, ◌≢◌, ◌⊎◌, refl, inl, inr, Bool, true, false, none,
  some, List, [], ◌∷◌, length, get_elem?, set, replicate, arith, length-set, length-replicate,
  get_elem?-lt, get_elem?-replicate, get_elem?-set_self, get_elem?-set_ne, ◌∙◌, ap,
}
use physicar_ros.Double.{Double, Casts}
use physicar_ros.LidarNode.{
  Measurement, apply_index, range_of, intensity_of, write_intensity, fill_intensities, reverse_data,
  fill_ranges, publish_scan,
}
use physicar_ros.LidarNode.Scan.Places.{
  IsTurnable, apply_index-lt, apply_index_inj, apply_index-twice, apply_index-ne_last,
}

module _ {G : Type 0} ⦃g : Double G⦄ (infinity : G) (place : ℕ → ℕ) where
  -- What is not written stays.
  fill_ranges-keeps :
      (i k : ℕ) (ms : List Measurement) (out : List G)
      → ((j : ℕ) → i ≤ j → j < i + length ms → place j ≢ k)
      → get_elem? (fill_ranges infinity place i ms out) k ≡ get_elem? out k
  unfolding fill_ranges
  fill_ranges-keeps i k [] out h = refl
  fill_ranges-keeps i k (m ∷ ms) out h =
      fill_ranges-keeps (suc i) k ms (set out (place i) (range_of infinity m))
        (λ j lo hi. h j (omega arith) (omega arith))
      ∙ get_elem?-set_ne out (place i) k (range_of infinity m) (h i (omega arith) (omega arith))

  -- Each measurement is found where it was put, if no two are put into one place.
  fill_ranges-finds :
      (i j n : ℕ) (ms : List Measurement) (out : List G) (m : Measurement)
      → length out ≡ n
      → i + length ms ≤ n
      → ((k : ℕ) → k < n → place k < n)
      → ((k l : ℕ) → k < n → l < n → place k ≡ place l → k ≡ l)
      → get_elem? ms j ≡ some m
      → get_elem? (fill_ranges infinity place i ms out) (place (i + j)) ≡ some (range_of infinity m)
  unfolding fill_ranges
  fill_ranges-finds i j n [] out m len fits inside inj e = cc
  fill_ranges-finds i zero n (x ∷ ms) out m len fits inside inj e =
      ap
        (λ l.
          get_elem?
            (fill_ranges infinity place (suc i) ms (set out (place i) (range_of infinity x)))
            (place l))
        (omega arith)
      ∙ fill_ranges-keeps (suc i) (place i) ms (set out (place i) (range_of infinity x))
          (λ l lo hi same. omega (arith, inj l i (omega arith) (omega arith) same))
      ∙ get_elem?-set_self out (place i) (range_of infinity x)
          (omega (arith, inside i (omega arith)))
      ∙ ap (λ y. some (range_of infinity y)) cc
  fill_ranges-finds i (suc j) n (x ∷ ms) out m len fits inside inj e =
      ap
        (λ l.
          get_elem?
            (fill_ranges infinity place (suc i) ms (set out (place i) (range_of infinity x)))
            (place l))
        (omega arith)
      ∙ fill_ranges-finds (suc i) j n ms (set out (place i) (range_of infinity x)) m
          (length-set out (place i) (range_of infinity x) ∙ len) (omega arith) inside inj e

later : (place : ℕ → ℕ) (i j k : ℕ) → i ≤ j → place i ≢ k → place j ≡ k → suc i ≤ j
later place i j k lo other at = grind arith

same_or_other : (a b : ℕ) → (a ≡ b) ⊎ (a ≢ b)
same_or_other a b = ground arith

module _ {G : Type 0} ⦃g : Double G⦄ (nodes : List Measurement) (place : ℕ → ℕ) where
  write_intensity-own :
      (k : ℕ) (m : Measurement) (out : List G)
      → k < length out
      → get_elem? nodes k ≡ some m
      → get_elem? (write_intensity nodes k out) k ≡ some (intensity_of m)
  unfolding write_intensity
  write_intensity-own k m out h e =
      rw (e, write_intensity) (get_elem?-set_self out k (intensity_of m) h)

  write_intensity-other :
      (k l : ℕ) (out : List G) → k ≢ l → get_elem? (write_intensity nodes k out) l ≡ get_elem? out l
  unfolding write_intensity
  write_intensity-other k l out h =
      elim (get_elem? nodes k)
        as (λ o.
          get_elem? (elim o as (λ x. List G) [ none ↦ out | some m ↦ set out k (intensity_of m) ]) l
          ≡ get_elem? out l) [ none ↦ refl | some m ↦ get_elem?-set_ne out k l (intensity_of m) h ]

  length-write_intensity :
      (k : ℕ) (out : List G) → length (write_intensity nodes k out) ≡ length out
  unfolding write_intensity
  length-write_intensity k out =
      elim (get_elem? nodes k)
        as (λ o.
          length (elim o as (λ x. List G) [ none ↦ out | some m ↦ set out k (intensity_of m) ])
          ≡ length out) [ none ↦ refl | some m ↦ length-set out k (intensity_of m) ]

  -- A place that the loop reaches has the intensity of the measurement of the same number.
  fill_intensities-finds :
      (i k : ℕ) (ms : List Measurement) (out : List G) (m : Measurement)
      → k < length out
      → get_elem? nodes k ≡ some m
      → (get_elem? out k ≡ some (intensity_of m))
        ⊎ ((j : ℕ) × ((i ≤ j) × ((j < i + length ms) × (place j ≡ k))))
      → get_elem? (fill_intensities nodes place i ms out) k ≡ some (intensity_of m)
  unfolding fill_intensities
  fill_intensities-finds i k [] out m h e (inl done) = done
  fill_intensities-finds i k [] out m h e (inr (j, (lo, (hi, at)))) = absurd (omega arith)
  fill_intensities-finds i k (x ∷ ms) out m h e reached =
      fill_intensities-finds (suc i) k ms (write_intensity nodes (place i) out) m
        (omega (arith, length-write_intensity (place i) out)) e
        (elim (same_or_other (place i) k) [
          | inl own ↦ inl (rw own (write_intensity-own k m out h e))
          | inr other ↦ elim reached [
            | inl done ↦ inl (write_intensity-other (place i) k out other ∙ done)
            | inr (j, (lo, (hi, at))) ↦
                inr (j, (later place i j k lo other at, ((omega arith), at)))
          ]
        ])

module _ {F G : Type 0} ⦃d : Double F⦄ ⦃g : Double G⦄ ⦃cast : Casts F G⦄ (infinity : G) where
  -- In a scan with an even number of readings, or that is not turned by half, the range of each
  -- measurement stands in the place that its number is turned to, infinite if there is none, but its
  -- intensity in the place of its number.
  pub publish_scan-Readings :
      (nodes : List Measurement) (scan_time : F) (inverted flip_x_axis : Bool)
      (angle_min angle_max max_distance : G) (k : ℕ) (m : Measurement)
      → IsTurnable flip_x_axis (length nodes)
      → get_elem? nodes k ≡ some m
      → let scan =
          publish_scan infinity nodes scan_time inverted flip_x_axis angle_min angle_max
            max_distance in
        (get_elem? scan.ranges (
            apply_index
              (reverse_data inverted (g.lt angle_min angle_max))
              flip_x_axis
              (length nodes)
              k)
          ≡ some (range_of infinity m))
        × (get_elem? scan.intensities k ≡ some (intensity_of m))
  unfolding publish_scan
  publish_scan-Readings nodes scan_time inverted flip_x_axis angle_min angle_max max_distance k m t
        e =
      let r = reverse_data inverted (g.lt angle_min angle_max) in
      let n = length nodes in
      let place = apply_index r flip_x_axis n in
      let inside = get_elem?-lt nodes k m e in
      let empty = replicate n (g.literal 0 0) in
      (
        ap (λ l. get_elem? (fill_ranges infinity place 0 nodes empty) (place l)) (omega arith)
            ∙ fill_ranges-finds infinity place 0 k n nodes empty m
                (length-replicate n (g.literal 0 0)) (omega arith)
                (λ i h. apply_index-lt r flip_x_axis n i h t)
                (λ i j h l s. apply_index_inj r flip_x_axis n i j h l t s) e,
        fill_intensities-finds nodes place 0 k nodes (replicate n (g.literal 0 0)) m
            (omega (arith, length-replicate n (g.literal 0 0), get_elem?-lt nodes k m e)) e
            (inr (
              place k,
              (
                omega arith,
                (
                  omega (arith, apply_index-lt r flip_x_axis n k inside t),
                  apply_index-twice r flip_x_axis n k inside t,
                ),
              ),
            )),
      )

  -- When more than one reading, an odd number of them, is turned by half, no range is written to the
  -- last place, which keeps the 0 it was made with.
  pub publish_scan-unwritten :
      (nodes : List Measurement) (scan_time : F) (inverted : Bool)
      (angle_min angle_max max_distance : G)
      → 1 < length nodes
      → length nodes % 2 ≡ 1
      → get_elem?
          (publish_scan infinity nodes scan_time inverted true angle_min angle_max
            max_distance).ranges
          (length nodes - 1)
        ≡ some (g.literal 0 0)
  unfolding publish_scan
  publish_scan-unwritten nodes scan_time inverted angle_min angle_max max_distance many odd =
      let r = reverse_data inverted (g.lt angle_min angle_max) in
      let n = length nodes in
      fill_ranges-keeps infinity (apply_index r true n) 0 (n - 1) nodes
        (replicate n (g.literal 0 0)) (λ j lo hi. apply_index-ne_last r n j (omega arith) many odd)
      ∙ get_elem?-replicate n (g.literal 0 0) (n - 1) (omega arith)
