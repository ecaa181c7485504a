-- ===== src/LidarNode/Loop/Compensated.antt =====
-- The compensation of the angles in `work_loop` of physicar_lidar/src/rplidar_node.cpp.
use mathlib.Core.List.{Memᴰ}
use physicar_ros.Base.{
  ℕ, zero, suc, ◌*◌, ◌<◌, ◌++◌, set, ◌≡◌, ◌≢◌, refl, ◌∙◌, List, [], ◌∷◌, ◌==◌, length, All, All-set,
  All-replicate, length-set, length-replicate, arith, if-case,
}
use physicar_ros.Base.Int.{ℤ, pos}
use physicar_ros.Double.{Double}
use physicar_ros.LidarNode.{Measurement}
use physicar_ros.LidarNode.Loop.{spread, compensate, compensated, blank}

length-spread :
    (count index size : ℕ) (m : Measurement) (out : List Measurement)
    → length (spread count index size m out) ≡ length out
unfolding spread
length-spread zero index size m out = refl
length-spread (suc count) index size m out =
    length-spread count (suc index) size m _ ∙ length-set out _ m

spread-All :
    (P : Measurement → Type 0) (count index size : ℕ) (m : Measurement) (out : List Measurement)
    → P m
    → All P out
    → All P (spread count index size m out)
unfolding spread
spread-All P zero index size m out p h = h
spread-All P (suc count) index size m out p h =
    spread-All P count (suc index) size m _ p (All-set P out _ m h p)

set-Memᴰ_new :
    (out : List Measurement) (i : ℕ) (m : Measurement) → i < length out → Memᴰ m (set out i m)
set-Memᴰ_new [] i m h = elim h [ ]
set-Memᴰ_new (x ∷ out) zero m h = Memᴰ.head refl
set-Memᴰ_new (x ∷ out) (suc i) m h = Memᴰ.tail (set-Memᴰ_new out i m (omega arith))

set-Memᴰ_old :
    (out : List Measurement) (i : ℕ) (m : Measurement) → Memᴰ m out → Memᴰ m (set out i m)
set-Memᴰ_old [] i m h = h
set-Memᴰ_old (x ∷ out) zero m h = Memᴰ.head refl
set-Memᴰ_old (x ∷ out) (suc i) m (Memᴰ.head e) = Memᴰ.head e
set-Memᴰ_old (x ∷ out) (suc i) m (Memᴰ.tail h) = Memᴰ.tail (set-Memᴰ_old out i m h)

spread-Memᴰ_old :
    (count index size : ℕ) (m : Measurement) (out : List Measurement)
    → Memᴰ m out
    → Memᴰ m (spread count index size m out)
unfolding spread
spread-Memᴰ_old zero index size m out h = h
spread-Memᴰ_old (suc count) index size m out h =
    spread-Memᴰ_old count (suc index) size m _ (set-Memᴰ_old out _ m h)

-- The end of the buffer takes what lies beyond it.
spread-Memᴰ :
    (count index size : ℕ) (m : Measurement) (out : List Measurement)
    → 0 < count
    → 0 < size
    → length out ≡ size
    → Memᴰ m (spread count index size m out)
unfolding spread
spread-Memᴰ zero index size m out h hs e = elim h [ ]
spread-Memᴰ (suc count) index size m out h hs e =
    spread-Memᴰ_old count (suc index) size m _ (set-Memᴰ_new out _ m (ground arith))

module _ (G : Type 0) ⦃g : Double G⦄ where
  length-compensate :
      (multiple : ℕ) (ms : List Measurement) (offset : ℤ) (out : List Measurement)
      → length (compensate G multiple offset ms out) ≡ length out
  unfolding compensate
  length-compensate multiple [] offset out = refl
  length-compensate multiple (m ∷ ms) offset out =
      length-compensate multiple ms _ _
      ∙ if-case {A = List Measurement} (λ l. length l ≡ length out) (m.dist_mm_q2 == 0) _ _
          (λ e. refl) (λ e. length-spread multiple _ (360 * multiple) m out)

  compensate-All :
      (P : Measurement → Type 0) (multiple : ℕ) (ms : List Measurement) (offset : ℤ)
      (out : List Measurement)
      → All (λ m. m.dist_mm_q2 ≢ 0 → P m) ms
      → All P out
      → All P (compensate G multiple offset ms out)
  unfolding compensate
  compensate-All P multiple [] offset out hs h = h
  compensate-All P multiple (m ∷ ms) offset out (p, hs) h = compensate-All P multiple ms _ _ hs (
      if-case (All P) (m.dist_mm_q2 == 0) _ _ (λ e. h)
        (λ e. spread-All P multiple _ (360 * multiple) m out (p (ground arith)) h))

  compensate-dropped :
      (multiple : ℕ) (ms : List Measurement) (offset : ℤ) (out : List Measurement)
      → All (λ m. m.dist_mm_q2 ≡ 0) ms
      → compensate G multiple offset ms out ≡ out
  unfolding compensate
  compensate-dropped multiple [] offset out h = refl
  compensate-dropped multiple (m ∷ ms) offset out (e, h) =
      rw e (compensate-dropped multiple ms offset out h)

  compensate-Memᴰ_first :
      (multiple : ℕ) (zs : List Measurement) (m : Measurement) (offset : ℤ) (out : List Measurement)
      → 0 < multiple
      → m.dist_mm_q2 ≢ 0
      → All (λ z. z.dist_mm_q2 ≡ 0) zs
      → length out ≡ 360 * multiple
      → Memᴰ m (compensate G multiple offset (m ∷ zs) out)
  unfolding compensate
  compensate-Memᴰ_first multiple zs m offset out h valid dropped e =
      rw (compensate-dropped multiple zs _ _ dropped) (
        if-case {A = List Measurement} (Memᴰ m) (m.dist_mm_q2 == 0) _ _
          (λ zero'. absurd (ground arith))
          (λ _. spread-Memᴰ multiple _ (360 * multiple) m out h (omega arith) e))

  compensate-Memᴰ :
      (multiple : ℕ) (ms zs : List Measurement) (m : Measurement) (offset : ℤ)
      (out : List Measurement)
      → 0 < multiple
      → m.dist_mm_q2 ≢ 0
      → All (λ z. z.dist_mm_q2 ≡ 0) zs
      → length out ≡ 360 * multiple
      → Memᴰ m (compensate G multiple offset (ms ++ m ∷ zs) out)
  unfolding compensate
  compensate-Memᴰ multiple [] zs m offset out h valid dropped e =
      compensate-Memᴰ_first multiple zs m offset out h valid dropped e
  compensate-Memᴰ multiple (x ∷ ms) zs m offset out h valid dropped e =
      compensate-Memᴰ multiple ms zs m _ _ h valid dropped (
        if-case {A = List Measurement} (λ l. length l ≡ 360 * multiple) (x.dist_mm_q2 == 0) _ _
          (λ _. e) (λ _. length-spread multiple _ (360 * multiple) x out ∙ e))

  -- The compensated scan has `360 * multiple` places. What holds of a blank one and of each valid
  -- measurement holds of all of them: every place is blank or has a valid measurement. And where
  -- there is a valid measurement and the multiple is not zero, the last valid one is in the scan,
  -- also where its angle lies beyond the end.
  pub compensated-All :
      (P : Measurement → Type 0) (multiple : ℕ) (ms zs : List Measurement) (m : Measurement)
      → P blank
      → All (λ n. n.dist_mm_q2 ≢ 0 → P n) (ms ++ m ∷ zs)
      → 0 < multiple
      → m.dist_mm_q2 ≢ 0
      → All (λ z. z.dist_mm_q2 ≡ 0) zs
      → let out = compensated G multiple (ms ++ m ∷ zs) in
        (length out ≡ 360 * multiple) × All P out × Memᴰ m out
  unfolding compensated
  compensated-All P multiple ms zs m b h some_places valid dropped = (
    length-compensate multiple (ms ++ m ∷ zs) (pos 0) _ ∙ length-replicate (360 * multiple) blank,
    compensate-All P multiple (ms ++ m ∷ zs) (pos 0) _ h (All-replicate P (360 * multiple) blank b),
    compensate-Memᴰ multiple ms zs m (pos 0) _ some_places valid dropped
        (length-replicate (360 * multiple) blank),
  )
