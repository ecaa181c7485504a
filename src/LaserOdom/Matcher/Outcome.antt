-- ===== src/LaserOdom/Matcher/Outcome.antt =====
-- ScanMatcher::match ends within its limit of iterations, in one of four ways.
use native.Mathlib.Nat.{add-zero, zero-add}
use physicar_ros.Base.{
  ℕ, zero, suc, ◌+◌, ◌≤◌, ◌<◌, ◌≡◌, refl, inl, inr, true, false, ◌||◌, some, List, arith,
  Bool-cases, length, ltb,
}
use physicar_ros.Base.Int.{pos_part}
use physicar_ros.Double.{Double, IsOrdered}
use physicar_ros.LaserOdom.Geometry.{Point2D, Pose2D, Casts, no_motion}
use physicar_ros.LaserOdom.Grid.{GridIndex, grid_index}
use physicar_ros.LaserOdom.Grid.Built.{IsSized, grid_index-IsIndex}
use physicar_ros.LaserOdom.Matcher.{
  Eigen, ScanMatcher, MatchResult, Sums, no_sums, default_result, solve, correct, fitness_of,
  is_small, correspond, iterate, match,
}
use physicar_ros.LaserOdom.Matcher.Total.{correspond-some}

module _ {F G : Type 0} ⦃d : Double F⦄ ⦃f : Double G⦄ ⦃cast : Casts F G⦄ (eigen : Eigen F)
    (matcher : ScanMatcher F) (grid : GridIndex G) (source : List (Point2D G)) where
  abbrev SumsAt : Pose2D F → Sums eigen → Type 0
  SumsAt pose sums = correspond eigen matcher grid.pts grid pose source (no_sums eigen) ≡ some sums

  -- So many corrections lead from one pose to the other, each from at least six correspondences
  -- and none of them small.
  pub data Corrections (from : Pose2D F) : ℕ → Pose2D F → Type 0 where
    here : Corrections from 0 from
    next :
        {n : ℕ} {pose : Pose2D F} (sums : Sums eigen)
        → Corrections from n pose
        → SumsAt pose sums
        → 6 ≤ sums.n_corr
        → is_small eigen matcher (solve eigen sums) ≡ false
        → Corrections from (n + 1) (correct eigen pose (solve eigen sums))

  -- The ways the iterations end: too few correspondences, and no motion is reported; a small
  -- correction; or the limit.
  pub data Ending (from : Pose2D F) (limit : ℕ) : MatchResult F → Type 0 where
    lost :
        {r : MatchResult F} {n : ℕ} {pose : Pose2D F} (sums : Sums eigen)
        → Corrections from n pose
        → SumsAt pose sums
        → sums.n_corr < 6
        → n < limit
        → r.delta ≡ no_motion
        → r.iterations ≡ n
        → r.converged ≡ false
        → Ending from limit r
    settled :
        {r : MatchResult F} {n : ℕ} {pose : Pose2D F} (sums : Sums eigen)
        → Corrections from n pose
        → SumsAt pose sums
        → 6 ≤ sums.n_corr
        → is_small eigen matcher (solve eigen sums) ≡ true
        → n < limit
        → r.delta ≡ correct eigen pose (solve eigen sums)
        → r.fitness ≡ fitness_of eigen sums
        → r.iterations ≡ n + 1
        → r.converged ≡ true
        → Ending from limit r
    exhausted :
        {r : MatchResult F} {pose : Pose2D F}
        → Corrections from limit pose
        → r.delta ≡ pose
        → r.iterations ≡ limit
        → r.converged ≡ false
        → Ending from limit r

  -- What the iterations leave as it is until they end.
  abbrev IsOpen : ℕ → MatchResult F → Type 0
  IsOpen n r = (r.delta ≡ no_motion) × (r.iterations ≡ n) × (r.converged ≡ false)

  iterate-Ending :
      (from : Pose2D F) (left n : ℕ) (pose : Pose2D F) (result : MatchResult F)
      → ((p : Pose2D F) → (sums : Sums eigen) × SumsAt p sums)
      → Corrections from n pose
      → IsOpen n result
      → (r : MatchResult F) × (iterate eigen matcher grid.pts grid source left n pose result
          ≡ some r)
        × Ending from (n + left) r
  unfolding iterate
  iterate-Ending from zero n pose result total so_far (delta, count, conv) =
      rw add-zero (record result { delta = pose }, refl, exhausted so_far refl count conv)
  iterate-Ending from (suc left) n pose result total so_far (delta, count, conv) =
      let (sums, e) = total pose in
      rw e (elim (Bool-cases (ltb sums.n_corr 6)) [
        | inl few ↦ rw few (
          record result { converged = false; iterations = n },
          refl,
          lost sums so_far e (ground arith) (omega arith) delta refl refl,
        )
        | inr enough ↦ rw enough (elim (Bool-cases (is_small eigen matcher (solve eigen sums))) [
          | inl small ↦ rw small (
            _,
            refl,
            settled sums so_far e (ground arith) small (omega arith) refl refl refl refl,
          )
          | inr large ↦
              let shift : n + 1 + left ≡ n + suc left = omega arith in
              rw (large, ← shift)
                (iterate-Ending from left (n + 1) (correct eigen pose (solve eigen sums))
                  (record result { fitness = fitness_of eigen sums; iterations = n + 1 }) total
                  (next sums so_far e (ground arith) large) (delta, refl, conv))
        ])
      ])

module _ {F G : Type 0} ⦃d : Double F⦄ ⦃f : Double G⦄ ⦃cast : Casts F G⦄ (eigen : Eigen F)
    (matcher : ScanMatcher F) (laws : IsOrdered G) where
  -- The way from a grid of the target to the result of the match.
  abbrev pub Matched : List (Point2D G) → List (Point2D G) → Pose2D F → MatchResult F → Type 0
  Matched target source guess r =
      (grid : GridIndex G) × (grid_index target (cast.narrow matcher.max_correspondence_dist)
        ≡ some grid)
      × (grid.pts ≡ target)
      × Ending eigen matcher grid source guess (pos_part matcher.max_iterations) r

  -- When the target's points fit a grid and both scans have at least ten points, a match ends within the
  -- limit of iterations, without an access outside a vector; conversions to `int` are taken to give
  -- some integer, and the cells next to a query's not to overflow. It reports no motion, not
  -- converged, where an iteration had fewer than six correspondences, and otherwise the guess with the
  -- corrections of all iterations, converged exactly if the last correction was below the threshold.
  pub match-Ending :
      (target source : List (Point2D G)) (guess : Pose2D F) (w h : ℕ)
      → IsSized target (cast.narrow matcher.max_correspondence_dist) w h
      → 10 ≤ length target
      → 10 ≤ length source
      → (r : MatchResult F) × (match eigen matcher target source guess ≡ some r)
        × Matched target source guess r
  unfolding match
  match-Ending target source guess w h sized ht hs =
      let dist = cast.narrow matcher.max_correspondence_dist in
      let (grid, eg, pts, index) = grid_index-IsIndex target dist w h sized in
      let some_points : 0 < length grid.pts = rw pts (omega arith) in
      let total = λ (p : Pose2D F).
        correspond-some eigen matcher laws grid p source (no_sums eigen) index some_points in
      let (r, e, ending) =
        iterate-Ending eigen matcher grid source guess (pos_part matcher.max_iterations) 0 guess
          default_result total here (refl, refl, refl) in
      (r, rw (enough ht hs, eg) (rw pts at e), (grid, eg, pts, rw zero-add at ending))
    where
      enough : {m n : ℕ} → 10 ≤ m → 10 ≤ n → (ltb m 10 || ltb n 10) ≡ false
      enough p q = ground arith
