-- ===== src/LaserOdom/Matcher.antt =====
-- scan_matcher.hpp: ScanMatcher::match and compute_normal. The matrices are Eigen's, which is not
-- code of the repository: `Eigen` lists what the matcher calls. `none` is an access outside a vector.
pub mod Total
pub mod Outcome
use physicar_ros.Base.{
  ℕ, zero, suc, ◌+◌, ◌-◌, ◌≡◌, Bool, true, false, ◌||◌, Option, none, some, List, [], ◌∷◌, map,
  if◌then◌else◌, get_elem?, length, ltb, leb,
}
use physicar_ros.Base.Int.{ℤ, pos, pos_part}
use physicar_ros.Double.{Double}
use physicar_ros.LaserOdom.Geometry.{Point2D, Pose2D, Casts, no_motion, transform}
use physicar_ros.LaserOdom.Grid.{◌>>=◌, Best, GridIndex, grid_index, find_nearest}

-- `outer v w` is `v * w.transpose()`, and `ldlt_solve m v` is `m.ldlt().solve(v)`.
pub record Eigen (F : Type 0) : Type 1 where
  pub Matrix3 : Type 0
  pub Vector3 : Type 0
  pub zero_matrix : Matrix3
  pub zero_vector : Vector3
  pub vector : F → F → F → Vector3
  pub add_matrix : Matrix3 → Matrix3 → Matrix3
  pub add_vector : Vector3 → Vector3 → Vector3
  pub scale : F → Vector3 → Vector3
  pub neg_vector : Vector3 → Vector3
  pub outer : Vector3 → Vector3 → Matrix3
  pub ldlt_solve : Matrix3 → Vector3 → Vector3
  pub at0 : Vector3 → F
  pub at1 : Vector3 → F
  pub at2 : Vector3 → F

-- The parameters of `ScanMatcher`.
pub record ScanMatcher (F : Type 0) : Type 0 where
  pub max_iterations : ℤ
  pub convergence_threshold : F
  pub max_correspondence_dist : F
  pub outlier_ratio : F

pub record MatchResult (F : Type 0) : Type 0 where
  pub delta : Pose2D F
  pub fitness : F
  pub iterations : ℕ
  pub converged : Bool

pub record Normal (F : Type 0) : Type 0 where
  pub x : F
  pub y : F

-- The sums of one iteration.
pub record System (F M V : Type 0) : Type 0 where
  pub h : M
  pub b : V
  pub n_corr : ℕ
  pub residual_sum : F

module _ {F : Type 0} ⦃d : Double F⦄ where
  abbrev pub default_result : MatchResult F
  default_result = record {
    delta = no_motion;
    fitness = d.literal 1_000_000_000 0;
    iterations = 0;
    converged = false;
  }

  -- The two lengths at which a line is not used.
  abbrev pub is_unusable : F → Bool
  is_unusable len = d.lt len (d.literal 1 6) || d.lt (d.literal 5 1) len

  module _ (eigen : Eigen F) where
    open eigen use {
      Matrix3, Vector3, zero_matrix, zero_vector, neg_vector, ldlt_solve, at0, at1, at2,
    }

    abbrev pub Sums : Type 0
    Sums = System F Matrix3 Vector3

    abbrev pub no_sums : Sums
    no_sums = record { h = zero_matrix; b = zero_vector; n_corr = 0; residual_sum = d.literal 0 0 }

    -- The correction that solves the system.
    abbrev pub solve : Sums → Vector3
    solve sums = ldlt_solve sums.h (neg_vector sums.b)

    abbrev pub correct : Pose2D F → Vector3 → Pose2D F
    correct pose v = record {
      x = d.add pose.x (at0 v);
      y = d.add pose.y (at1 v);
      yaw = d.add pose.yaw (at2 v);
    }

    abbrev pub fitness_of : Sums → F
    fitness_of sums = d.div sums.residual_sum (d.of_ℤ (pos sums.n_corr))

    abbrev pub is_small : ScanMatcher F → Vector3 → Bool
    is_small matcher v =
        d.lt (d.add (d.add (d.abs (at0 v)) (d.abs (at1 v))) (d.abs (at2 v)))
          matcher.convergence_threshold

module _ {F G : Type 0} ⦃d : Double F⦄ ⦃f : Double G⦄ ⦃cast : Casts F G⦄ where
  open cast use {widen, narrow}

  abbrev pub normal_of : Point2D G → Point2D G → Option (Normal F)
  normal_of p0 p1 =
      let dx = widen (f.sub p1.x p0.x) in
      let dy = widen (f.sub p1.y p0.y) in
      let len = d.sqrt (d.add (d.mul dx dx) (d.mul dy dy)) in
      if is_unusable len then none else some (record { x = d.div (d.neg dy) len; y = d.div dx len })

  -- The outer option is the access, the inner one what the function returns.
  unfoldable pub compute_normal : List (Point2D G) → ℕ → Option (Option (Normal F))
  compute_normal pts idx =
      if leb idx 0 || leb (length pts) (idx + 1)
      then some none
      else get_elem? pts (idx - 1) >>= λ p0.
          get_elem? pts (idx + 1) >>= λ p1. some (normal_of p0 p1)

  -- The Cauchy weight.
  abbrev pub weight : ScanMatcher F → F → G → F
  weight matcher residual best_dist2 =
      let s = d.mul matcher.outlier_ratio (widen (f.sqrt best_dist2)) in
      d.div (d.literal 1 0) (
        d.add (d.literal 1 0) (d.div (d.mul residual residual) (d.add (d.mul s s) (d.literal 1 9))))

  abbrev pub max_dist2 : ScanMatcher F → G
  max_dist2 matcher = narrow (d.mul matcher.max_correspondence_dist matcher.max_correspondence_dist)

  module _ (eigen : Eigen F) (matcher : ScanMatcher F) where
    open eigen use {vector, add_matrix, add_vector, scale, outer}

    -- A correspondence: the point of the source, the same after the transformation, its nearest
    -- point of the target, the normal there and the squared distance.
    unfoldable pub accumulate :
        Pose2D F → Point2D G → Point2D G → Point2D G → Normal F → G → Sums eigen → Sums eigen
    accumulate pose source sp tp normal best_dist2 sums =
        let ex = d.sub (widen sp.x) (widen tp.x) in
        let ey = d.sub (widen sp.y) (widen tp.y) in
        let residual = d.add (d.mul normal.x ex) (d.mul normal.y ey) in
        let w = weight matcher residual best_dist2 in
        let sx = widen source.x in
        let sy = widen source.y in
        let c = d.cos pose.yaw in
        let s = d.sin pose.yaw in
        let across = d.sub (d.mul (d.neg s) sx) (d.mul c sy) in
        let along = d.sub (d.mul c sx) (d.mul s sy) in
        let dyaw_term = d.add (d.mul normal.x across) (d.mul normal.y along) in
        let j = vector normal.x normal.y dyaw_term in
        record {
          h = add_matrix sums.h (outer (scale w j) j);
          b = add_vector sums.b (scale (d.mul w residual) j);
          n_corr = sums.n_corr + 1;
          residual_sum = d.add sums.residual_sum (d.abs residual);
        }

    abbrev pub with_normal :
        Pose2D F
        → Point2D G
        → Point2D G
        → Point2D G
        → G
        → Option (Normal F)
        → Sums eigen
        → Sums eigen
    with_normal pose source sp tp best_dist2 none sums = sums
    with_normal pose source sp tp best_dist2 (some normal) sums =
        accumulate pose source sp tp normal best_dist2 sums

    abbrev pub with_nearest :
        List (Point2D G)
        → Pose2D F
        → Point2D G
        → Point2D G
        → Best G
        → Option ℕ
        → Sums eigen
        → Option (Sums eigen)
    with_nearest target pose source sp best none sums = some sums
    with_nearest target pose source sp best (some i) sums = compute_normal target i >>= λ normal.
        get_elem? target i >>= λ tp. some (with_normal pose source sp tp best.dist2 normal sums)

    -- The loop over the points of the source.
    unfoldable pub correspond :
        List (Point2D G)
        → GridIndex G
        → Pose2D F
        → List (Point2D G)
        → Sums eigen
        → Option (Sums eigen)
    correspond target grid pose [] sums = some sums
    correspond target grid pose (source ∷ rest) sums =
        let sp = transform pose source in
        find_nearest grid sp (record { idx = none; dist2 = max_dist2 matcher }) >>= λ best.
        with_nearest target pose source sp best best.idx sums >>= λ next.
        correspond target grid pose rest next

    -- The iterations: how many are left and done, the pose and the result so far.
    unfoldable pub iterate :
        List (Point2D G)
        → GridIndex G
        → List (Point2D G)
        → ℕ
        → ℕ
        → Pose2D F
        → MatchResult F
        → Option (MatchResult F)
    iterate target grid source zero iter pose result = some (record result { delta = pose })
    iterate target grid source (suc left) iter pose result =
        correspond target grid pose source (no_sums eigen) >>= λ sums.
        let v = solve eigen sums in
        let pose' = correct eigen pose v in
        let result' = record result { fitness = fitness_of eigen sums; iterations = iter + 1 } in
        let rest = iterate target grid source left (iter + 1) pose' result' in
        if ltb sums.n_corr 6
        then some (record result { converged = false; iterations = iter })
        else if is_small eigen matcher v
        then some (record result' { converged = true; delta = pose' })
        else rest

    unfoldable pub match : List (Point2D G) → List (Point2D G) → Pose2D F → Option (MatchResult F)
    match target source initial_guess =
        if ltb (length target) 10 || ltb (length source) 10
        then some default_result
        else grid_index target (narrow matcher.max_correspondence_dist) >>= λ grid.
            iterate target grid source (pos_part matcher.max_iterations) 0 initial_guess
              default_result
