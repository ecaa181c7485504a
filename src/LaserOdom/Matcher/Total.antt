-- ===== src/LaserOdom/Matcher/Total.antt =====
-- ScanMatcher::match reads inside its vectors only.
use physicar_ros.Base.{
  ℕ, zero, suc, ◌+◌, ◌-◌, ◌<◌, ◌≡◌, refl, inl, inr, Option, none, some, List, [], ◌∷◌, arith,
  Bool-cases, get_elem?, length, leb, ◌||◌,
}
use physicar_ros.Double.{Double, IsOrdered}
use physicar_ros.LaserOdom.Geometry.{Point2D, Pose2D, Casts, transform}
use physicar_ros.LaserOdom.Grid.{Best, GridIndex}
use physicar_ros.LaserOdom.Grid.Built.{IsIndex}
use physicar_ros.LaserOdom.Grid.Phase.{IsFound, get_elem?-some}
use physicar_ros.LaserOdom.Grid.Nearest.{find_nearest-IsNearest}
use physicar_ros.LaserOdom.Matcher.{
  Eigen, ScanMatcher, Normal, Sums, normal_of, compute_normal, with_nearest, with_normal,
  correspond, max_dist2,
}

get_elem?-lt {ℓ} :
    {A : Type ℓ} (xs : List A) (i : ℕ) {x : A} → get_elem? xs i ≡ some x → i < length xs
get_elem?-lt [] i h = absurd (cc)
get_elem?-lt (x ∷ xs) zero h = omega arith
get_elem?-lt (x ∷ xs) (suc i) h = omega (arith, get_elem?-lt xs i h)

module _ {F G : Type 0} ⦃d : Double F⦄ ⦃f : Double G⦄ ⦃cast : Casts F G⦄ where
  compute_normal-some :
      (pts : List (Point2D G)) (i : ℕ)
      → i < length pts
      → (normal : Option (Normal F)) × (compute_normal pts i ≡ some normal)
  unfolding compute_normal
  compute_normal-some pts i lt = elim (Bool-cases (leb i 0 || leb (length pts) (i + 1))) [
    | inl edge ↦ (none, rw edge refl)
    | inr between ↦
        let (p0, e0) = get_elem?-some pts (i - 1) (omega arith) in
        let (p1, e1) = get_elem?-some pts (i + 1) (ground arith) in
        (normal_of p0 p1, rw (between, e0, e1) refl)
  ]

  module _ (eigen : Eigen F) (matcher : ScanMatcher F) where
    with_nearest-some :
        (target : List (Point2D G)) (pose : Pose2D F) (source sp : Point2D G) (best : Best G)
        (sums : Sums eigen) (limit : G)
        → IsFound target sp limit best
        → (out : Sums eigen) × (with_nearest eigen matcher target pose source sp best best.idx sums
            ≡ some out)
    with_nearest-some target pose source sp best sums limit (inl (e, _)) = (sums, rw e refl)
    with_nearest-some target pose source sp best sums limit (inr (i, p, e, at, _, _)) =
        let (normal, e') = compute_normal-some target i (get_elem?-lt target i at) in
        (with_normal eigen matcher pose source sp p best.dist2 normal sums, rw (e, e', at) refl)

    -- The correspondences of one iteration are computed without a fault, at every pose.
    pub correspond-some :
        (laws : IsOrdered G) (grid : GridIndex G) {w h : ℕ} (pose : Pose2D F)
        (source : List (Point2D G)) (sums : Sums eigen)
        → IsIndex grid w h
        → 0 < length grid.pts
        → (out : Sums eigen) × (correspond eigen matcher grid.pts grid pose source sums ≡ some out)
    unfolding correspond
    correspond-some laws grid pose [] sums index some_points = (sums, refl)
    correspond-some laws grid {w = w} {h = h} pose (p ∷ ps) sums index some_points =
        let limit = max_dist2 matcher in
        let sp = transform pose p in
        let (best, e, (found, _)) =
          find_nearest-IsNearest laws grid w h sp limit index some_points in
        let (next, e') = with_nearest-some grid.pts pose p sp best sums limit found in
        let (out, e'') = correspond-some laws grid pose ps next index some_points in
        (out, rw (e, e') e'')
