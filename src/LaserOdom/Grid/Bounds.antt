-- ===== src/LaserOdom/Grid/Bounds.antt =====
-- GridIndex: no point lies outside the cells, by what IEEE 754 says of rounding.
use physicar_ros.Base.{
  ℕ, ◌+◌, ◌*◌, ◌^◌, ◌<◌, ◌≤◌, ◌≡◌, sym, true, List, [], ◌∷◌, some, arith, length, All,
}
use physicar_ros.Base.Int.{pos, ◌+ℤ◌}
use physicar_ros.Double.{Double, ◌≼◌, IsNum, IsOrdered, min, max, le_of_lt, le_of_not_lt}
use physicar_ros.LaserOdom.Geometry.{Point2D}
use physicar_ros.LaserOdom.Grid.{
  Box, extend, GridIndex, bounding_box, no_box, shape, cell_of, grid_index,
}
use physicar_ros.LaserOdom.Grid.Built.{IsSized, IsInside, IsIndex, grid_index-IsIndex}

-- Differences, products with a positive factor and truncation keep the order. The truncation is
-- used up to 2^24, below which `float` has all integers.
pub record IsMonotone (G : Type 0) ⦃f : Double G⦄ : Type 0 where
  pub sub_mono : (x y z : G) → x ≼ y → f.is_finite z ≡ true → f.sub x z ≼ f.sub y z
  pub sub_nonneg : (x z : G) → z ≼ x → f.is_finite z ≡ true → f.literal 0 0 ≼ f.sub x z
  pub sub-le : (x c : G) → IsNum x → f.literal 0 0 ≼ c → f.is_finite c ≡ true → f.sub x c ≼ x
  pub mul_mono :
      (x y k : G)
      → f.literal 0 0 ≼ x
      → x ≼ y
      → f.lt (f.literal 0 0) k ≡ true
      → f.is_finite k ≡ true
      → f.mul x k ≼ f.mul y k
  pub mul_nonneg :
      (x k : G)
      → f.literal 0 0 ≼ x
      → f.lt (f.literal 0 0) k ≡ true
      → f.is_finite k ≡ true
      → f.literal 0 0 ≼ f.mul x k
  pub trunc_mono :
      (x y : G) (n : ℕ)
      → n ≤ 2 ^ 24
      → f.literal 0 0 ≼ x
      → x ≼ y
      → y ≼ f.of_ℤ (pos n)
      → (a : ℕ) × (b : ℕ) × (f.trunc x ≡ pos a) × (f.trunc y ≡ pos b) × (a ≤ b) × (b ≤ n)
  pub num_far : IsNum (f.literal 1_000_000_000 0) × IsNum (f.neg (f.literal 1_000_000_000 0))

plus_two : (b : ℕ) → pos b +ℤ pos 2 ≡ pos (b + 2)
plus_two b = ground arith

small : (w h m n : ℕ) → w ≤ m → h ≤ n → (m + 2) * (n + 2) < 2 ^ 31 → (w + 2) * (h + 2) < 2 ^ 31
small w h m n p q r = grind arith

module _ {G : Type 0} ⦃f : Double G⦄ where
  -- Neither coordinate is NaN.
  abbrev pub HasNumbers : Point2D G → Type 0
  HasNumbers p = IsNum p.x × IsNum p.y

  -- The offset, scale and extent along one axis are in range: the cells have a positive size, and
  -- there are at most `n` of them, and two more, between the ends.
  pub record IsInRange (o hi inv_cell : G) (n : ℕ) : Type 0 where
    pub offset : f.is_finite o ≡ true
    pub positive : f.lt (f.literal 0 0) inv_cell ≡ true
    pub finite : f.is_finite inv_cell ≡ true
    pub extent : f.mul (f.sub hi o) inv_cell ≼ f.of_ℤ (pos n)
    pub few : n ≤ 2 ^ 24

  abbrev IsProper : Box G → Type 0
  IsProper b = IsNum b.minx × IsNum b.miny × IsNum b.maxx × IsNum b.maxy

  abbrev IsWithin : Box G → Point2D G → Type 0
  IsWithin b p = (b.minx ≼ p.x) × (b.miny ≼ p.y) × (p.x ≼ b.maxx) × (p.y ≼ b.maxy)

  abbrev IsWider : Box G → Box G → Type 0
  IsWider c b = (c.minx ≼ b.minx) × (c.miny ≼ b.miny) × (b.maxx ≼ c.maxx) × (b.maxy ≼ c.maxy)

  -- All coordinates between the ends have a cell below the bound.
  abbrev HasCells : G → G → G → G → ℕ → Type 0
  HasCells inv_cell o lo hi w =
      (v : G) → lo ≼ v → v ≼ hi → (a : ℕ) × (cell_of inv_cell o v ≡ pos a) × (a < w)

  all_inside_lem :
      (s : GridIndex G) (box : Box G) (w h : ℕ)
      → HasCells s.inv_cell s.ox box.minx box.maxx w
      → HasCells s.inv_cell s.oy box.miny box.maxy h
      → (qs : List (Point2D G)) → All (IsWithin box) qs
      → All (IsInside s w h) qs
  all_inside_lem s box w h cx cy [] within = tt
  all_inside_lem s box w h cx cy (q ∷ qs) ((lx, ly, ux, uy), rest) =
      let (r, er, lr) = cx q.x lx ux in
      let (c, ec, lc) = cy q.y ly uy in
      ((r, c, er, ec, lr, lc), all_inside_lem s box w h cx cy qs rest)

  module _ (laws : IsOrdered G) where
    open laws use {num_of_le, le_trans}

    min-le_both : (a b : G) → IsNum a → IsNum b → (min a b ≼ a) × (min a b ≼ b) × IsNum (min a b)
    unfolding min
    min-le_both a b na nb = ground (arith, le_of_lt laws b a, le_of_not_lt laws b a nb na)

    le-max_both : (a b : G) → IsNum a → IsNum b → (a ≼ max a b) × (b ≼ max a b) × IsNum (max a b)
    unfolding max
    le-max_both a b na nb = ground (arith, le_of_lt laws a b, le_of_not_lt laws a b na nb)

    bounding_box-IsWithin :
        (b : Box G) (ps : List (Point2D G))
        → IsProper b
        → All HasNumbers ps
        → IsWider (bounding_box b ps) b × All (IsWithin (bounding_box b ps)) ps
    unfolding bounding_box
    bounding_box-IsWithin b [] proper nums = (proper, tt)
    bounding_box-IsWithin b (p ∷ ps) (nx, ny, mx, my) ((px, py), nums) =
        let (ax, bx, cx) = min-le_both b.minx p.x nx px in
        let (ay, by, cy) = min-le_both b.miny p.y ny py in
        let (dx, ex, gx) = le-max_both b.maxx p.x mx px in
        let (dy, ey, gy) = le-max_both b.maxy p.y my py in
        let ((wx, wy, vx, vy), rest) =
          bounding_box-IsWithin (extend b p) ps (cx, cy, gx, gy) nums in
        (
          (le_trans _ _ _ wx ax, le_trans _ _ _ wy ay, le_trans _ _ _ dx vx, le_trans _ _ _ dy vy),
          (
            (
              le_trans _ _ _ wx bx,
              le_trans _ _ _ wy by,
              le_trans _ _ _ ex vx,
              le_trans _ _ _ ey vy,
            ),
            rest,
          ),
        )

    module _ (mono : IsMonotone G) where
      -- Along one axis: a coordinate between the offset and the far end has a cell within the width.
      cell_of-bounds :
          (o lo hi v inv_cell : G) (n : ℕ)
          → IsInRange o hi inv_cell n
          → o ≼ lo
          → lo ≼ v
          → v ≼ hi
          → (a : ℕ) × (b : ℕ) × (cell_of inv_cell o v ≡ pos a)
            × (cell_of inv_cell o hi ≡ pos b)
            × (a ≤ b)
            × (b ≤ n)
      cell_of-bounds o lo hi v inv_cell n range below lower upper =
          let from = mono.sub_nonneg v o (le_trans o lo v below lower) range.offset in
          let order = mono.sub_mono v hi o upper range.offset in
          mono.trunc_mono _ _ n range.few (mono.mul_nonneg _ _ from range.positive range.finite)
            (mono.mul_mono _ _ _ from order range.positive range.finite) range.extent

      axis :
          (lo hi max_dist inv_cell : G) (n : ℕ)
          → IsInRange (f.sub lo max_dist) hi inv_cell n
          → f.literal 0 0 ≼ max_dist
          → f.is_finite max_dist ≡ true
          → lo ≼ hi
          → (b : ℕ) × (cell_of inv_cell (f.sub lo max_dist) hi ≡ pos b)
            × (b ≤ n)
            × HasCells inv_cell (f.sub lo max_dist) lo hi (b + 2)
      axis lo hi max_dist inv_cell n range h₀ hf order =
          let o = f.sub lo max_dist in
          let below : o ≼ lo = mono.sub-le lo max_dist (num_of_le lo hi order).0 h₀ hf in
          let (_, b, _, e, _, few) =
            cell_of-bounds o lo hi hi inv_cell n range below order (num_of_le lo hi order).1 in
          (
            b,
            e,
            few,
            λ v p q.
                let (a, b', ea, eb, le, _) = cell_of-bounds o lo hi v inv_cell n range below p q in
                (a, ea, ground (arith, sym e, eb)),
          )

      -- The box of at least one point, cut into cells, has all points inside.
      pub shape-IsSized :
          (points : List (Point2D G)) (max_dist : G) (m n : ℕ)
          → All HasNumbers points
          → 0 < length points
          → f.literal 0 0 ≼ max_dist
          → f.is_finite max_dist ≡ true
          → let s = shape points max_dist in
            let box = bounding_box no_box points in
            IsInRange s.ox box.maxx s.inv_cell m
            → IsInRange s.oy box.maxy s.inv_cell n
            → (m + 2) * (n + 2) < 2 ^ 31
            → (w : ℕ) × (h : ℕ) × IsSized points max_dist w h
      unfolding shape
      shape-IsSized [] max_dist m n nums some_points h₀ hf rx ry fits = absurd (omega arith)
      shape-IsSized (p ∷ ps) max_dist m n nums some_points h₀ hf rx ry fits =
          let box = bounding_box no_box (p ∷ ps) in
          let (nf, nn) = mono.num_far in
          let (_, within) = bounding_box-IsWithin no_box (p ∷ ps) (nf, nf, nn, nn) nums in
          let (lx, ly, ux, uy) = within.0 in
          let (w, ex, wm, inx) =
            axis box.minx box.maxx max_dist _ m rx h₀ hf (le_trans _ p.x _ lx ux) in
          let (h, ey, hn, iny) =
            axis box.miny box.maxy max_dist _ n ry h₀ hf (le_trans _ p.y _ ly uy) in
          (
            w + 2,
            h + 2,
            record {
              width = rw ex (plus_two w);
              height = rw ey (plus_two h);
              fits = small w h m n wm hn fits;
              all_inside =
                  all_inside_lem (shape (p ∷ ps) max_dist) box (w + 2) (h + 2) inx iny (p ∷ ps)
                    within;
            },
          )

      -- A grid over at least one point, none with a NaN coordinate, has every point's cell inside
      -- and is built without an access outside its vectors: when the limit of the distance is
      -- finite and not negative, the offsets and the scale are finite and the scale positive, the
      -- box has at most `m` by `n` cells by the rounded arithmetic, and an `int` holds their number.
      pub grid_index-InBounds :
          (points : List (Point2D G)) (max_dist : G) (m n : ℕ)
          → All HasNumbers points
          → 0 < length points
          → f.literal 0 0 ≼ max_dist
          → f.is_finite max_dist ≡ true
          → let s = shape points max_dist in
            let box = bounding_box no_box points in
            IsInRange s.ox box.maxx s.inv_cell m
            → IsInRange s.oy box.maxy s.inv_cell n
            → (m + 2) * (n + 2) < 2 ^ 31
            → (w : ℕ) × (h : ℕ) × All (IsInside (shape points max_dist) w h) points
              × (g : GridIndex G) × (grid_index points max_dist ≡ some g)
              × IsIndex g w h
      grid_index-InBounds points max_dist m n nums some_points h₀ hf rx ry fits =
          let (w, h, sized) = shape-IsSized points max_dist m n nums some_points h₀ hf rx ry fits in
          let (g, e, _, index) = grid_index-IsIndex points max_dist w h sized in
          (w, h, sized.all_inside, g, e, index)
