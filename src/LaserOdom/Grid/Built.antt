-- ===== src/LaserOdom/Grid/Built.antt =====
-- GridIndex: what the constructor makes of points that lie inside its bounding box.
use native.Mathlib.Nat.{zero-add}
use physicar_ros.Base.{
  ℕ, zero, suc, ◌+◌, ◌*◌, ◌^◌, ◌<◌, ◌≡◌, refl, sym, ◌∙◌, some, List, [], ◌∷◌, arith, get_elem?,
  length, All,
}
use physicar_ros.Base.Int.{ℤ, pos, ◌*ℤ◌}
use physicar_ros.Double.{Double}
use physicar_ros.LaserOdom.Geometry.{Point2D}
use physicar_ros.LaserOdom.Grid.{
  GridIndex, resize, shape, grid_index, filled, fill, empty_rows, cell_of, cell_index,
}
use physicar_ros.LaserOdom.Grid.Cells.{some_inj}
use physicar_ros.LaserOdom.Grid.Fill.{
  HasPlace, fill-eq-some, length-fill, fill-Holds, fill-AllBelow, length-empty_rows,
  empty_rows-AllBelow,
}
use physicar_ros.LaserOdom.Grid.Visit.{IsGrid, IsPlaced, place, in_room}

times : (w h : ℕ) → pos w *ℤ pos h ≡ pos (w * h)
times w h = ground arith

resize-pos : (k : ℕ) → k < 2 ^ 31 → resize (pos k) ≡ some (empty_rows k)
resize-pos k fits = ground arith

resize-product :
    (m n : ℤ) (w h : ℕ)
    → m ≡ pos w
    → n ≡ pos h
    → w * h < 2 ^ 31
    → resize (m *ℤ n) ≡ some (empty_rows (w * h))
resize-product m n w h em en fits = rw (em, en, times w h) (resize-pos (w * h) fits)

module _ {G : Type 0} ⦃f : Double G⦄ where
  -- The cell of a point is inside a grid of `w` by `h` cells.
  abbrev pub IsInside : GridIndex G → ℕ → ℕ → Point2D G → Type 0
  IsInside g w h p =
      (r : ℕ) × (c : ℕ) × (cell_of g.inv_cell g.ox p.x ≡ pos r)
      × (cell_of g.inv_cell g.oy p.y ≡ pos c)
      × (r < w)
      × (c < h)

  -- The bounding box has `w` by `h` cells, an `int` holds their number, and all points are inside.
  pub record IsSized (points : List (Point2D G)) (max_dist : G) (w h : ℕ) : Type 0 where
    pub width : (shape points max_dist).nx ≡ pos w
    pub height : (shape points max_dist).ny ≡ pos h
    pub fits : w * h < 2 ^ 31
    pub all_inside : All (IsInside (shape points max_dist) w h) points

  -- What the constructor makes of the points.
  abbrev pub IsIndex : GridIndex G → ℕ → ℕ → Type 0
  IsIndex g w h =
      IsGrid g w h
      × ((n : ℕ) (p : Point2D G)
          → get_elem? g.pts n ≡ some p
          → (r : ℕ) × (c : ℕ) × (cell_of g.inv_cell g.ox p.x ≡ pos r)
            × (cell_of g.inv_cell g.oy p.y ≡ pos c)
            × IsPlaced g w h n r c p)

  inside-HasPlace :
      (g : GridIndex G) (w h : ℕ) (ps : List (Point2D G))
      → g.ny ≡ pos h
      → All (IsInside g w h) ps
      → All (HasPlace (cell_index g.inv_cell g.ox g.oy g.ny) (w * h)) ps
  inside-HasPlace g w h [] eh all = tt
  inside-HasPlace g w h (p ∷ ps) eh ((r, c, er, ec, lr, lc), rest) = (
    (r * h + c, rw (er, ec, eh) (place r h c), in_room r c w h lr lc),
    inside-HasPlace g w h ps eh rest,
  )

  All-at :
      (P : Point2D G → Type 0) (ps : List (Point2D G)) (n : ℕ) {p : Point2D G}
      → All P ps
      → get_elem? ps n ≡ some p
      → P p
  All-at P [] n all e = absurd (cc)
  All-at P (q ∷ ps) zero (here, later) e = rw (← some_inj e) here
  All-at P (q ∷ ps) (suc n) (here, later) e = All-at P ps n later e

  filled-IsIndex :
      (s : GridIndex G) (w h : ℕ)
      → s.nx ≡ pos w
      → s.ny ≡ pos h
      → w * h < 2 ^ 31
      → All (IsInside s w h) s.pts
      → (cells : List (List ℕ)) × (filled s ≡ some (record s { cells = cells }))
        × IsIndex (record s { cells = cells }) w h
  filled-IsIndex s w h ew eh fits all =
      let rows = empty_rows (w * h) in
      let index = cell_index s.inv_cell s.ox s.oy s.ny in
      let room = length-empty_rows (w * h) in
      let (cells, e) =
        fill-eq-some index 0 s.pts rows (rw room (inside-HasPlace s w h s.pts eh all)) in
      (
        cells,
        rw (resize-product s.nx s.ny w h ew eh fits, e) refl,
        (
          record {
            width = ew;
            height = eh;
            room = length-fill index 0 s.pts rows e ∙ room;
            numbers =
                fill-AllBelow index (length s.pts) 0 s.pts rows e (omega arith)
                  (empty_rows-AllBelow (length s.pts) (w * h));
          },
          λ n p at. placed-at cells e n p at,
        ),
      )
    where
      placed-at :
          (cells : List (List ℕ))
          → fill (cell_index s.inv_cell s.ox s.oy s.ny) 0 s.pts (empty_rows (w * h)) ≡ some cells
          → (n : ℕ) (p : Point2D G) → get_elem? s.pts n ≡ some p
          → (r : ℕ) × (c : ℕ) × (cell_of s.inv_cell s.ox p.x ≡ pos r)
            × (cell_of s.inv_cell s.oy p.y ≡ pos c)
            × IsPlaced (record s { cells = cells }) w h n r c p
      placed-at cells e n p at =
          let (r, c, er, ec, lr, lc) = All-at (IsInside s w h) s.pts n all at in
          let index = cell_index s.inv_cell s.ox s.oy s.ny in
          let (k, is_k, held) = fill-Holds index 0 s.pts (empty_rows (w * h)) n e at in
          let eq : pos k ≡ pos (r * h + c) = sym is_k ∙ rw (er, ec, eh) (place r h c) in
          let same : k ≡ r * h + c = cc (eq) in
          (
            r,
            c,
            er,
            ec,
            record { at = at; row = lr; column = lc; held = rw (same, zero-add) at held },
          )

  -- The constructor succeeds, and the cells hold all points.
  pub grid_index-IsIndex :
      (points : List (Point2D G)) (max_dist : G) (w h : ℕ)
      → IsSized points max_dist w h
      → (g : GridIndex G) × (grid_index points max_dist ≡ some g) × (g.pts ≡ points) × IsIndex g w h
  unfolding grid_index shape
  grid_index-IsIndex points max_dist w h sized =
      let s = shape points max_dist in
      let (cells, e, index) =
        filled-IsIndex s w h sized.width sized.height sized.fits sized.all_inside in
      (record s { cells = cells }, e, refl, index)
