-- ===== src/LaserOdom/Grid/Nearest.antt =====
-- GridIndex: the constructor and `find_nearest` together find the nearest point.
use mathlib.Core.List.{Memᴰ}
use physicar_ros.Base.{
  ℕ, ◌<◌, ◌≡◌, ◌⊎◌, inl, inr, refl, sym, ◌∙◌, none, some, List, arith, get_elem?, length,
}
use physicar_ros.Base.Int.{ℤ, pos, negsuc, ◌+ℤ◌, ◌≤ℤ◌}
use physicar_ros.Double.{Double, IsOrdered}
use physicar_ros.LaserOdom.Geometry.{Point2D}
use physicar_ros.LaserOdom.Grid.{grid_index, Best, GridIndex, cell_of, offsets, find_nearest}
use physicar_ros.LaserOdom.Grid.Cells.{some_inj}
use physicar_ros.LaserOdom.Grid.Built.{IsIndex, IsSized, grid_index-IsIndex}
use physicar_ros.LaserOdom.Grid.Phase.{IsFound, IsBeaten, Phase, weaken-Phase, get_elem?-some}
use physicar_ros.LaserOdom.Grid.Visit.{search_rows-Phase}

-- Cells side by side, or the same.
abbrev pub AreAdjacent : ℤ → ℤ → Type 0
AreAdjacent a b = (a ≤ℤ b +ℤ pos 1) × (b ≤ℤ a +ℤ pos 1)

le_ℤ_cases :
    (a b : ℤ) → AreAdjacent a b → (a +ℤ negsuc 0 ≡ b) ⊎ ((a +ℤ pos 0 ≡ b) ⊎ (a +ℤ pos 1 ≡ b))
le_ℤ_cases (pos a) (pos b) adj = ground arith
le_ℤ_cases (pos a) (negsuc b) adj = ground arith
le_ℤ_cases (negsuc a) (pos b) adj = ground arith
le_ℤ_cases (negsuc a) (negsuc b) adj = ground arith

Adjacent-offset : (a b : ℤ) → AreAdjacent a b → (di : ℤ) × Memᴰ di offsets × (a +ℤ di ≡ b)
Adjacent-offset a b adj = elim (le_ℤ_cases a b adj) [
  | inl e ↦ (negsuc 0, Memᴰ.head refl, e)
  | inr (inl e) ↦ (pos 0, Memᴰ.tail (Memᴰ.head refl), e)
  | inr (inr e) ↦ (pos 1, Memᴰ.tail (Memᴰ.tail (Memᴰ.head refl)), e)
]

module _ {G : Type 0} ⦃f : Double G⦄ where
  abbrev pub start : G → Best G
  start limit = record { idx = none; dist2 = limit }

  -- The two cells of the points are adjacent in both directions.
  abbrev pub InReach : GridIndex G → Point2D G → Point2D G → Type 0
  InReach g q p =
      AreAdjacent (cell_of g.inv_cell g.ox q.x) (cell_of g.inv_cell g.ox p.x)
      × AreAdjacent (cell_of g.inv_cell g.oy q.y) (cell_of g.inv_cell g.oy p.y)

  -- The result of a search is a point closer than the limit, or nothing, and no point in reach is
  -- closer.
  abbrev pub IsNearest : GridIndex G → List (Point2D G) → Point2D G → G → Best G → Type 0
  IsNearest g points q limit out =
      IsFound points q limit out
      × ((n : ℕ) (p : Point2D G) → get_elem? points n ≡ some p → InReach g q p → IsBeaten q out p)

  -- A search of an index ends with the nearest point in reach.
  pub find_nearest-IsNearest :
      (laws : IsOrdered G) (g : GridIndex G) (w h : ℕ) (q : Point2D G) (limit : G)
      → IsIndex g w h
      → 0 < length g.pts
      → (out : Best G) × (find_nearest g q (start limit) ≡ some out) × IsNearest g g.pts q limit out
  unfolding find_nearest
  find_nearest-IsNearest laws g w h q limit (grid, placed) some_points =
      let (p₀, at₀) = get_elem?-some g.pts 0 some_points in
      let (out, e, found, _, _) = phase 0 p₀ at₀ in
      (out, e, (found (inl (refl, refl)), λ n p at reach. beaten out e n p at reach))
    where
      phase :
          (n : ℕ) (p : Point2D G)
          → get_elem? g.pts n ≡ some p
          → Phase laws g.pts q limit p
              (InReach g q p)
              (start limit)
              (find_nearest g q (start limit))
      phase n p at =
          let (r, c, er, ec, here) = placed n p at in
          weaken-Phase laws g.pts q limit p (start limit) _
            (λ (ax, ay).
              let (di, mi, ei) = Adjacent-offset _ _ ax in
              let (dj, mj, ej) = Adjacent-offset _ _ ay in ((di, mi, ei ∙ er), (dj, mj, ej ∙ ec)))
            (search_rows-Phase laws g grid q limit here _ _ offsets (start limit))

      beaten :
          (out : Best G)
          → find_nearest g q (start limit) ≡ some out
          → (n : ℕ) (p : Point2D G) → get_elem? g.pts n ≡ some p
          → InReach g q p
          → IsBeaten q out p
      beaten out e n p at reach =
          let (out', e', _, _, visit) = phase n p at in
          let same : out' ≡ out = some_inj (sym e' ∙ e) in rw (← same) (visit reach)

  -- When the points lie inside a grid of a size that an `int` holds, the grid is built, and then a
  -- search from any point ends, without an access outside a vector; conversions to `int` are taken to
  -- give some integer, and the cells next to the query's not to overflow. The search finds nothing,
  -- or a point closer than the limit with its distance, and no point whose cell is the query's or
  -- next to it is closer than what it found, or than the limit if it found nothing.
  pub grid_index-IsNearest :
      (laws : IsOrdered G) (points : List (Point2D G)) (max_dist : G) (w h : ℕ)
      → IsSized points max_dist w h
      → 0 < length points
      → (g : GridIndex G) × (grid_index points max_dist ≡ some g)
        × ((q : Point2D G) (limit : G)
            → (out : Best G) × (find_nearest g q (start limit) ≡ some out)
              × IsNearest g points q limit out)
  grid_index-IsNearest laws points max_dist w h sized some_points =
      let (g, e, pts, index) = grid_index-IsIndex points max_dist w h sized in
      (
        g,
        e,
        λ q limit.
            let (out, found, nearest) =
              find_nearest-IsNearest laws g w h q limit index (rw pts some_points) in
            (out, found, rw pts at nearest),
      )
