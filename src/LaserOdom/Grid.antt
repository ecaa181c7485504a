-- ===== src/LaserOdom/Grid.antt =====
-- scan_matcher.hpp: GridIndex. `none` is an access outside a vector, or an `int` that overflows where
-- the size of the grid is computed.
pub mod Cells
pub mod Fill
pub mod Phase
pub mod Visit
pub mod Built
pub mod Nearest
pub mod Bounds
use physicar_ros.Base.{
  ℕ, zero, suc, ◌+◌, ◌^◌, ◌≡◌, Bool, true, false, ◌||◌, Option, none, some, List, [], ◌∷◌, ◌++◌,
  if◌then◌else◌, get_elem?,
}
use physicar_ros.Base.Int.{ℤ, pos, negsuc, ◌+ℤ◌, ◌*ℤ◌, ltb_ℤ, leb_ℤ}
use physicar_ros.Double.{Double, min, max}
use physicar_ros.LaserOdom.Geometry.{Point2D}

infixl 5 ◌>>=◌
abbrev pub ◌>>=◌ {ℓ κ} : {A : Type ℓ} {B : Type κ} → Option A → (A → Option B) → Option B
none >>= k = none
some a >>= k = k a

pub record Box (G : Type 0) : Type 0 where
  pub minx : G
  pub miny : G
  pub maxx : G
  pub maxy : G

pub record GridIndex (G : Type 0) : Type 0 where
  pub cell_size : G
  pub inv_cell : G
  pub ox : G
  pub oy : G
  pub nx : ℤ
  pub ny : ℤ
  pub cells : List (List ℕ)
  pub pts : List (Point2D G)

-- `idx` is `none` for -1.
pub record Best (G : Type 0) : Type 0 where
  pub idx : Option ℕ
  pub dist2 : G

unfoldable pub push_back : List (List ℕ) → ℕ → ℕ → Option (List (List ℕ))
push_back [] k i = none
push_back (row ∷ rows) zero i = some ((row ++ (i ∷ [])) ∷ rows)
push_back (row ∷ rows) (suc k) i = push_back rows k i >>= λ rest. some (row ∷ rest)

-- `vector::resize` of an empty vector.
unfoldable pub empty_rows : ℕ → List (List ℕ)
empty_rows zero = []
empty_rows (suc n) = [] ∷ empty_rows n

-- A vector's element at an `int`.
abbrev pub at_int : ℤ → Option ℕ
at_int (pos k) = some k
at_int (negsuc k) = none

-- `ri < 0 || ri >= nx`.
abbrev pub is_outside : ℤ → ℤ → Bool
is_outside i n = ltb_ℤ i (pos 0) || leb_ℤ n i

abbrev pub resize : ℤ → Option (List (List ℕ))
resize n = if ltb_ℤ n (pos (2 ^ 31)) then at_int n >>= (λ k. some (empty_rows k)) else none

abbrev pub offsets : List ℤ
offsets = negsuc 0 ∷ pos 0 ∷ pos 1 ∷ []

module _ {G : Type 0} ⦃f : Double G⦄ where
  abbrev pub cell_of : G → G → G → ℤ
  cell_of inv_cell o v = f.trunc (f.mul (f.sub v o) inv_cell)

  abbrev pub extend : Box G → Point2D G → Box G
  extend b p = record {
    minx = min b.minx p.x;
    miny = min b.miny p.y;
    maxx = max b.maxx p.x;
    maxy = max b.maxy p.y;
  }

  unfoldable pub bounding_box : Box G → List (Point2D G) → Box G
  bounding_box b [] = b
  bounding_box b (p ∷ ps) = bounding_box (extend b p) ps

  abbrev pub no_box : Box G
  no_box =
      let far = f.literal 1_000_000_000 0 in
      record { minx = far; miny = far; maxx = f.neg far; maxy = f.neg far }

  -- The place of a point in `cells`.
  abbrev pub cell_index : G → G → G → ℤ → Point2D G → ℤ
  cell_index inv_cell ox oy ny p = cell_of inv_cell ox p.x *ℤ ny +ℤ cell_of inv_cell oy p.y

  -- The loop that fills the cells, from the point with number `i` on.
  unfoldable pub fill :
      (Point2D G → ℤ) → ℕ → List (Point2D G) → List (List ℕ) → Option (List (List ℕ))
  fill index i [] cells = some cells
  fill index i (p ∷ ps) cells =
      at_int (index p) >>= λ k. push_back cells k i >>= λ next. fill index (suc i) ps next

  -- The members before the loop.
  unfoldable pub shape : List (Point2D G) → G → GridIndex G
  shape points cell_size =
      let box = bounding_box no_box points in
      let inv_cell = f.div (f.literal 1 0) cell_size in
      let ox = f.sub box.minx cell_size in
      let oy = f.sub box.miny cell_size in
      record {
        cell_size = cell_size;
        inv_cell = inv_cell;
        ox = ox;
        oy = oy;
        nx = cell_of inv_cell ox box.maxx +ℤ pos 2;
        ny = cell_of inv_cell oy box.maxy +ℤ pos 2;
        cells = [];
        pts = points;
      }

  abbrev pub filled : GridIndex G → Option (GridIndex G)
  filled g = resize (g.nx *ℤ g.ny) >>= λ empty.
      fill (cell_index g.inv_cell g.ox g.oy g.ny) 0 g.pts empty >>= λ cells.
      some (record g { cells = cells })

  unfoldable pub grid_index : List (Point2D G) → G → Option (GridIndex G)
  grid_index points max_dist = filled (shape points max_dist)

  unfoldable pub distance2 : Point2D G → Point2D G → G
  distance2 q p =
      let dx = f.sub q.x p.x in let dy = f.sub q.y p.y in f.add (f.mul dx dx) (f.mul dy dy)

  unfoldable pub closer : Point2D G → Best G → ℕ → Point2D G → Best G
  closer q b i p =
      let d2 = distance2 q p in if f.lt d2 b.dist2 then record { idx = some i; dist2 = d2 } else b

  -- `for (int idx : cells[...])`.
  unfoldable pub search_cell : List (Point2D G) → Point2D G → List ℕ → Best G → Option (Best G)
  search_cell pts q [] b = some b
  search_cell pts q (i ∷ is) b = get_elem? pts i >>= λ p. search_cell pts q is (closer q b i p)

  -- The inner loop's body for one cell, and the loops over the offsets `di` and `dj`.
  unfoldable pub visit : GridIndex G → Point2D G → ℤ → ℤ → Best G → Option (Best G)
  visit g q ri rj b =
      if is_outside rj g.ny
      then some b
      else at_int (ri *ℤ g.ny +ℤ rj) >>= λ k.
          get_elem? g.cells k >>= λ ids. search_cell g.pts q ids b

  unfoldable pub search_row : GridIndex G → Point2D G → ℤ → ℤ → List ℤ → Best G → Option (Best G)
  search_row g q ri cj [] b = some b
  search_row g q ri cj (dj ∷ djs) b =
      visit g q ri (cj +ℤ dj) b >>= λ b'. search_row g q ri cj djs b'

  unfoldable pub search_rows : GridIndex G → Point2D G → ℤ → ℤ → List ℤ → Best G → Option (Best G)
  search_rows g q ci cj [] b = some b
  search_rows g q ci cj (di ∷ dis) b =
      (if is_outside (ci +ℤ di) g.nx then some b else search_row g q (ci +ℤ di) cj offsets b)
      >>= λ b'. search_rows g q ci cj dis b'

  unfoldable pub find_nearest : GridIndex G → Point2D G → Best G → Option (Best G)
  find_nearest g q b =
      search_rows g q (cell_of g.inv_cell g.ox q.x) (cell_of g.inv_cell g.oy q.y) offsets b
