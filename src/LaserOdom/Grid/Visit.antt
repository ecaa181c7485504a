-- ===== src/LaserOdom/Grid/Visit.antt =====
-- GridIndex::find_nearest, seen from one of the points: the loops over the nine cells around the query.
use mathlib.Core.List.{Memᴰ}
use physicar_ros.Base.{
  ℕ, zero, suc, ◌≡◌, inl, inr, refl, sym, ◌∙◌, true, false, Option, some, List, [], ◌∷◌, arith,
  get_elem?, if◌then◌else◌, length, All, ◌<◌, ◌+◌, ◌*◌, Bool-cases,
}
use physicar_ros.Base.Int.{ℤ, pos, negsuc, ◌+ℤ◌, ◌*ℤ◌}
use physicar_ros.Double.{Double, IsOrdered}
use physicar_ros.LaserOdom.Geometry.{Point2D}
use physicar_ros.LaserOdom.Grid.{
  Best, GridIndex, is_outside, visit, search_row, search_rows, offsets,
}
use physicar_ros.LaserOdom.Grid.Cells.{some_inj, Holds, AllBelow}
use physicar_ros.LaserOdom.Grid.Phase.{
  Phase, skip-Phase, bind-Phase, weaken-Phase, get_elem?-some, search_cell-Phase,
}

inside : (z : ℤ) (n : ℕ) → is_outside z (pos n) ≡ false → (k : ℕ) × (z ≡ pos k) × (k < n)
inside (pos k) n h = (k, refl, ground arith)
inside (negsuc k) n h = absurd (ground arith)

outside : (k n : ℕ) → k < n → is_outside (pos k) (pos n) ≡ false
outside k n h = ground arith

pub place : (a h k : ℕ) → pos a *ℤ pos h +ℤ pos k ≡ pos (a * h + k)
place a h k = ground arith

pub in_room : (a k w h : ℕ) → a < w → k < h → a * h + k < w * h
in_room a k w h p q = grind arith

All-get :
    (P : List ℕ → Type 0) (rows : List (List ℕ)) (k : ℕ) {ids : List ℕ}
    → All P rows
    → get_elem? rows k ≡ some ids
    → P ids
All-get P [] k all e = absurd (cc)
All-get P (row ∷ rows) zero {ids} (here, later) e = let same : row ≡ ids = cc in rw (← same) here
All-get P (row ∷ rows) (suc k) (here, later) e = All-get P rows k later e

module _ {G : Type 0} ⦃f : Double G⦄ where
  -- The grid is `w` cells by `h`, and all numbers in it are those of points.
  pub record IsGrid (g : GridIndex G) (w h : ℕ) : Type 0 where
    pub width : g.nx ≡ pos w
    pub height : g.ny ≡ pos h
    pub room : length g.cells ≡ w * h
    pub numbers : AllBelow (length g.pts) g.cells

  -- The point with number `n` is in the cell at `r` and `c`.
  pub record IsPlaced (g : GridIndex G) (w h n r c : ℕ) (p : Point2D G) : Type 0 where
    pub at : get_elem? g.pts n ≡ some p
    pub row : r < w
    pub column : c < h
    pub held : Holds g.cells (r * h + c) n

  module _ (laws : IsOrdered G) (g : GridIndex G) {w h : ℕ} (grid : IsGrid g w h) (q : Point2D G)
      (limit : G) {n r c : ℕ} {p : Point2D G} (placed : IsPlaced g w h n r c p) where
    abbrev Part : Type 0 → Best G → Option (Best G) → Type 0
    Part = Phase laws g.pts q limit p

    same_row :
        (a k : ℕ) {ids : List ℕ}
        → get_elem? g.cells (a * h + k) ≡ some ids
        → (a ≡ r) × (k ≡ c)
        → Memᴰ n ids
    same_row a k {ids = ids} at (ea, ek) =
        let (ids', at', mem) = placed.held in
        let eq : get_elem? g.cells (a * h + k) ≡ some ids' = rw (ea, ek) at' in
        let same : ids' ≡ ids = some_inj (sym eq ∙ at) in rw (← same) mem

    visit_inside-Phase :
        (a k : ℕ) (b : Best G)
        → a < w
        → k < h
        → Part ((a ≡ r) × (k ≡ c)) b (visit g q (pos a) (pos k) b)
    unfolding visit
    visit_inside-Phase a k b lt kh =
        let (ids, at) = get_elem?-some g.cells (a * h + k) (rw grid.room (in_room a k w h lt kh)) in
        let numbers = All-get (All (λ i. i < length g.pts)) g.cells (a * h + k) grid.numbers at in
        rw (grid.height, outside k h kh, place a h k, at)
          (weaken-Phase laws g.pts q limit p b _ (same_row a k at)
            (search_cell-Phase laws g.pts q limit p n ids b placed.at numbers))

    visit_outside-Phase :
        (a : ℕ) (rj : ℤ) (b : Best G)
        → is_outside rj (pos h) ≡ true
        → Part ((a ≡ r) × (rj ≡ pos c)) b (visit g q (pos a) rj b)
    unfolding visit
    visit_outside-Phase a rj b out =
        rw (grid.height, out)
          (weaken-Phase laws g.pts q limit p b _
            (λ v. absurd (ground (arith, outside c h placed.column, v.1, out)))
            (skip-Phase laws g.pts q limit p b))

    visit-Phase :
        (a : ℕ) (rj : ℤ) (b : Best G)
        → a < w
        → Part ((a ≡ r) × (rj ≡ pos c)) b (visit g q (pos a) rj b)
    visit-Phase a rj b lt = elim (Bool-cases (is_outside rj (pos h))) [
      | inl out ↦ visit_outside-Phase a rj b out
      | inr e ↦
          let (k, is_k, kh) = inside rj h e in
          rw is_k (
            weaken-Phase laws g.pts q limit p b _ (λ v. (v.0, cc (v.1)))
              (visit_inside-Phase a k b lt kh))
    ]

    search_row-Phase :
        (a : ℕ) (cj : ℤ) (djs : List ℤ) (b : Best G)
        → a < w
        → Part
            ((a ≡ r) × ((dj : ℤ) × Memᴰ dj djs × (cj +ℤ dj ≡ pos c)))
            b
            (search_row g q (pos a) cj djs b)
    unfolding search_row
    search_row-Phase a cj [] b lt =
        weaken-Phase laws g.pts q limit p b _ (λ v. elim v.1.1 [ ])
          (skip-Phase laws g.pts q limit p b)
    search_row-Phase a cj (dj ∷ djs) b lt =
        weaken-Phase laws g.pts q limit p b _
          (λ (row, (dj', m, e)). elim m [
            | Memᴰ.head same ↦ inl (row, rw (← same) e)
            | Memᴰ.tail later ↦ inr (row, (dj', later, e))
          ])
          (bind-Phase laws g.pts q limit p b _ _ (visit-Phase a (cj +ℤ dj) b lt)
            (λ b'. search_row-Phase a cj djs b' lt))

    pub search_rows-Phase :
        (ci cj : ℤ) (dis : List ℤ) (b : Best G)
        → Part
            (((di : ℤ) × Memᴰ di dis × (ci +ℤ di ≡ pos r))
              × ((dj : ℤ) × Memᴰ dj offsets × (cj +ℤ dj ≡ pos c)))
            b
            (search_rows g q ci cj dis b)
    unfolding search_rows
    search_rows-Phase ci cj [] b =
        weaken-Phase laws g.pts q limit p b _ (λ v. elim v.0.1 [ ])
          (skip-Phase laws g.pts q limit p b)
    search_rows-Phase ci cj (di ∷ dis) b =
        weaken-Phase laws g.pts q limit p b _
          (λ ((di', m, e), col). elim m [
            | Memᴰ.head same ↦ inl (rw (← same) e, col)
            | Memᴰ.tail later ↦ inr ((di', later, e), col)
          ])
          (bind-Phase laws g.pts q limit p b _ _ (first (ci +ℤ di))
            (λ b'. search_rows-Phase ci cj dis b'))
      where
        first :
            (ri : ℤ)
            → Part
                ((ri ≡ pos r) × ((dj : ℤ) × Memᴰ dj offsets × (cj +ℤ dj ≡ pos c)))
                b
                (if is_outside ri g.nx then some b else search_row g q ri cj offsets b)
        first ri = elim (Bool-cases (is_outside ri g.nx)) [
          | inl out ↦ rw out (
              weaken-Phase laws g.pts q limit p b _
                (λ v. absurd (ground (arith, outside r w placed.row, v.0, out, grid.width)))
                (skip-Phase laws g.pts q limit p b))
          | inr e ↦
              let (a, is_a, aw) = inside ri w (rw grid.width at e) in
              rw (e, is_a)
                (weaken-Phase laws g.pts q limit p b _ (λ v. (cc (v.0), v.1))
                  (search_row-Phase a cj offsets b aw))
        ]
