-- ===== src/LaserOdom/Grid/Fill.antt =====
-- GridIndex: the loop that fills the cells puts every point in its cell.
use native.Mathlib.Nat.{add-zero}
use physicar_ros.Base.{
  ℕ, zero, suc, ◌+◌, ◌≤◌, ◌<◌, ◌≡◌, refl, ◌∙◌, ap, some, List, [], ◌∷◌, arith, get_elem?, length,
  All,
}
use physicar_ros.Base.Int.{ℤ, pos}
use physicar_ros.Double.{Double}
use physicar_ros.LaserOdom.Geometry.{Point2D}
use physicar_ros.LaserOdom.Grid.{push_back, empty_rows, at_int, fill}
use physicar_ros.LaserOdom.Grid.Cells.{
  some_inj, >>=-eq-some, at_int-eq-some, Holds, AllBelow, push_back-eq-some, length-push_back,
  Holds-push_back_new, Holds-push_back_old, push_back-AllBelow,
}

pub length-empty_rows : (n : ℕ) → length (empty_rows n) ≡ n
unfolding empty_rows
length-empty_rows zero = refl
length-empty_rows (suc n) = ap suc (length-empty_rows n)

pub empty_rows-AllBelow : (bound n : ℕ) → AllBelow bound (empty_rows n)
unfolding empty_rows
empty_rows-AllBelow bound zero = tt
empty_rows-AllBelow bound (suc n) = (tt, empty_rows-AllBelow bound n)

module _ {G : Type 0} ⦃f : Double G⦄ (index : Point2D G → ℤ) where
  -- The place of a point is inside the vector.
  abbrev pub HasPlace : ℕ → Point2D G → Type 0
  HasPlace size p = (k : ℕ) × (index p ≡ pos k) × (k < size)

  pub fill-eq-some :
      (i : ℕ) (ps : List (Point2D G)) (cells : List (List ℕ))
      → All (HasPlace (length cells)) ps
      → (out : List (List ℕ)) × (fill index i ps cells ≡ some out)
  unfolding fill
  fill-eq-some i [] cells h = (cells, refl)
  fill-eq-some i (p ∷ ps) cells ((k, e, lt), rest) =
      let (next, e') = push_back-eq-some cells k i lt in
      let (out, e'') = fill-eq-some (suc i) ps next (rw (length-push_back cells k i e') rest) in
      (out, rw (e, e') e'')

  -- One round of the loop.
  abbrev Round : ℕ → Point2D G → List (Point2D G) → List (List ℕ) → List (List ℕ) → Type 0
  Round i p ps cells out =
      (k : ℕ) × (next : List (List ℕ)) × (index p ≡ pos k)
      × (push_back cells k i ≡ some next)
      × (fill index (suc i) ps next ≡ some out)

  fill-Round :
      (i : ℕ) (p : Point2D G) (ps : List (Point2D G)) (cells : List (List ℕ)) {out : List (List ℕ)}
      → fill index i (p ∷ ps) cells ≡ some out
      → Round i p ps cells out
  unfolding fill
  fill-Round i p ps cells h =
      let (k, e, h') = >>=-eq-some (at_int (index p)) _ h in
      let (next, e', h'') = >>=-eq-some (push_back cells k i) _ h' in
      (k, next, at_int-eq-some (index p) e, e', h'')

  pub length-fill :
      (i : ℕ) (ps : List (Point2D G)) (cells : List (List ℕ)) {out : List (List ℕ)}
      → fill index i ps cells ≡ some out
      → length out ≡ length cells
  unfolding fill
  length-fill i [] cells h = rw (← some_inj h) refl
  length-fill i (p ∷ ps) cells h =
      let (k, next, e, e', h') = fill-Round i p ps cells h in
      length-fill (suc i) ps next h' ∙ length-push_back cells k i e'

  fill-Holds_old :
      (i : ℕ) (ps : List (Point2D G)) (cells : List (List ℕ)) {out : List (List ℕ)} (j n : ℕ)
      → fill index i ps cells ≡ some out
      → Holds cells j n
      → Holds out j n
  unfolding fill
  fill-Holds_old i [] cells j n h held = rw (← some_inj h) held
  fill-Holds_old i (p ∷ ps) cells j n h held =
      let (k, next, e, e', h') = fill-Round i p ps cells h in
      fill-Holds_old (suc i) ps next j n h' (Holds-push_back_old cells k i j n e' held)

  -- Afterwards, the place of each point holds its number.
  pub fill-Holds :
      (i : ℕ) (ps : List (Point2D G)) (cells : List (List ℕ)) {out : List (List ℕ)} (n : ℕ)
      {p : Point2D G}
      → fill index i ps cells ≡ some out
      → get_elem? ps n ≡ some p
      → (k : ℕ) × (index p ≡ pos k) × Holds out k (i + n)
  fill-Holds i [] cells n h at = absurd (cc)
  fill-Holds i (q ∷ ps) cells zero {p} h at =
      let (k, next, e, e', h') = fill-Round i q ps cells h in
      let same : q ≡ p = some_inj at in
      (
        k,
        rw (← same) e,
        fill-Holds_old (suc i) ps next k (i + 0) h'
            (rw add-zero (Holds-push_back_new cells k i e')),
      )
  fill-Holds i (q ∷ ps) cells (suc n) h at =
      let (k, next, e, e', h') = fill-Round i q ps cells h in
      let (k', eq, held) = fill-Holds (suc i) ps next n h' at in
      let shift : suc i + n ≡ i + suc n = omega arith in (k', eq, rw shift at held)

  -- The cells hold numbers of points only.
  pub fill-AllBelow :
      (bound i : ℕ) (ps : List (Point2D G)) (cells : List (List ℕ)) {out : List (List ℕ)}
      → fill index i ps cells ≡ some out
      → i + length ps ≤ bound
      → AllBelow bound cells
      → AllBelow bound out
  unfolding fill
  fill-AllBelow bound i [] cells h le all = rw (← some_inj h) all
  fill-AllBelow bound i (p ∷ ps) cells h le all =
      let (k, next, e, e', h') = fill-Round i p ps cells h in
      fill-AllBelow bound (suc i) ps next h' (omega arith)
        (push_back-AllBelow bound cells k i e' (omega arith) all)
