-- ===== src/LaserOdom/Grid/Phase.antt =====
-- GridIndex::find_nearest, seen from one of the points: a part of the search that passes the point
-- leaves a best distance that the point does not beat.
use mathlib.Core.List.{Memᴰ}
use physicar_ros.Base.{
  ℕ, zero, suc, ◌≡◌, ◌⊎◌, inl, inr, refl, true, false, Option, none, some, List, [], ◌∷◌, arith,
  get_elem?, if-case, length, All, ◌<◌,
}
use physicar_ros.Double.{lt_irrefl, Double, IsOrdered, le_of_lt}
use physicar_ros.LaserOdom.Geometry.{Point2D}
use physicar_ros.LaserOdom.Grid.{◌>>=◌, Best, distance2, closer, search_cell, visit}

pub get_elem?-some {ℓ} :
    {A : Type ℓ} (xs : List A) (i : ℕ) → i < length xs → (x : A) × (get_elem? xs i ≡ some x)
get_elem?-some [] i h = absurd (omega arith)
get_elem?-some (x ∷ xs) zero h = (x, refl)
get_elem?-some (x ∷ xs) (suc i) h = get_elem?-some xs i (omega arith)

module _ {G : Type 0} ⦃f : Double G⦄ where
  -- Nothing is found and the distance is the limit, or the best is a point closer than the limit,
  -- with its distance.
  abbrev pub IsFound : List (Point2D G) → Point2D G → G → Best G → Type 0
  IsFound pts q limit b =
      ((b.idx ≡ none) × (b.dist2 ≡ limit))
      ⊎ ((i : ℕ) × (p : Point2D G) × (b.idx ≡ some i)
          × (get_elem? pts i ≡ some p)
          × (b.dist2 ≡ distance2 q p)
          × (f.lt b.dist2 limit ≡ true))

  -- The point is not closer to the query than the best so far.
  abbrev pub IsBeaten : Point2D G → Best G → Point2D G → Type 0
  IsBeaten q b p = f.lt (distance2 q p) b.dist2 ≡ false

  module _ (laws : IsOrdered G) where
    lt_trans : (x y z : G) → f.lt x y ≡ true → f.lt y z ≡ true → f.lt x z ≡ true
    lt_trans x y z p q =
        let (nx, ny) = laws.num_of_lt x y p in
        let (_, nz) = laws.num_of_lt y z q in
        ground (
          arith,
          laws.lt-eq-not-le x z nx nz,
          laws.lt-eq-not-le y z ny nz,
          laws.le_trans z x y,
          le_of_lt laws x y p,
        )

    module _ (pts : List (Point2D G)) (q : Point2D G) (limit : G) (p : Point2D G) where
      -- A part of the search ends, keeps both properties of the best, and if it visits the point,
      -- the point is beaten afterwards.
      abbrev pub Phase : Type 0 → Best G → Option (Best G) → Type 0
      Phase Visits b r =
          (out : Best G) × (r ≡ some out)
          × (IsFound pts q limit b → IsFound pts q limit out)
          × (IsBeaten q b p → IsBeaten q out p)
          × (Visits → IsBeaten q out p)

      pub skip-Phase : (b : Best G) → Phase ⊥ b (some b)
      skip-Phase b = (b, refl, λ h. h, λ h. h, λ v. absurd v)

      pub bind-Phase :
          {V W : Type 0} (b : Best G) (m : Option (Best G)) (k : Best G → Option (Best G))
          → Phase V b m
          → ((b' : Best G) → Phase W b' (k b'))
          → Phase (V ⊎ W) b (m >>= k)
      bind-Phase {V} {W} b m k (b', e, found, beaten, visit) next =
          let (out, e', found', beaten', visit') = next b' in
          (
            out,
            rw e e',
            λ h. found' (found h),
            λ h. beaten' (beaten h),
            λ v. elim v [ inl a ↦ beaten' (visit a) | inr c ↦ visit' c ],
          )

      -- A part that visits no less than the other.
      pub weaken-Phase :
          {V W : Type 0} (b : Best G) (r : Option (Best G)) → (W → V) → Phase V b r → Phase W b r
      weaken-Phase b r to (out, e, found, beaten, visit) =
          (out, e, found, beaten, λ w. visit (to w))

      closer-IsFound :
          (b : Best G) (i : ℕ) (p' : Point2D G)
          → get_elem? pts i ≡ some p'
          → IsFound pts q limit b
          → IsFound pts q limit (closer q b i p')
      unfolding closer
      closer-IsFound b i p' at h =
          if-case (IsFound pts q limit) (f.lt (distance2 q p') b.dist2) _ _
            (λ less. inr (i, p', refl, at, refl, below less h)) (λ _. h)
        where
          below :
              f.lt (distance2 q p') b.dist2 ≡ true
              → IsFound pts q limit b
              → f.lt (distance2 q p') limit ≡ true
          below less (inl (_, e)) = rw (← e) less
          below less (inr (_, _, _, _, _, e)) = lt_trans _ b.dist2 limit less e

      closer-IsBeaten :
          (b : Best G) (i : ℕ) (p' : Point2D G) → IsBeaten q b p → IsBeaten q (closer q b i p') p
      unfolding closer
      closer-IsBeaten b i p' h =
          if-case (λ b'. IsBeaten q b' p) (f.lt (distance2 q p') b.dist2) _ _
            (λ less. ground (arith, lt_trans (distance2 q p) (distance2 q p') b.dist2)) (λ _. h)

      closer-IsBeaten_self :
          (b : Best G) (i : ℕ) (p' : Point2D G) → p' ≡ p → IsBeaten q (closer q b i p') p
      unfolding closer
      closer-IsBeaten_self b i p' e =
          if-case (λ b'. IsBeaten q b' p) (f.lt (distance2 q p') b.dist2) _ _
            (λ _. rw e (lt_irrefl laws (distance2 q p))) (λ beaten. rw (← e) beaten)

      -- The search of a cell visits the points whose numbers it holds.
      pub search_cell-Phase :
          (n : ℕ) (ids : List ℕ) (b : Best G)
          → get_elem? pts n ≡ some p
          → All (λ i. i < length pts) ids
          → Phase (Memᴰ n ids) b (search_cell pts q ids b)
      unfolding search_cell
      search_cell-Phase n [] b at all = (b, refl, λ h. h, λ h. h, λ m. elim m [ ])
      search_cell-Phase n (i ∷ ids) b at (lt, all) =
          let (p', e) = get_elem?-some pts i lt in
          let (out, e', found, beaten, visit) = search_cell-Phase n ids (closer q b i p') at all in
          (
            out,
            rw e e',
            λ h. found (closer-IsFound b i p' e h),
            λ h. beaten (closer-IsBeaten b i p' h),
            λ m. elim m [
              | Memᴰ.head same ↦ beaten (closer-IsBeaten_self b i p' (ground (arith, same, e, at)))
              | Memᴰ.tail later ↦ visit later
            ],
          )
