-- ===== src/LaserOdom/Grid/Cells.antt =====
-- GridIndex: what the filled cells hold.
use mathlib.Core.List.{Memᴰ}
use native.Mathlib.Decide.{ℕ_discrete as dec_eq}
use physicar_ros.Base.{
  ℕ, zero, suc, ◌<◌, ◌≡◌, ◌≢◌, refl, ap, Option, none, some, List, [], ◌∷◌, ◌++◌, arith, get_elem?,
  length, All, All-append,
}
use physicar_ros.Base.Int.{ℤ, pos, negsuc}
use physicar_ros.LaserOdom.Grid.{◌>>=◌, push_back, at_int}

pub >>=-eq-some {ℓ κ} :
    {A : Type ℓ} {B : Type κ} (m : Option A) (k : A → Option B) {b : B}
    → (m >>= k) ≡ some b
    → (a : A) × (m ≡ some a) × (k a ≡ some b)
>>=-eq-some none k h = absurd (cc)
>>=-eq-some (some a) k h = (a, refl, h)

pub at_int-eq-some : (z : ℤ) {k : ℕ} → at_int z ≡ some k → z ≡ pos k
at_int-eq-some (pos n) h = cc
at_int-eq-some (negsuc n) h = absurd (cc)

pub some_inj {ℓ} : {A : Type ℓ} {a b : A} → some a ≡ some b → a ≡ b
some_inj e = cc

-- The row with number `k` holds `n`.
abbrev pub Holds : List (List ℕ) → ℕ → ℕ → Type 0
Holds cells k n = (ids : List ℕ) × (get_elem? cells k ≡ some ids) × Memᴰ n ids

-- Every number in the cells is below a bound.
abbrev pub AllBelow : ℕ → List (List ℕ) → Type 0
AllBelow bound = All (All (λ n. n < bound))

mem-append-left : {n : ℕ} {xs : List ℕ} (ys : List ℕ) → Memᴰ n xs → Memᴰ n (xs ++ ys)
mem-append-left ys (Memᴰ.head e) = Memᴰ.head e
mem-append-left ys (Memᴰ.tail m) = Memᴰ.tail (mem-append-left ys m)

mem-append-last : (n : ℕ) (xs : List ℕ) → Memᴰ n (xs ++ (n ∷ []))
mem-append-last n [] = Memᴰ.head refl
mem-append-last n (x ∷ xs) = Memᴰ.tail (mem-append-last n xs)

pub push_back-eq-some :
    (cells : List (List ℕ)) (k i : ℕ)
    → k < length cells
    → (out : List (List ℕ)) × (push_back cells k i ≡ some out)
unfolding push_back
push_back-eq-some [] k i h = absurd (omega arith)
push_back-eq-some (row ∷ rows) zero i h = ((row ++ (i ∷ [])) ∷ rows, refl)
push_back-eq-some (row ∷ rows) (suc k) i h =
    let (out, e) = push_back-eq-some rows k i (omega arith) in (row ∷ out, rw e refl)

pub length-push_back :
    (cells : List (List ℕ)) (k i : ℕ) {out : List (List ℕ)}
    → push_back cells k i ≡ some out
    → length out ≡ length cells
unfolding push_back
length-push_back [] k i h = absurd (cc)
length-push_back (row ∷ rows) zero i h = ground arith
length-push_back (row ∷ rows) (suc k) i h =
    let (rest, e, q) = >>=-eq-some (push_back rows k i) _ h in
    ground (arith, length-push_back rows k i e)

-- The row with number `k` gets the new number at its end; the others stay.
get_elem?-push_back_other :
    (cells : List (List ℕ)) (k i : ℕ) {out : List (List ℕ)} (j : ℕ)
    → push_back cells k i ≡ some out
    → j ≢ k
    → get_elem? out j ≡ get_elem? cells j
unfolding push_back
get_elem?-push_back_other [] k i j h ne = absurd (cc)
get_elem?-push_back_other (row ∷ rows) zero i zero h ne = absurd (ne refl)
get_elem?-push_back_other (row ∷ rows) zero i (suc j) h ne = ground arith
get_elem?-push_back_other (row ∷ rows) (suc k) i j h ne =
    let (rest, e, q) = >>=-eq-some (push_back rows k i) _ h in
    later j ne q (λ j' ne'. get_elem?-push_back_other rows k i j' e ne')
  where
    later :
        {rest out : List (List ℕ)} (j : ℕ)
        → j ≢ suc k
        → some (row ∷ rest) ≡ some out
        → ((j' : ℕ) → j' ≢ k → get_elem? rest j' ≡ get_elem? rows j')
        → get_elem? out j ≡ get_elem? (row ∷ rows) j
    later zero ne q ih = ground arith
    later (suc j) ne q ih = ground (arith, ih j (λ e. ne (ap suc e)))

push_back-Holds :
    (cells : List (List ℕ)) (k i : ℕ) {out : List (List ℕ)}
    → push_back cells k i ≡ some out
    → (ids : List ℕ) × (get_elem? cells k ≡ some ids) × (get_elem? out k ≡ some (ids ++ (i ∷ [])))
unfolding push_back
push_back-Holds [] k i h = absurd (cc)
push_back-Holds (row ∷ rows) zero i h = (row, refl, ground arith)
push_back-Holds (row ∷ rows) (suc k) i h =
    let (rest, e, q) = >>=-eq-some (push_back rows k i) _ h in
    let (ids, before, after) = push_back-Holds rows k i e in (ids, before, ground arith)

pub Holds-push_back_new :
    (cells : List (List ℕ)) (k i : ℕ) {out : List (List ℕ)}
    → push_back cells k i ≡ some out
    → Holds out k i
Holds-push_back_new cells k i h =
    let (ids, before, after) = push_back-Holds cells k i h in
    (ids ++ (i ∷ []), after, mem-append-last i ids)

pub Holds-push_back_old :
    (cells : List (List ℕ)) (k i : ℕ) {out : List (List ℕ)} (j n : ℕ)
    → push_back cells k i ≡ some out
    → Holds cells j n
    → Holds out j n
Holds-push_back_old cells k i j n h (ids, e, m) = elim (dec_eq j k) [
  | yes same ↦
      let (old, before, after) = push_back-Holds cells k i h in
      let eq : ids ≡ old = ground arith in
      (old ++ (i ∷ []), rw same after, mem-append-left (i ∷ []) (rw eq at m))
  | no other ↦ (ids, rw (get_elem?-push_back_other cells k i j h other) e, m)
]

pub push_back-AllBelow :
    (bound : ℕ) (cells : List (List ℕ)) (k i : ℕ) {out : List (List ℕ)}
    → push_back cells k i ≡ some out
    → i < bound
    → AllBelow bound cells
    → AllBelow bound out
unfolding push_back
push_back-AllBelow bound [] k i h lt all = absurd (cc)
push_back-AllBelow bound (row ∷ rows) zero i {out} h lt (here, later) =
    rw (← some_inj h) (All-append (λ n. n < bound) row (i ∷ []) here (lt, tt), later)
push_back-AllBelow bound (row ∷ rows) (suc k) i {out} h lt (here, later) =
    let (rest, e, q) = >>=-eq-some (push_back rows k i) _ h in
    rw (← some_inj q) (here, push_back-AllBelow bound rows k i e lt later)
