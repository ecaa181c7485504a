-- ===== src/Rosmaster/Receive/Progress.antt =====
-- The receive loop ends: every round consumes input, so the length of the stream is fuel enough.
use physicar_ros.Base.{
  ℕ, zero, suc, ◌-◌, ◌≤◌, ◌≢◌, inl, inr, Bool, true, false, Option, none, some, List, [], ◌∷◌,
  arith, if◌then◌else◌, length, Option-cases,
}
use physicar_ros.Double.{Double}
use physicar_ros.Rosmaster.Receive.{
  Read, got, fail, Receiver, Round, next, fault, Outcome, out_of_fuel, Payload, read_payload,
  split_last, tally, accept, verify, finish, payload, lengths, after_head, round, receive, resume,
}

-- No more reads are left than there were.
abbrev Shrinks {ℓ} : {F : Type ℓ} → ℕ → Round F → Type 0
Shrinks n (next rest r) = length rest ≤ n
Shrinks n fault = Unit

read_payload-le : (n : ℕ) (s : List Read) → length (read_payload n s).rest ≤ length s
unfolding read_payload
read_payload-le zero s = omega arith
read_payload-le (suc n) [] = omega arith
read_payload-le (suc n) (fail ∷ s) = omega arith
read_payload-le (suc n) (got b ∷ s) = omega (arith, read_payload-le n s)

module _ {ℓ} {F : Type ℓ} ⦃d : Double F⦄ where
  Shrinks-if :
      (n : ℕ) (b : Bool) (x y : Round F)
      → Shrinks n x
      → Shrinks n y
      → Shrinks n (if b then x else y)
  Shrinks-if n true x y hx hy = hx
  Shrinks-if n false x y hx hy = hy

  weaken : {m n : ℕ} (o : Round F) → m ≤ n → Shrinks m o → Shrinks n o
  weaken (next rest r) h k = omega arith
  weaken fault h k = tt

  accept-Shrinks :
      (n t : ℕ) (body : List ℕ) (s : List Read) (r : Receiver F)
      → length s ≤ n
      → Shrinks n (accept t body s r)
  unfolding accept
  accept-Shrinks n t body s r h = ground arith

  verify-Shrinks :
      (n l t : ℕ) (o : Option (List ℕ × ℕ)) (s : List Read) (r : Receiver F)
      → length s ≤ n
      → Shrinks n (verify l t o s r)
  unfolding verify
  verify-Shrinks n l t none s r h = tt
  verify-Shrinks n l t (some (body, last)) s r h =
      Shrinks-if n _ _ (next s r) (accept-Shrinks n t body s r h) h

  finish-Shrinks :
      (n l t : ℕ) (p : Payload) (r : Receiver F) → length p.rest ≤ n → Shrinks n (finish l t p r)
  unfolding finish
  finish-Shrinks n l t p r h = elim (Option-cases p.bytes) [
    | inl e ↦ rw e h
    | inr (bs, e) ↦ rw e (verify-Shrinks n l t (split_last bs) p.rest (tally p.count r) h)
  ]

  payload-Shrinks :
      (n l t : ℕ) (s : List Read) (r : Receiver F) → length s ≤ n → Shrinks n (payload l t s r)
  unfolding payload
  payload-Shrinks n l t s r h =
      Shrinks-if n _ (next s r) _ h
        (finish-Shrinks n l t (read_payload (l - 2) s) r (omega (arith, read_payload-le (l - 2) s)))

  lengths-Shrinks :
      (n : ℕ) (s : List Read) (r : Receiver F) → length s ≤ n → Shrinks n (lengths s r)
  unfolding lengths
  lengths-Shrinks n [] r h = omega arith
  lengths-Shrinks n (fail ∷ s) r h = omega arith
  lengths-Shrinks n (got l ∷ []) r h = omega arith
  lengths-Shrinks n (got l ∷ fail ∷ s) r h = omega arith
  lengths-Shrinks n (got l ∷ got t ∷ s) r h = payload-Shrinks n l t s (tally 2 r) (omega arith)

  after_head-Shrinks :
      (n : ℕ) (s : List Read) (r : Receiver F) → length s ≤ n → Shrinks n (after_head s r)
  unfolding after_head
  after_head-Shrinks n [] r h = omega arith
  after_head-Shrinks n (fail ∷ s) r h = omega arith
  after_head-Shrinks n (got b ∷ s) r h =
      Shrinks-if n _ _ (next s (tally 1 r)) (lengths-Shrinks n s (tally 1 r) (omega arith))
        (omega arith)

  -- A round on a stream that has not ended consumes at least one read.
  round-Shrinks : (x : Read) (s : List Read) (r : Receiver F) → Shrinks (length s) (round (x ∷ s) r)
  unfolding round
  round-Shrinks fail s r = omega arith
  round-Shrinks (got b) s r =
      Shrinks-if (length s) _ _ (next s (tally 1 r))
        (after_head-Shrinks (length s) s (tally 1 r) (omega arith)) (omega arith)

  resume-ends :
      (n : ℕ) (continue : List Read → Receiver F → Outcome F) (o : Round F)
      → Shrinks n o
      → ((s : List Read) (r : Receiver F) → length s ≤ n → continue s r ≢ out_of_fuel)
      → resume continue o ≢ out_of_fuel
  resume-ends n continue (next rest r) h k = k rest r h
  resume-ends n continue fault h k = λ e. cc

  -- With at least the length of the stream as fuel the receive thread does not run out of it: it
  -- reads to the end of the stream or reads outside the data before.
  pub receive_ends :
      (fuel : ℕ) (s : List Read) (r : Receiver F) → length s ≤ fuel → receive fuel s r ≢ out_of_fuel
  unfolding receive
  receive_ends fuel [] r h = ground arith
  receive_ends zero (x ∷ s) r h = elim h [ ]
  receive_ends (suc fuel) (x ∷ s) r h =
      resume-ends fuel (receive fuel) (round (x ∷ s) r)
        (weaken _ (omega arith) (round-Shrinks x s r)) (receive_ends fuel)
