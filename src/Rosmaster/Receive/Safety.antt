-- ===== src/Rosmaster/Receive/Safety.antt =====
-- Where the receive loop reads outside the data of a frame.
use physicar_ros.Base.{
  ℕ, zero, suc, ◌-◌, ◌≤◌, ◌≡◌, ◌≢◌, ◌↔◌, inl, inr, refl, Option, none, some, List, [], ◌∷◌, arith,
  length, Option-cases,
}
use physicar_ros.Double.{Double}
use physicar_ros.Rosmaster.Report.{parse_data_total}
use physicar_ros.Rosmaster.Receive.{
  Read, got, fail, Receiver, fault, read_payload, split_last, size, tally, accept, verify, finish,
  payload, lengths, after_head, round,
}

size-le : (xs : List ℕ) → size xs ≤ length xs
size-le [] = omega arith
size-le (x ∷ xs) = omega (arith, size-le xs)

read_payload-length :
    (n : ℕ) (s : List Read) (bs : List ℕ) → (read_payload n s).bytes ≡ some bs → length bs ≡ n
unfolding read_payload
read_payload-length zero s bs e = ground arith
read_payload-length (suc n) [] bs e = cc
read_payload-length (suc n) (fail ∷ s) bs e = cc
read_payload-length (suc n) (got b ∷ s) bs e = elim (Option-cases (read_payload n s).bytes) [
  | inl p ↦ ground arith
  | inr (cs, p) ↦ ground (arith, read_payload-length n s cs p)
]

split_last-ne-none : (b : ℕ) (bs : List ℕ) → split_last (b ∷ bs) ≢ none
split_last-ne-none b [] = λ e. cc
split_last-ne-none b (c ∷ bs) = ground (arith, split_last-ne-none c bs)

module _ {ℓ} {F : Type ℓ} ⦃d : Double F⦄ where
  accept-ne-fault :
      (t : ℕ) (body : List ℕ) (s : List Read) (r : Receiver F) → accept t body s r ≢ fault
  unfolding accept
  accept-ne-fault t body s r =
      let (board, e) = parse_data_total t body (size body) r.board (size-le body) in
      rw (e, accept) λ h. cc

  verify-ne-fault :
      (l t : ℕ) (o : Option (List ℕ × ℕ)) (s : List Read) (r : Receiver F)
      → o ≢ none
      → verify l t o s r ≢ fault
  unfolding verify
  verify-ne-fault l t none s r h = absurd (h refl)
  verify-ne-fault l t (some (body, last)) s r h = ground (arith, accept-ne-fault t body s r)

  finish-ne-fault :
      (l t n : ℕ) (s : List Read) (r : Receiver F) → finish l t (read_payload (suc n) s) r ≢ fault
  unfolding finish
  finish-ne-fault l t n s r = elim (Option-cases (read_payload (suc n) s).bytes) [
    | inl e ↦ rw e λ h. cc
    | inr ([], e) ↦ λ h. absurd (omega (arith, read_payload-length (suc n) s [] e))
    | inr (b ∷ bs, e) ↦ rw e (
        verify-ne-fault l t (split_last (b ∷ bs)) (read_payload (suc n) s).rest
          (tally (read_payload (suc n) s).count r) (split_last-ne-none b bs))
  ]

  payload_fault : (l t : ℕ) (s : List Read) (r : Receiver F) → payload l t s r ≡ fault → l ≡ 2
  unfolding payload
  payload_fault zero t s r e = cc
  payload_fault (suc zero) t s r e = cc
  payload_fault (suc (suc zero)) t s r e = omega arith
  payload_fault (suc (suc (suc n))) t s r e =
      let same : suc (suc (suc n)) - 2 ≡ suc n = omega arith in
      let h = rw same at e in ground (arith, finish-ne-fault (suc (suc (suc n))) t n s r)

  round_faults :
      (s : List Read) (r : Receiver F)
      → round s r ≡ fault
      → (t : ℕ) × (rest : List Read) × (s ≡ got 0xFF ∷ got 0xFB ∷ got 2 ∷ got t ∷ rest)
  unfolding round after_head lengths
  round_faults [] r e = cc
  round_faults (fail ∷ s) r e = cc
  round_faults (got a ∷ []) r e = ground arith
  round_faults (got a ∷ fail ∷ s) r e = ground arith
  round_faults (got a ∷ got b ∷ []) r e = ground arith
  round_faults (got a ∷ got b ∷ fail ∷ s) r e = ground arith
  round_faults (got a ∷ got b ∷ got l ∷ []) r e = ground arith
  round_faults (got a ∷ got b ∷ got l ∷ fail ∷ s) r e = ground arith
  round_faults (got a ∷ got b ∷ got l ∷ got t ∷ s) r e =
      (t, s, ground (arith, payload_fault l t s (tally 2 (tally 1 (tally 1 r)))))

  -- A round reads outside the data exactly when the stream starts with a frame whose length byte
  -- is 2, which leaves no room for its sum: `data[data_len - 1]` is then read at index -1.
  pub round_fault_iff :
      (s : List Read) (r : Receiver F)
      → (round s r ≡ fault)
        ↔ ((t : ℕ) × (rest : List Read) × (s ≡ got 0xFF ∷ got 0xFB ∷ got 2 ∷ got t ∷ rest))
  unfolding round after_head lengths payload finish verify read_payload
  round_fault_iff s r = (round_faults s r, λ (t, rest, e). rw e)
