-- ===== src/Rosmaster/Receive/Framing.antt =====
-- The framing of the serial protocol: what the receive loop does with a frame that the board sends.
use physicar_ros.Base.{
  ℕ, suc, ◌+◌, ◌-◌, ◌%◌, ◌≤◌, ◌≡◌, ◌≢◌, refl, ap, ◌∙◌, true, false, some, List, [], ◌∷◌, ◌++◌, map,
  arith, ◌==◌, length, length-append, ltb, ◌||◌,
}
use physicar_ros.Double.{Double}
use physicar_ros.Rosmaster.Transmit.{sum_u16}
use physicar_ros.Rosmaster.Report.{BoardData, parse_data}
use physicar_ros.Rosmaster.Receive.{
  Read, got, Receiver, next, read_payload, split_last, size, tally, accept, verify, finish, payload,
  lengths, after_head, round,
}

abbrev pub sum : List ℕ → ℕ
sum [] = 0
sum (b ∷ bs) = b + sum bs

-- A report as the board sends it: head, device, length, type, data and the sum of all after the
-- device, modulo 256.
abbrev pub report : ℕ → List ℕ → ℕ → List ℕ
report func body check = 0xFF ∷ 0xFB ∷ (length body + 3) ∷ func ∷ (body ++ check ∷ [])

abbrev pub report_sum : ℕ → List ℕ → ℕ
report_sum func body = (length body + 3 + func + sum body) % 256

size-length : (xs : List ℕ) → size xs ≡ length xs
size-length [] = refl
size-length (x ∷ xs) = ap suc (size-length xs)

-- The 16-bit sum is the true sum modulo 65536.
sum_u16_lem : (acc : ℕ) (bs : List ℕ) → sum_u16 (acc % 65536) bs ≡ (acc + sum bs) % 65536
sum_u16_lem acc [] = omega arith
sum_u16_lem acc (b ∷ bs) =
    let e : (acc % 65536 + b) % 65536 ≡ (acc + b) % 65536 = omega arith in
    rw e (sum_u16_lem (acc + b) bs ∙ ap (λ n. n % 65536) (omega arith))

split_last-append : (body : List ℕ) (c : ℕ) → split_last (body ++ c ∷ []) ≡ some (body, c)
split_last-append [] c = refl
split_last-append (b ∷ []) c = refl
split_last-append (b ∷ b' ∷ bs) c = rw (split_last-append (b' ∷ bs) c)

-- All bytes of a frame that arrives whole are read.
read_payload-map :
    (bs : List ℕ) (s : List Read)
    → read_payload (length bs) (map got bs ++ s)
      ≡ record { bytes = some bs; count = length bs; rest = s }
unfolding read_payload
read_payload-map [] s = refl
read_payload-map (b ∷ bs) s = rw (read_payload-map bs s)

sums_agree :
    (func : ℕ) (body : List ℕ)
    → sum_u16 ((length body + 3 + func) % 65536) body % 256 ≡ report_sum func body
sums_agree func body = omega (arith, sum_u16_lem (length body + 3 + func) body)

module _ {ℓ} {F : Type ℓ} ⦃d : Double F⦄ where
  abbrev counted : ℕ → Receiver F → Receiver F
  counted n r = record r { total_bytes = r.total_bytes + n }

  payload-report :
      (func : ℕ) (body : List ℕ) (check : ℕ) (s : List Read) (r : Receiver F)
      → length body ≤ 63
      → payload (length body + 3) func (map got (body ++ check ∷ []) ++ s) r
        ≡ verify (length body + 3) func (some (body, check)) s (counted (length body + 1) r)
  unfolding payload finish
  payload-report func body check s r h =
      let n = length body in
      let fits : (ltb (n + 3) 2 || ltb 64 (n + 3 - 2)) ≡ false = ground arith in
      let len : length (body ++ check ∷ []) ≡ n + 1 =
        omega (arith, length-append body (check ∷ [])) in
      let e : n + 3 - 2 ≡ length (body ++ check ∷ []) = omega arith in
      rw (fits, e, read_payload-map (body ++ check ∷ []) s, split_last-append body check, len)

  -- A whole frame reaches the check of its sum, with the data and the sum that were sent.
  round-report :
      (func : ℕ) (body : List ℕ) (check : ℕ) (s : List Read) (r : Receiver F)
      → length body ≤ 63
      → round (map got (report func body check) ++ s) r
        ≡ verify (length body + 3) func (some (body, check)) s (counted (length body + 5) r)
  unfolding round after_head lengths
  round-report func body check s r h =
      let n = length body in
      let e : r.total_bytes + 1 + 1 + 2 + (n + 1) ≡ r.total_bytes + (n + 5) = omega arith in
      payload-report func body check s (tally 2 (tally 1 (tally 1 r))) h
      ∙ ap (λ k. verify (n + 3) func (some (body, check)) s (record r { total_bytes = k })) e

  -- A frame with the right sum and at most 63 bytes of data, which decode, is consumed as a whole,
  -- whatever follows it: the decoded data are kept, and its bytes and itself are counted.
  pub round_accepts :
      (func : ℕ) (body : List ℕ) (s : List Read) (r : Receiver F) (board : BoardData F)
      → length body ≤ 63
      → parse_data func body (length body) r.board ≡ some board
      → round (map got (report func body (report_sum func body)) ++ s) r
        ≡ next s (record {
          total_bytes = r.total_bytes + (length body + 5);
          valid_frames = suc r.valid_frames;
          board = board;
        })
  unfolding verify accept
  round_accepts func body s r board h e =
      let same : (report_sum func body == report_sum func body) ≡ true = ground arith in
      rw (round-report func body (report_sum func body) s r h, sums_agree func body, same)
        (rw (size-length body, e, accept))

  -- A frame with at most 63 bytes of data whose sum differs is consumed as a whole, and nothing
  -- changes but the count of bytes.
  pub round_rejects :
      (func : ℕ) (body : List ℕ) (check : ℕ) (s : List Read) (r : Receiver F)
      → length body ≤ 63
      → check ≢ report_sum func body
      → round (map got (report func body check) ++ s) r
        ≡ next s (record r { total_bytes = r.total_bytes + (length body + 5) })
  unfolding verify
  round_rejects func body check s r h ne =
      let differ : (report_sum func body == check) ≡ false = ground arith in
      rw (round-report func body check s r h, sums_agree func body, differ)
