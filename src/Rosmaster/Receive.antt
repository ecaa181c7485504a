-- ===== src/Rosmaster/Receive.antt =====
-- RosmasterBoard::receive_loop. The stream is what the reads of the receive thread deliver, in order
-- (`fail` is a `read` that returns no byte); it ends when `disconnect` closes the line.
pub mod Framing
pub mod Progress
pub mod Safety
pub mod Stream
use physicar_ros.Base.{
  ℕ, zero, suc, ◌+◌, ◌-◌, ◌%◌, Bool, ◌||◌, Option, none, some, List, [], ◌∷◌, if◌then◌else◌, ltb,
  ◌==◌,
}
use physicar_ros.Double.{Double}
use physicar_ros.Rosmaster.Transmit.{head, device_id, sum_u16}
use physicar_ros.Rosmaster.Report.{BoardData, parse_data}

pub data Read : Type 0 where
  got : ℕ → Read
  fail : Read

-- The locals of the loop and the data that `parse_data` writes.
pub record Receiver {ℓ} (F : Type ℓ) : Type ℓ where
  pub total_bytes : ℕ
  pub valid_frames : ℕ
  pub board : BoardData F

-- One round of the loop leaves the rest of the stream, or reads outside the data (`fault`).
pub data Round {ℓ} (F : Type ℓ) : Type ℓ where
  next : List Read → Receiver F → Round F
  fault : Round F

pub data Outcome {ℓ} (F : Type ℓ) : Type ℓ where
  exit : Receiver F → Outcome F
  crash : Outcome F
  out_of_fuel : Outcome F

-- The loop `for (i < data_len) read_byte(data[i])`: the data if all reads succeed, how many did, and
-- the rest of the stream.
pub record Payload : Type 0 where
  pub bytes : Option (List ℕ)
  pub count : ℕ
  pub rest : List Read

abbrev pub push_byte : ℕ → Payload → Payload
push_byte b p = record {
  bytes = elim p.bytes [ none ↦ none | some bs ↦ some (b ∷ bs) ];
  count = suc p.count;
  rest = p.rest;
}

unfoldable pub read_payload : ℕ → List Read → Payload
read_payload zero s = record { bytes = some []; count = 0; rest = s }
read_payload (suc n) [] = record { bytes = none; count = 0; rest = [] }
read_payload (suc n) (fail ∷ s) = record { bytes = none; count = 0; rest = s }
read_payload (suc n) (got b ∷ s) = push_byte b (read_payload n s)

-- data[0 .. n-2] and data[n-1]; `none` is the read at index -1 of empty data.
abbrev pub split_last : List ℕ → Option (List ℕ × ℕ)
split_last [] = none
split_last (b ∷ []) = some ([], b)
split_last (b ∷ c ∷ bs) = elim (split_last (c ∷ bs)) [ none ↦ none | some (i, l) ↦ some (b ∷ i, l) ]

abbrev pub size : List ℕ → ℕ
size [] = 0
size (b ∷ bs) = suc (size bs)

module _ {ℓ} {F : Type ℓ} ⦃d : Double F⦄ where
  abbrev pub tally : ℕ → Receiver F → Receiver F
  tally n r = record r { total_bytes = r.total_bytes + n }

  unfoldable pub accept : ℕ → List ℕ → List Read → Receiver F → Round F
  accept ext_type body s r = elim (parse_data ext_type body (size body) r.board) [
    | none ↦ fault
    | some board ↦ next s (record r { valid_frames = suc r.valid_frames; board = board })
  ]

  unfoldable pub verify : ℕ → ℕ → Option (List ℕ × ℕ) → List Read → Receiver F → Round F
  verify ext_len ext_type none s r = fault
  verify ext_len ext_type (some (body, last)) s r =
      if sum_u16 ((ext_len + ext_type) % 65536) body % 256 == last
      then accept ext_type body s r
      else next s r

  unfoldable pub finish : ℕ → ℕ → Payload → Receiver F → Round F
  finish ext_len ext_type p r = elim p.bytes [
    | none ↦ next p.rest (tally p.count r)
    | some bytes ↦ verify ext_len ext_type (split_last bytes) p.rest (tally p.count r)
  ]

  -- `data_len = ext_len - 2`, refused below 0 and above 64.
  unfoldable pub payload : ℕ → ℕ → List Read → Receiver F → Round F
  payload ext_len ext_type s r =
      if ltb ext_len 2 || ltb 64 (ext_len - 2)
      then next s r
      else finish ext_len ext_type (read_payload (ext_len - 2) s) r

  unfoldable pub lengths : List Read → Receiver F → Round F
  lengths [] r = next [] r
  lengths (fail ∷ s) r = next s r
  lengths (got l ∷ []) r = next [] r
  lengths (got l ∷ fail ∷ s) r = next s r
  lengths (got l ∷ got t ∷ s) r = payload l t s (tally 2 r)

  unfoldable pub after_head : List Read → Receiver F → Round F
  after_head [] r = next [] r
  after_head (fail ∷ s) r = next s r
  after_head (got b ∷ s) r =
      if b == device_id - 1 then lengths s (tally 1 r) else next s (tally 1 r)

  -- The body of `while (connected_)`.
  unfoldable pub round : List Read → Receiver F → Round F
  round [] r = next [] r
  round (fail ∷ s) r = next s r
  round (got b ∷ s) r = if b == head then after_head s (tally 1 r) else next s (tally 1 r)

  abbrev resume : (List Read → Receiver F → Outcome F) → Round F → Outcome F
  resume continue (next rest r) = continue rest r
  resume continue fault = crash

  -- The thread, until the line is closed and all that arrived is read.
  unfoldable pub receive : ℕ → List Read → Receiver F → Outcome F
  receive fuel [] r = exit r
  receive zero (x ∷ s) r = out_of_fuel
  receive (suc fuel) (x ∷ s) r = let rest = receive fuel in resume rest (round (x ∷ s) r)
