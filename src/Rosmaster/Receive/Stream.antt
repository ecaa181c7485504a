-- ===== src/Rosmaster/Receive/Stream.antt =====
-- A whole stream on the serial line: reports, frames that were damaged, and noise between them.
use physicar_ros.Base.{
  ℕ, zero, suc, ◌+◌, ◌≤◌, ◌≡◌, ◌≢◌, refl, ap, ◌∙◌, Option, none, some, List, [], ◌∷◌, ◌++◌, map,
  arith, length, All, false, ◌==◌,
}
use physicar_ros.Double.{Double}
use physicar_ros.Rosmaster.Transmit.{head}
use physicar_ros.Rosmaster.Report.{BoardData, parse_data, parse_data_total}
use physicar_ros.Rosmaster.Receive.{Read, got, fail, Receiver, next, exit, round, receive, resume}
use physicar_ros.Rosmaster.Receive.Framing.{report, report_sum, round_accepts, round_rejects}

pub data Item : Type 0 where
  sent : (func : ℕ) (body : List ℕ) → Item
  damaged : (func : ℕ) (body : List ℕ) (check : ℕ) → Item
  noise : (byte : ℕ) → Item
  silence : Item

abbrev pub on_line : Item → List Read
on_line (sent func body) = map got (report func body (report_sum func body))
on_line (damaged func body check) = map got (report func body check)
on_line (noise byte) = got byte ∷ []
on_line silence = fail ∷ []

-- What the reads deliver.
abbrev pub wire : List Item → List Read
wire [] = []
wire (i ∷ is) = on_line i ++ wire is

-- The data fit a frame, a damaged frame has a wrong sum, and noise is not the first byte of a frame.
abbrev pub IsItem : Item → Type 0
IsItem (sent func body) = length body ≤ 63
IsItem (damaged func body check) = (length body ≤ 63) × (check ≢ report_sum func body)
IsItem (noise byte) = byte ≢ head
IsItem silence = Unit

-- The bytes of an item, and the frames that count.
abbrev pub bytes_of : Item → ℕ
bytes_of (sent func body) = length body + 5
bytes_of (damaged func body check) = length body + 5
bytes_of (noise byte) = 1
bytes_of silence = 0

abbrev pub total : List Item → ℕ
total [] = 0
total (i ∷ is) = bytes_of i + total is

abbrev pub reports : List Item → ℕ
reports [] = 0
reports (sent func body ∷ is) = suc (reports is)
reports (damaged func body check ∷ is) = reports is
reports (noise byte ∷ is) = reports is
reports (silence ∷ is) = reports is

module _ {ℓ} {F : Type ℓ} ⦃d : Double F⦄ where
  -- The reports alone, decoded one after the other.
  abbrev pub decode : List Item → BoardData F → Option (BoardData F)
  decode [] board = some board
  decode (sent func body ∷ is) board = elim (parse_data func body (length body) board) [
    | none ↦ none
    | some b ↦ decode is b
  ]
  decode (damaged func body check ∷ is) board = decode is board
  decode (noise byte ∷ is) board = decode is board
  decode (silence ∷ is) board = decode is board

  abbrev pub received : Receiver F → ℕ → ℕ → BoardData F → Receiver F
  received r bytes frames board = record {
    total_bytes = r.total_bytes + bytes;
    valid_frames = r.valid_frames + frames;
    board = board;
  }

  round_noise :
      (byte : ℕ) (s : List Read) (r : Receiver F)
      → byte ≢ head
      → round (got byte ∷ s) r ≡ next s (record r { total_bytes = r.total_bytes + 1 })
  unfolding round
  round_noise byte s r ne = let other : (byte == head) ≡ false = ground arith in rw other

  round_silence : (s : List Read) (r : Receiver F) → round (fail ∷ s) r ≡ next s r
  unfolding round
  round_silence s r = refl

  receive_nil : (fuel : ℕ) (r : Receiver F) → receive fuel [] r ≡ exit r
  unfolding receive
  receive_nil fuel r = refl

  -- One round takes the next item off the line.
  receive-round :
      (fuel : ℕ) (i : Item) (s : List Read) (r r' : Receiver F)
      → round (on_line i ++ s) r ≡ next s r'
      → receive (suc fuel) (on_line i ++ s) r ≡ receive fuel s r'
  unfolding receive
  receive-round fuel (sent func body) s r r' e = ap (resume (receive fuel)) e
  receive-round fuel (damaged func body check) s r r' e = ap (resume (receive fuel)) e
  receive-round fuel (noise byte) s r r' e = ap (resume (receive fuel)) e
  receive-round fuel silence s r r' e = ap (resume (receive fuel)) e

  counts :
      (board : BoardData F) {b b' f f' : ℕ}
      → b ≡ b'
      → f ≡ f'
      → exit (record { total_bytes = b; valid_frames = f; board = board })
        ≡ exit (record { total_bytes = b'; valid_frames = f'; board = board })
  counts board e e' = rw (e, e') refl

  -- Everything that arrives on the line is taken in: the receiver ends with the data of the reports
  -- decoded one after the other, and has counted them and all bytes; damaged frames, noise and
  -- silence between them change nothing else. Each report fits a frame, a damaged frame has the
  -- length that it says and a wrong sum, and no byte of noise is the head of a frame. As many rounds
  -- as items are enough.
  pub receive-wire :
      (fuel : ℕ) (items : List Item) (r : Receiver F)
      → length items ≤ fuel
      → All IsItem items
      → (board : BoardData F) × (decode items r.board ≡ some board)
        × (receive fuel (wire items) r ≡ exit (received r (total items) (reports items) board))
  receive-wire fuel [] r h all =
      (r.board, refl, receive_nil fuel r ∙ counts r.board (omega arith) (omega arith))
  receive-wire (suc fuel) (sent func body ∷ is) r h (ok, all) =
      let (b, p) = parse_data_total func body (length body) r.board (omega arith) in
      let r' : Receiver F = record {
        total_bytes = r.total_bytes + (length body + 5);
        valid_frames = suc r.valid_frames;
        board = b;
      } in
      let taken = round_accepts func body (wire is) r b ok p in
      let (board, e, eq) = receive-wire fuel is r' (omega arith) all in
      (
        board,
        rw (decode, p) e,
        receive-round fuel (sent func body) (wire is) r r' taken
            ∙ eq
            ∙ counts board (omega arith) (omega arith),
      )
  receive-wire (suc fuel) (damaged func body check ∷ is) r h ((short, wrong), all) =
      let r' = record r { total_bytes = r.total_bytes + (length body + 5) } in
      let (board, e, eq) = receive-wire fuel is r' (omega arith) all in
      (
        board,
        e,
        receive-round fuel (damaged func body check) (wire is) r r'
              (round_rejects func body check (wire is) r short wrong)
            ∙ eq
            ∙ counts board (omega arith) refl,
      )
  receive-wire (suc fuel) (noise byte ∷ is) r h (ne, all) =
      let r' = record r { total_bytes = r.total_bytes + 1 } in
      let (board, e, eq) = receive-wire fuel is r' (omega arith) all in
      (
        board,
        e,
        receive-round fuel (noise byte) (wire is) r r' (round_noise byte (wire is) r ne)
            ∙ eq
            ∙ counts board (omega arith) refl,
      )
  receive-wire (suc fuel) (silence ∷ is) r h (_, all) =
      let (board, e, eq) = receive-wire fuel is r (omega arith) all in
      (
        board,
        e,
        receive-round fuel silence (wire is) r r (round_silence (wire is) r)
            ∙ eq
            ∙ counts board (omega arith) refl,
      )
  receive-wire zero (i ∷ is) r h all = absurd (omega arith)
