-- ===== src/Rosmaster/Tests.antt =====
-- The theorems on the serial board, on concrete frames.
use physicar_ros.Base.{ℕ, ◌≡◌, ◌≢◌, ◌↔◌, refl, some, List, [], ◌∷◌, ◌++◌, map, arith}
use physicar_ros.Double.Micro.{Micro, micro_double, dec}
use physicar_ros.Rosmaster.Report.{BoardData, ImuData, parse_data, parse_speed}
use physicar_ros.Rosmaster.Receive.{
  Read, got, Receiver, next, fault, round, receive, exit, out_of_fuel,
}
use physicar_ros.Rosmaster.Receive.Framing.{report, report_sum, round_accepts}
use physicar_ros.Rosmaster.Receive.Stream.{
  Item, sent, damaged, noise, silence, wire, total, reports, decode, received, receive-wire,
}
use physicar_ros.Rosmaster.Receive.Progress.{receive_ends}
use physicar_ros.Rosmaster.Receive.Safety.{round_fault_iff}

abbrev imu : ImuData Micro
imu = record {
  ax = dec 0 0;
  ay = dec 0 0;
  az = dec 0 0;
  gx = dec 0 0;
  gy = dec 0 0;
  gz = dec 0 0;
  mx = dec 0 0;
  my = dec 0 0;
  mz = dec 0 0;
  roll = dec 0 0;
  pitch = dec 0 0;
  yaw = dec 0 0;
}

abbrev board_at : Micro → BoardData Micro
board_at v = record { imu = imu; battery_voltage = v }

abbrev idle : Receiver Micro
idle = record { total_bytes = 0; valid_frames = 0; board = board_at (dec 0 0) }

-- A report of speed whose seventh byte gives 7.4 V.
abbrev speed_body : List ℕ
speed_body = 0 ∷ 0 ∷ 0 ∷ 0 ∷ 0 ∷ 0 ∷ 74 ∷ []

speed_parsed : parse_data 0x0A speed_body 7 (board_at (dec 0 0)) ≡ some (board_at (dec 74 1))
unfolding parse_data parse_speed
speed_parsed = refl

round_accepts_example :
    round (map got (report 0x0A speed_body (report_sum 0x0A speed_body)) ++ got 1 ∷ []) idle
    ≡ next (got 1 ∷ []) (record { total_bytes = 12; valid_frames = 1; board = board_at (dec 74 1) })
round_accepts_example =
    round_accepts 0x0A speed_body (got 1 ∷ []) idle (board_at (dec 74 1)) (omega arith) speed_parsed

receive_ends_example : receive 12 (map got (report 0x0A speed_body 0)) idle ≢ out_of_fuel
receive_ends_example = receive_ends 12 (map got (report 0x0A speed_body 0)) idle (omega arith)

abbrev short_frame : List Read
short_frame = got 0xFF ∷ got 0xFB ∷ got 2 ∷ got 0x0A ∷ []

round_fault_iff_example :
    (round short_frame idle ≡ fault)
    ↔ ((t : ℕ) × (rest : List Read) × (short_frame ≡ got 0xFF ∷ got 0xFB ∷ got 2 ∷ got t ∷ rest))
round_fault_iff_example = round_fault_iff short_frame idle

-- Noise, a report, a damaged report, a read without a byte, and a report again.
abbrev stream : List Item
stream =
    noise 0x12
    ∷ sent 0x0A speed_body
    ∷ damaged 0x0A speed_body 0
    ∷ silence
    ∷ sent 0x0A speed_body
    ∷ []

receive-wire_example :
    (board : BoardData Micro) × (decode stream idle.board ≡ some board)
    × (receive 5 (wire stream) idle ≡ exit (received idle (total stream) (reports stream) board))
receive-wire_example =
    receive-wire 5 stream idle (omega arith)
      (omega arith, (omega arith, ((omega arith, omega arith), (tt, (omega arith, tt)))))
