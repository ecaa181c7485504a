-- ===== src/Rosmaster/Transmit.antt =====
-- RosmasterBoard: the constants of the protocol and the transmit commands.
use physicar_ros.Base.{ℕ, ◌+◌, ◌-◌, ◌/◌, ◌%◌, Bool, false, not, ◌||◌, List, [], ◌∷◌, if◌then◌else◌}
use physicar_ros.Base.Int.{ℤ, pos, negsuc, pos_part, ltb_ℤ, clamp_ℤ}
use physicar_ros.Rosmaster.Hardware.{Hardware, serial, emit}

abbrev pub head : ℕ
head = 0xFF

abbrev pub device_id : ℕ
device_id = 0xFC

abbrev pub complement : ℕ
complement = 257 - device_id

abbrev pub func_beep : ℕ
func_beep = 0x02

abbrev pub func_pwm_servo : ℕ
func_pwm_servo = 0x03

-- `uint16_t sum = start; for (...) sum += bytes[i];`
abbrev pub sum_u16 : ℕ → List ℕ → ℕ
sum_u16 sum [] = sum
sum_u16 sum (b ∷ bs) = sum_u16 ((sum + b) % 65536) bs

abbrev pub checksum : List ℕ → ℕ
checksum cmd = sum_u16 complement cmd % 256

-- The command and its checksum are two writes; a failure of the first keeps the second back.
unfoldable pub send_cmd : List ℕ → Hardware → Hardware × Bool
send_cmd cmd h =
    let (h', written) = emit (serial cmd) h in
    if written then emit (serial (checksum cmd ∷ [])) h' else (h', false)

abbrev pub servo_frame : ℕ → ℕ → List ℕ
servo_frame channel angle = head ∷ device_id ∷ 5 ∷ func_pwm_servo ∷ channel ∷ angle ∷ []

unfoldable pub set_pwm_servo : ℤ → ℤ → Hardware → Hardware × Bool
set_pwm_servo channel angle h =
    if not h.connected || ltb_ℤ channel (pos 1) || ltb_ℤ (pos 4) channel
    then (h, false)
    else send_cmd
        (servo_frame (pos_part channel % 256) (pos_part (clamp_ℤ angle (pos 0) (pos 180)) % 256)) h

-- The two's complement pattern of an integer in 16 bits.
abbrev pub to_u16 : ℤ → ℕ
to_u16 (pos n) = n % 65536
to_u16 (negsuc n) = 65535 - n % 65536

abbrev pub beep_frame : ℤ → List ℕ
beep_frame duration =
    head ∷ device_id ∷ 5 ∷ func_beep ∷ to_u16 duration % 256 ∷ to_u16 duration / 256 % 256 ∷ []

unfoldable pub set_beep : ℤ → Hardware → Hardware × Bool
set_beep duration h = if not h.connected then (h, false) else send_cmd (beep_frame duration) h
