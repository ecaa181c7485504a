-- ===== src/Rosmaster/Hardware.antt =====
-- What leaves the driver node for the hardware: writes on the serial line and to the sysfs files of
-- the two PWM channels. The kernel decides whether a write succeeds (`accepts`).
use physicar_ros.Base.{ℕ, Bool, true, false, List, ◌∷◌, if◌then◌else◌, arith, All}
use physicar_ros.Base.Int.{ℤ}

pub data PwmFile : Type 0 where
  export_file : PwmFile
  period : ℕ → PwmFile
  duty_cycle : ℕ → PwmFile
  enable : ℕ → PwmFile

pub data Output : Type 0 where
  serial : List ℕ → Output
  pwm : PwmFile → ℤ → Output

-- `connected` is `is_connected()` of the serial board; `log` holds the writes done, newest first.
pub record Hardware : Type 0 where
  pub connected : Bool
  pub accepts : Output → Bool
  pub log : List Output

-- One `write`: its bytes leave only if the kernel takes them.
unfoldable pub emit : Output → Hardware → Hardware × Bool
emit o h = if h.accepts o then (record h { log = o ∷ h.log }, true) else (h, false)

-- A write that has a property keeps it true of everything written.
pub emit-All {ℓ} :
    (P : Output → Type ℓ) (o : Output) (h : Hardware) → P o → All P h.log → All P (emit o h).0.log
unfolding emit
emit-All P o h p all = ground arith
