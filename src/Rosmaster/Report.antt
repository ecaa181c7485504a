-- ===== src/Rosmaster/Report.antt =====
-- RosmasterBoard: decoding of a report of the board. A read outside the data is `none`.
use native.Mathlib.Nat.{le_trans}
use physicar_ros.Base.{
  ◌>>=◌, ℕ, zero, suc, ◌+◌, ◌-◌, ◌*◌, ◌≤◌, ◌<◌, ◌≡◌, ◌≢◌, ◌⊎◌, inl, inr, Bool-cases, refl, Bool,
  true, false, ◌&&◌, Option, none, some, List, [], ◌∷◌, if◌then◌else◌, arith, ltb, leb, ◌==◌,
  length, get_elem?,
}
use physicar_ros.Base.Int.{ℤ, pos, negsuc}
use physicar_ros.Double.{Double}

abbrev pub func_report_speed : ℕ
func_report_speed = 0x0A

abbrev pub func_report_mpu_raw : ℕ
func_report_mpu_raw = 0x0B

abbrev pub func_report_imu_att : ℕ
func_report_imu_att = 0x0C

abbrev pub func_report_icm_raw : ℕ
func_report_icm_raw = 0x0E

pub record ImuData {ℓ} (F : Type ℓ) : Type ℓ where
  pub ax : F
  pub ay : F
  pub az : F
  pub gx : F
  pub gy : F
  pub gz : F
  pub mx : F
  pub my : F
  pub mz : F
  pub roll : F
  pub pitch : F
  pub yaw : F

-- `imu_` and `battery_voltage_`.
pub record BoardData {ℓ} (F : Type ℓ) : Type ℓ where
  pub imu : ImuData F
  pub battery_voltage : F

-- A little-endian `int16_t` at an offset.
abbrev pub signed16 : ℕ → ℤ
signed16 w = if ltb w 32768 then pos w else negsuc (65535 - w)

unfoldable pub unpack_i16 : List ℕ → ℕ → Option ℤ
unpack_i16 d i = do lo ← get_elem? d i; hi ← get_elem? d (i + 1); some (signed16 (lo + 256 * hi))

-- A read that was inside the data.
abbrev IsDefined {ℓ} : {A : Type ℓ} → Option A → Type 0
IsDefined none = ⊥
IsDefined (some a) = Unit

some_of_IsDefined {ℓ} : {A : Type ℓ} (o : Option A) → IsDefined o → (a : A) × (o ≡ some a)
some_of_IsDefined none h = absurd h
some_of_IsDefined (some a) h = (a, refl)

IsDefined-if {ℓ} :
    {A : Type ℓ} (b : Bool) (x y : Option A)
    → (b ≡ true → IsDefined x)
    → IsDefined y
    → IsDefined (if b then x else y)
IsDefined-if true x y hx hy = hx refl
IsDefined-if false x y hx hy = hy

>>=-IsDefined {ℓ κ} :
    {A : Type ℓ} {B : Type κ} (m : Option A) (f : A → Option B)
    → IsDefined m
    → ((a : A) → IsDefined (f a))
    → IsDefined (m >>= f)
>>=-IsDefined none f h k = absurd h
>>=-IsDefined (some a) f h k = k a

get_elem?-IsDefined : (bytes : List ℕ) (i : ℕ) → i < length bytes → IsDefined (get_elem? bytes i)
get_elem?-IsDefined [] i h = elim h [ ]
get_elem?-IsDefined (b ∷ bs) zero h = tt
get_elem?-IsDefined (b ∷ bs) (suc i) h = get_elem?-IsDefined bs i (omega arith)

unpack_i16-IsDefined :
    (bytes : List ℕ) (i : ℕ) → i + 2 ≤ length bytes → IsDefined (unpack_i16 bytes i)
unfolding unpack_i16
unpack_i16-IsDefined bytes i h =
    >>=-IsDefined (get_elem? bytes i) _ (get_elem?-IsDefined bytes i (omega arith)) λ lo.
      >>=-IsDefined (get_elem? bytes (i + 1)) _ (get_elem?-IsDefined bytes (i + 1) (omega arith))
        λ hi. tt

-- Continues after a word that lies inside the data.
word {ℓ} :
    {B : Type ℓ} (bytes : List ℕ) (i : ℕ) (f : ℤ → Option B)
    → i + 2 ≤ length bytes
    → ((v : ℤ) → IsDefined (f v))
    → IsDefined (unpack_i16 bytes i >>= f)
word bytes i f h = >>=-IsDefined (unpack_i16 bytes i) f (unpack_i16-IsDefined bytes i h)

guard_len : (func code bound len : ℕ) → (func == code && leb bound len) ≡ true → bound ≤ len
guard_len func code bound len h = ground arith

module _ {ℓ} {F : Type ℓ} ⦃d : Double F⦄ where
  open d use {literal, of_ℤ, mul, div, neg}

  abbrev scaled : F → ℤ → F
  scaled r v = mul (of_ℤ v) r

  unfoldable pub parse_mpu_raw : List ℕ → ImuData F → Option (ImuData F)
  parse_mpu_raw bytes imu = do
    gx ← unpack_i16 bytes 0
    gy ← unpack_i16 bytes 2
    gz ← unpack_i16 bytes 4
    ax ← unpack_i16 bytes 6
    ay ← unpack_i16 bytes 8
    az ← unpack_i16 bytes 10
    mx ← unpack_i16 bytes 12
    my ← unpack_i16 bytes 14
    mz ← unpack_i16 bytes 16
    let gyro_r = div (literal 1 0) (literal 37549 1)
    let acc_r = div (literal 1 0) (literal 167184 2)
    some (record imu {
      gx = scaled gyro_r gx;
      gy = neg (scaled gyro_r gy);
      gz = neg (scaled gyro_r gz);
      ax = scaled acc_r ax;
      ay = scaled acc_r ay;
      az = scaled acc_r az;
      mx = of_ℤ mx;
      my = of_ℤ my;
      mz = of_ℤ mz;
    })

  unfoldable pub parse_icm_raw : List ℕ → ImuData F → Option (ImuData F)
  parse_icm_raw bytes imu = do
    gx ← unpack_i16 bytes 0
    gy ← unpack_i16 bytes 2
    gz ← unpack_i16 bytes 4
    ax ← unpack_i16 bytes 6
    ay ← unpack_i16 bytes 8
    az ← unpack_i16 bytes 10
    mx ← unpack_i16 bytes 12
    my ← unpack_i16 bytes 14
    mz ← unpack_i16 bytes 16
    let r = div (literal 1 0) (literal 1000 0)
    some (record imu {
      gx = scaled r gx;
      gy = scaled r gy;
      gz = scaled r gz;
      ax = scaled r ax;
      ay = scaled r ay;
      az = scaled r az;
      mx = scaled r mx;
      my = scaled r my;
      mz = scaled r mz;
    })

  unfoldable pub parse_imu_att : List ℕ → ImuData F → Option (ImuData F)
  parse_imu_att bytes imu = do
    roll ← unpack_i16 bytes 0
    pitch ← unpack_i16 bytes 2
    yaw ← unpack_i16 bytes 4
    let r = literal 10000 0
    some (record imu {
      roll = div (of_ℤ roll) r;
      pitch = div (of_ℤ pitch) r;
      yaw = div (of_ℤ yaw) r;
    })

  unfoldable pub parse_speed : List ℕ → BoardData F → Option (BoardData F)
  parse_speed bytes board = do
    b ← get_elem? bytes 6
    some (record board { battery_voltage = div (of_ℤ (pos b)) (literal 10 0) })

  abbrev with_imu : BoardData F → Option (ImuData F) → Option (BoardData F)
  with_imu board r = r >>= λ imu. some (record board { imu = imu })

  with_imu-IsDefined :
      (board : BoardData F) (r : Option (ImuData F)) → IsDefined r → IsDefined (with_imu board r)
  with_imu-IsDefined board r h = >>=-IsDefined r _ h (λ _. tt)

  parse_speed-IsDefined :
      (bytes : List ℕ) (board : BoardData F)
      → 7 ≤ length bytes
      → IsDefined (parse_speed bytes board)
  unfolding parse_speed
  parse_speed-IsDefined bytes board h =
      >>=-IsDefined (get_elem? bytes 6) _ (get_elem?-IsDefined bytes 6 (omega arith)) (λ _. tt)

  parse_mpu_raw-IsDefined :
      (bytes : List ℕ) (imu : ImuData F) → 18 ≤ length bytes → IsDefined (parse_mpu_raw bytes imu)
  unfolding parse_mpu_raw
  parse_mpu_raw-IsDefined bytes imu h = word bytes 0 _ (omega arith) λ _.
      word bytes 2 _ (omega arith) λ _. word bytes 4 _ (omega arith) λ _.
        word bytes 6 _ (omega arith) λ _. word bytes 8 _ (omega arith) λ _.
          word bytes 10 _ (omega arith) λ _.
            word bytes 12 _ (omega arith)
              λ _. word bytes 14 _ (omega arith) λ _. word bytes 16 _ (omega arith) λ _. tt

  parse_icm_raw-IsDefined :
      (bytes : List ℕ) (imu : ImuData F) → 18 ≤ length bytes → IsDefined (parse_icm_raw bytes imu)
  unfolding parse_icm_raw
  parse_icm_raw-IsDefined bytes imu h = word bytes 0 _ (omega arith) λ _.
      word bytes 2 _ (omega arith) λ _. word bytes 4 _ (omega arith) λ _.
        word bytes 6 _ (omega arith) λ _. word bytes 8 _ (omega arith) λ _.
          word bytes 10 _ (omega arith) λ _.
            word bytes 12 _ (omega arith)
              λ _. word bytes 14 _ (omega arith) λ _. word bytes 16 _ (omega arith) λ _. tt

  parse_imu_att-IsDefined :
      (bytes : List ℕ) (imu : ImuData F) → 6 ≤ length bytes → IsDefined (parse_imu_att bytes imu)
  unfolding parse_imu_att
  parse_imu_att-IsDefined bytes imu h =
      word bytes 0 _ (omega arith)
        λ _. word bytes 2 _ (omega arith) λ _. word bytes 4 _ (omega arith) λ _. tt

  with_imu-battery :
      (board : BoardData F) (r : Option (ImuData F)) (new : BoardData F)
      → with_imu board r ≡ some new
      → new.battery_voltage ≡ board.battery_voltage
  with_imu-battery board none new e = cc
  with_imu-battery board (some imu) new e = ground arith

  parse_speed-imu :
      (bytes : List ℕ) (board new : BoardData F)
      → parse_speed bytes board ≡ some new
      → new.imu ≡ board.imu
  unfolding parse_speed
  parse_speed-imu bytes board new e = ground arith

  unfoldable pub parse_data : ℕ → List ℕ → ℕ → BoardData F → Option (BoardData F)
  parse_data func bytes len board =
      if func == func_report_speed && leb 7 len
      then parse_speed bytes board
      else if func == func_report_mpu_raw && leb 18 len
      then with_imu board (parse_mpu_raw bytes board.imu)
      else if func == func_report_icm_raw && leb 18 len
      then with_imu board (parse_icm_raw bytes board.imu)
      else if func == func_report_imu_att && leb 6 len
      then with_imu board (parse_imu_att bytes board.imu)
      else some board

  -- A report that is as long as announced is decoded with no read outside it.
  pub parse_data_total :
      (func : ℕ) (bytes : List ℕ) (len : ℕ) (board : BoardData F)
      → len ≤ length bytes
      → (new : BoardData F) × (parse_data func bytes len board ≡ some new)
  unfolding parse_data
  parse_data_total func bytes len board h = some_of_IsDefined _ (
      IsDefined-if _ _ _
        (λ t.
          parse_speed-IsDefined bytes board (le_trans (guard_len func func_report_speed 7 len t) h))
        (IsDefined-if _ _ _
          (λ t. with_imu-IsDefined board _ (
            parse_mpu_raw-IsDefined bytes board.imu
              (le_trans (guard_len func func_report_mpu_raw 18 len t) h)))
          (IsDefined-if _ _ _
            (λ t. with_imu-IsDefined board _ (
              parse_icm_raw-IsDefined bytes board.imu
                (le_trans (guard_len func func_report_icm_raw 18 len t) h)))
            (IsDefined-if _ _ _
              (λ t. with_imu-IsDefined board _ (
                parse_imu_att-IsDefined bytes board.imu
                  (le_trans (guard_len func func_report_imu_att 6 len t) h)))
              tt))))

  -- A report of speed leaves the inertial data as they were, and any other report leaves the battery
  -- voltage.
  pub parse_data_frame :
      (func : ℕ) (bytes : List ℕ) (len : ℕ) (board new : BoardData F)
      → parse_data func bytes len board ≡ some new
      → ((func ≡ func_report_speed) × (new.imu ≡ board.imu))
        ⊎ ((func ≢ func_report_speed) × (new.battery_voltage ≡ board.battery_voltage))
  unfolding parse_data
  parse_data_frame func bytes len board new e = elim (Bool-cases (func == func_report_speed)) [
    | inl speed ↦ inl (ground arith, ground (arith, parse_speed-imu bytes board new))
    | inr other ↦ inr (
      ground arith,
      ground (
        arith,
        with_imu-battery board (parse_mpu_raw bytes board.imu) new,
        with_imu-battery board (parse_icm_raw bytes board.imu) new,
        with_imu-battery board (parse_imu_att bytes board.imu) new,
      ),
    )
  ]
