-- ===== src/Driver/Arbitration.antt =====
-- PhysicarDriverNode: the teleop sources, and who owns the drive and the camera.
use Prim.Native.String.{String}
use text.Mathlib.Text.{◌==◌ as str_eq}
use text.Mathlib.TextEquality.{eq_iff}
use physicar_ros.Base.{
  ℕ, ◌≡◌, refl, Bool, true, false, ◌&&◌, ◌||◌, none, List, [], ◌∷◌, if◌then◌else◌, arith,
}
use physicar_ros.Base.Int.{ℤ, pos, ◌-ℤ◌, leb_ℤ}
use physicar_ros.Double.{Double}
use physicar_ros.StringMap.{lookup, insert, lookup-insert}
use physicar_ros.Driver.State.{Driver, TeleopSource}

-- physicar_interfaces/msg/TeleopStatus.
pub record TeleopStatus : Type 0 where
  pub source : String
  pub drive_engaged : Bool
  pub camera_engaged : Bool
  pub estop_latched : Bool
  pub timeout_sec : ℤ
  pub timeout_nanosec : ℕ

-- Tests over the entries of a map, and maps with one entry for a key at most.
module _ {ℓ} {V : Type ℓ} where
  -- A loop that returns true at the first entry that passes the test.
  unfoldable pub any : (V → Bool) → List (String × V) → Bool
  any test [] = false
  any test ((k, v) ∷ m) = if test v then true else any test m

  -- The loop over the entries of the other keys.
  abbrev pub any_except : String → (V → Bool) → List (String × V) → Bool
  any_except k test [] = false
  any_except k test ((j, v) ∷ m) =
      if str_eq j k then any_except k test m else (if test v then true else any_except k test m)

  abbrev pub Distinct : List (String × V) → Type ℓ
  Distinct [] = Unit
  Distinct ((k, v) ∷ m) = (lookup k m ≡ none) × Distinct m

  any_except_absent :
      (k : String) (test : V → Bool) (m : List (String × V))
      → lookup k m ≡ none
      → any test m ≡ any_except k test m
  unfolding lookup any
  any_except_absent k test [] h = refl
  any_except_absent k test ((j, v) ∷ m) h = ground (arith, any_except_absent k test m)

  -- After an insertion, what passes the test is the new entry or an entry of another key.
  pub any-insert :
      (test : V → Bool) (k : String) (v : V) (m : List (String × V))
      → Distinct m
      → any test (insert k v m) ≡ (test v || any_except k test m)
  unfolding any insert
  any-insert test k v [] h = ground arith
  any-insert test k v ((i, w) ∷ m) h =
      ground (arith, eq_iff i k, any-insert test k v m, any_except_absent k test m)

  pub insert-Distinct :
      (k : String) (v : V) (m : List (String × V)) → Distinct m → Distinct (insert k v m)
  unfolding insert lookup
  insert-Distinct k v [] h = (refl, tt)
  insert-Distinct k v ((i, w) ∷ m) h =
      ground (arith, eq_iff i k, eq_iff k i, lookup-insert m k i v, insert-Distinct k v m)

unfoldable pub source_name : TeleopStatus → String
source_name msg = if str_eq msg.source "" then "unknown" else msg.source

module _ {ℓ} {F : Type ℓ} ⦃d : Double F⦄ where
  open d use {literal, of_ℤ, trunc, le, add, mul, div}

  -- `(now_ns - s.last_ns) <= static_cast<int64_t>(s.timeout_sec * 1e9)`
  unfoldable pub is_fresh : ℤ → TeleopSource F → Bool
  is_fresh now s = leb_ℤ (now -ℤ s.last_ns) (trunc (mul s.timeout_sec (literal 1_000_000_000 0)))

  unfoldable pub drive_engaged : ℤ → Driver F → Bool
  drive_engaged now s = any (λ t. is_fresh now t && t.drive) s.teleop_sources

  unfoldable pub camera_engaged : ℤ → Driver F → Bool
  camera_engaged now s = any (λ t. is_fresh now t && t.camera) s.teleop_sources

  unfoldable pub source_timeout : TeleopStatus → F
  source_timeout msg =
      let timeout =
        add (of_ℤ msg.timeout_sec)
          (div (of_ℤ (pos msg.timeout_nanosec)) (literal 1_000_000_000 0)) in
      if le timeout (literal 0 0) then literal 5 1 else timeout

  unfoldable pub teleop_status_callback : ℤ → TeleopStatus → Driver F → Driver F
  unfolding source_name
  teleop_status_callback now msg s = record s {
    teleop_sources =
        insert (source_name msg)
          (record {
            drive = msg.drive_engaged;
            camera = msg.camera_engaged;
            estop = msg.estop_latched;
            timeout_sec = source_timeout msg;
            last_ns = now;
          })
          s.teleop_sources;
  }
