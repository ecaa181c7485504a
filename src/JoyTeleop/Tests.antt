-- ===== src/JoyTeleop/Tests.antt =====
-- The theorems on the joystick teleop, on concrete states and requests.
use Prim.Native.String.{String}
use physicar_ros.Base.{
  ◌≡◌, ◌⊎◌, inl, inr, refl, Bool, true, false, none, some, [], ◌∷◌, All, if◌then◌else◌,
}
use physicar_ros.Base.Int.{ℤ, pos, negsuc}
use physicar_ros.Double.Micro.{Micro, micro_double, dec, Micro-IsOrdered}
use physicar_ros.StringMap.{lookup}
use physicar_ros.JoyTeleop.State.{
  Val, int, float, bool, Teleop, speed, steering, value, int_value, is_int_key, is_float_key,
  is_bool_key, is_known_key, to_int,
}
use physicar_ros.JoyTeleop.Tick.{
  engaged_by_input, tick, engage_drive, engage_camera, operate, aim_camera, publish_status,
  stick_active, axis, read_axis, btn, read_button,
}
use physicar_ros.JoyTeleop.Tick.Limits.{HasLimits, IsAimed, IsLimited, tick-IsLimited}
use physicar_ros.JoyTeleop.Tick.Engagement.{Samples}
use physicar_ros.JoyTeleop.Tick.Release.{drive_part, tick_estop}
use physicar_ros.JoyTeleop.Mapping.{
  Host, SetRequest, thrown, srv_set, set_updates, read_updates, coerce, save_mapping_to_file,
}
use physicar_ros.JoyTeleop.Mapping.Validity.{IsValid, srv_set-IsValid}
use physicar_ros.JoyTeleop.Mapping.Update.{IsRefused, srv_set_failure}

-- Operated at 0.1 s and at 0.2 s, centred at 0.3 s.
abbrev samples : Samples
samples = (true, 100_000_000) ∷ (true, 200_000_000) ∷ (false, 300_000_000) ∷ []

-- No engage button; the stick pushed halfway.
abbrev stick : Teleop Micro
stick = record {
  mapping =
      ("axis_speed", int (pos 1))
      ∷ ("axis_steering", int (pos 0))
      ∷ ("deadman_button", int (negsuc 0))
      ∷ ("camera_assist_button", int (pos 5))
      ∷ ("deadzone", float (dec 5 2))
      ∷ ("max_speed", float (dec 2 0))
      ∷ ("max_steering", float (dec 20 0))
      ∷ ("max_pan", float (dec 30 0))
      ∷ ("max_tilt", float (dec 30 0))
      ∷ ("rate", float (dec 30 0))
      ∷ [];
  mapping_source = "default";
  mapping_units = "degrees";
  timer_period = dec 33 3;
  enabled = true;
  last_joy = record { axes = dec 0 0 ∷ dec 5 1 ∷ []; buttons = [] };
  has_joy = true;
  last_joy_time = pos 0;
  drive_engaged = true;
  camera_engaged = false;
  drive_input_ns = negsuc 0;
  camera_input_ns = negsuc 0;
  estop_latched = false;
  prev_center = false;
  pan = dec 0 0;
  tilt = dec 0 0;
  published_enabled = true;
}

stick_limits : HasLimits stick
unfolding value lookup
stick_limits = record {
  speed_limit = refl;
  steering_limit = refl;
  pan_limit = refl;
  tilt_limit = refl;
}

stick-IsAimed : IsAimed stick
unfolding value lookup
stick-IsAimed = (inr (refl, refl), inr (refl, refl))

tick-IsLimited_example :
    All (IsLimited stick) (tick (pos 0) stick).1 × IsAimed (tick (pos 0) stick).0
tick-IsLimited_example = tick-IsLimited Micro-IsOrdered (pos 0) stick stick_limits stick-IsAimed

-- The stick is let go, and was not operated before.
abbrev let_go : Teleop Micro
let_go = record stick { last_joy = record { axes = dec 0 0 ∷ dec 0 0 ∷ []; buttons = [] } }

let_go_ends : (tick (pos 0) let_go).0.drive_engaged ≡ false
unfolding tick operate engage_drive engage_camera aim_camera publish_status int_value value lookup
    to_int stick_active axis read_axis engaged_by_input btn read_button
let_go_ends = refl

abbrev stopped : Teleop Micro
stopped = record stick { estop_latched = true }

tick_estop_example : drive_part (tick (pos 0) stopped).1 ≡ (
    if (tick (pos 0) stopped).0.drive_engaged
    then speed (dec 0 0) ∷ []
    else speed (dec 0 0) ∷ steering (dec 0 0) ∷ [])
tick_estop_example = tick_estop (pos 0) stopped refl

abbrev as_int_value : Val Micro → String ⊎ ℤ
as_int_value (int i) = inr i
as_int_value v = inl "type must be number"

abbrev as_float_value : Val Micro → String ⊎ Micro
as_float_value (float f) = inr f
as_float_value v = inl "type must be number"

abbrev as_bool_value : Val Micro → String ⊎ Bool
as_bool_value (bool b) = inr b
as_bool_value v = inl "type must be boolean"

-- JSON values are the values of a mapping; nothing parses, and the file cannot be written.
abbrev host : Host (Val Micro) Micro
host = record {
  get_int = as_int_value;
  get_float = as_float_value;
  get_bool = as_bool_value;
  get_string = λ _. none;
  of_int = int;
  of_float = float;
  of_bool = bool;
  of_string = λ _. bool false;
  parse = λ _. inl "parse error";
  items = λ _. none;
  dump = λ _. "";
  dump_indented = λ _. "";
  write = λ _. thrown "read-only";
  number = λ _. "1";
}

abbrev request : SetRequest Micro
request = record {
  mapping_json = "";
  key = "max_speed";
  int_value = pos 0;
  float_value = dec 1 0;
  bool_value = false;
  save_to_file = true;
}

stick-IsValid : IsValid stick.mapping
unfolding is_int_key is_float_key is_bool_key
stick-IsValid = (
  (refl, refl),
  (
    (refl, refl),
    (
      (refl, refl),
      (
        (refl, refl),
        (
          (refl, refl),
          ((refl, refl), ((refl, refl), ((refl, refl), ((refl, refl), ((refl, refl), tt))))),
        ),
      ),
    ),
  ),
)

srv_set-IsValid_example : IsValid (srv_set host request stick).0.mapping
srv_set-IsValid_example = srv_set-IsValid host request stick stick-IsValid

srv_set_fails : (srv_set host request stick).1.success ≡ false
unfolding srv_set set_updates read_updates coerce save_mapping_to_file is_int_key is_float_key
    is_bool_key is_known_key
srv_set_fails = refl

srv_set_failure_example : IsRefused host request stick (srv_set host request stick).0
srv_set_failure_example = srv_set_failure host request stick srv_set_fails

-- A file with one member, which the host reads as a speed limit.
abbrev reading : Host (Val Micro) Micro
reading = record host { items = λ j. some (("max_speed", j) ∷ []) }
