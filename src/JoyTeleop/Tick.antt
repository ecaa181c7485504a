-- ===== src/JoyTeleop/Tick.antt =====
-- JoyTeleopNode: the joystick's callback, the timer's tick and the `enabled` parameter.
pub mod Limits
pub mod Engagement
pub mod Release
use Prim.Native.String.{String}
use physicar_ros.Base.{
  ℕ, ◌≡◌, Bool, true, false, not, ◌||◌, ◌&&◌, Option, none, some, List, [], ◌∷◌, ◌++◌,
  if◌then◌else◌, arith, length, get_elem?,
}
use physicar_ros.Base.Int.{ℤ, pos, negsuc, ◌-ℤ◌, leb_ℤ, ltb_ℤ}
use physicar_ros.Double.{Double, rad_of_deg}
use physicar_ros.Driver.Arbitration.{TeleopStatus}
use physicar_ros.JoyTeleop.State.{
  Joy, Teleop, Message, speed, steering, camera_pan, camera_tilt, joy_status, teleop_status,
  is_negative, is_zero, as_float, as_bool, value, int_value, to_int,
}

abbrev pub engage_hold_ns : ℤ
engage_hold_ns = pos 300_000_000

abbrev pub same : Bool → Bool → Bool
same true b = b
same false b = not b

-- Whether it is engaged, and the time of the last operated input.
unfoldable pub engaged_by_input : Bool → ℤ → ℤ → Bool × ℤ
engaged_by_input operated now_ns input_ns =
    let input = if operated then now_ns else input_ns in
    (not (is_negative input) && leb_ℤ (now_ns -ℤ input) engage_hold_ns, input)

abbrev or_else {ℓ} : {A : Type ℓ} → A → Option A → A
or_else a none = a
or_else a (some b) = b

unfoldable pub read_button : List ℤ → ℤ → Bool
read_button buttons (negsuc n) = false
read_button buttons (pos n) =
    if leb_ℤ (to_int (pos (length buttons))) (pos n)
    then false
    else not (is_zero (or_else (pos 0) (get_elem? buttons n)))

module _ {ℓ} {F : Type ℓ} ⦃d : Double F⦄ where
  open d use {literal, lt, eq, neg, mul}

  unfoldable pub clip : F → F → F
  clip v lim = if lt lim v then lim else (if lt v (neg lim) then neg lim else v)

  abbrev pub deg2rad : F → F
  deg2rad = rad_of_deg

  unfoldable pub read_axis : List F → F → Bool → ℤ → F
  read_axis axes dz invert (negsuc n) = literal 0 0
  read_axis axes dz invert (pos n) =
      if leb_ℤ (to_int (pos (length axes))) (pos n)
      then literal 0 0
      else (let raw = or_else (literal 0 0) (get_elem? axes n) in
          let v = if lt (neg dz) raw && lt raw dz then literal 0 0 else raw in
          if invert then neg v else v)

  unfoldable pub axis : ℤ → Bool → Teleop F → F
  axis idx invert s = read_axis s.last_joy.axes (as_float (value "deadzone" s)) invert idx

  -- `btn`, of a joystick message and an index.
  unfoldable pub btn : Joy F → ℤ → Bool
  btn joy idx = read_button joy.buttons idx

  unfoldable pub stick_active : String → String → Teleop F → Bool
  stick_active a b s =
      not (eq (axis (int_value a s) false s) (literal 0 0))
      || not (eq (axis (int_value b s) false s) (literal 0 0))

  -- The timeout is the member `teleop_status_timeout_sec_`, 0.5 s, in nanoseconds.
  unfoldable pub status_of : Teleop F → TeleopStatus
  status_of s = record {
    source = "joy";
    drive_engaged = s.enabled && s.drive_engaged;
    camera_engaged = s.enabled && s.camera_engaged;
    estop_latched = s.estop_latched;
    timeout_sec = pos 0;
    timeout_nanosec = 500_000_000;
  }

  unfoldable pub publish_status : Bool → Teleop F → Teleop F × List (Message F)
  publish_status force s =
      let changed = force || not (same s.enabled s.published_enabled) in
      (
        record s { published_enabled = if changed then s.enabled else s.published_enabled },
        (if changed then joy_status s.enabled ∷ [] else []) ++ teleop_status (status_of s) ∷ [],
      )

  -- `now` is `get_clock()->now()`.
  unfoldable pub on_joy : ℤ → Joy F → Teleop F → Teleop F
  on_joy now msg s =
      let center_now = btn msg (int_value "center_camera_button" s) in
      let center = center_now && not s.prev_center in
      record s {
        last_joy = msg;
        has_joy = true;
        last_joy_time = now;
        estop_latched = btn msg (int_value "estop_button" s);
        pan = if center then literal 0 0 else s.pan;
        tilt = if center then literal 0 0 else s.tilt;
        prev_center = center_now;
      }

  abbrev pub release : Teleop F → Teleop F
  release s = record s { drive_engaged = false; camera_engaged = false }

  -- Engagement of the drive, then of the camera.
  unfoldable pub engage_drive : ℤ → Teleop F → Teleop F
  engage_drive now s =
      let dm = int_value "deadman_button" s in
      let operated = stick_active "axis_speed" "axis_steering" s || s.estop_latched in
      let held = engaged_by_input operated now s.drive_input_ns in
      record s {
        drive_engaged = if is_negative dm then held.0 else btn s.last_joy dm;
        drive_input_ns = if is_negative dm then held.1 else s.drive_input_ns;
      }

  unfoldable pub engage_camera : ℤ → Teleop F → Teleop F
  engage_camera now s =
      let ca = int_value "camera_assist_button" s in
      let operated = stick_active "axis_pan" "axis_tilt" s || s.prev_center in
      let held = engaged_by_input operated now s.camera_input_ns in
      record s {
        camera_engaged = if is_negative ca then held.0 else btn s.last_joy ca;
        camera_input_ns = if is_negative ca then held.1 else s.camera_input_ns;
      }

  -- A limit of the mapping, times an axis, within that limit.
  unfoldable pub scaled : String → String → String → Teleop F → F
  scaled axis_key invert_key max_key s =
      let lim = as_float (value max_key s) in
      clip (mul (axis (int_value axis_key s) (as_bool (value invert_key s)) s) lim) lim

  unfoldable pub drive_messages : Bool → Teleop F → List (Message F)
  drive_messages prev_drive s =
      if s.drive_engaged && not s.estop_latched
      then speed (scaled "axis_speed" "invert_speed" "max_speed" s)
        ∷ steering (deg2rad (scaled "axis_steering" "invert_steering" "max_steering" s))
        ∷ []
      else (if prev_drive && not s.drive_engaged
          then speed (literal 0 0) ∷ steering (literal 0 0) ∷ []
          else (if s.estop_latched && s.drive_engaged then speed (literal 0 0) ∷ [] else []))

  unfoldable pub aim_camera : Teleop F → Teleop F
  aim_camera s = record s {
    pan = if s.camera_engaged then scaled "axis_pan" "invert_pan" "max_pan" s else s.pan;
    tilt = if s.camera_engaged then scaled "axis_tilt" "invert_tilt" "max_tilt" s else s.tilt;
  }

  unfoldable pub camera_messages : Bool → Teleop F → List (Message F)
  camera_messages prev_camera s =
      if s.camera_engaged || prev_camera
      then camera_pan (deg2rad s.pan) ∷ camera_tilt (deg2rad s.tilt) ∷ []
      else []

  abbrev prepend : List (Message F) → Teleop F × List (Message F) → Teleop F × List (Message F)
  prepend ms (s, ns) = (s, ms ++ ns)

  -- The tick of a joystick that is enabled and fresh.
  unfoldable pub operate : ℤ → Teleop F → Teleop F × List (Message F)
  operate now s =
      let engaged = engage_camera now (engage_drive now s) in
      let aimed = aim_camera engaged in
      prepend (drive_messages s.drive_engaged engaged ++ camera_messages s.camera_engaged aimed)
        (publish_status false aimed)

  abbrev pub is_released : ℤ → Teleop F → Bool
  is_released now s =
      not s.has_joy || not s.enabled || ltb_ℤ (pos 500_000_000) (now -ℤ s.last_joy_time)

  unfoldable pub tick : ℤ → Teleop F → Teleop F × List (Message F)
  tick now s = if is_released now s then publish_status false (release s) else operate now s

  -- The callback of the parameters, on each one that is `enabled` and of type bool.
  unfoldable pub set_enabled : Bool → Teleop F → Teleop F × List (Message F)
  set_enabled b s =
      let zeros = speed (literal 0 0) ∷ steering (literal 0 0) ∷ [] in
      prepend (if s.enabled && not b then zeros else [])
        (publish_status true (record s { enabled = b }))
