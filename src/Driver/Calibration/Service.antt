-- ===== src/Driver/Calibration/Service.antt =====
-- PhysicarDriverNode::set_calibration_cb.
use Prim.Native.String.{String, ◌++◌ as ◌<>◌, len, slice}
use text.Mathlib.Text.{◌==◌ as str_eq}
use physicar_ros.Base.{◌-◌, Bool, true, false, not, ◌||◌, ◌&&◌, if◌then◌else◌, ltb}
use physicar_ros.Double.{Double}
use physicar_ros.Driver.Calibration.{
  CalibrationData, Files, CalibrationRequest, CalibrationResponse, Calibrated, to_json, save,
  apply_calibration, load_and_apply_calibration,
}

abbrev pub ends_with : String → String → Bool
ends_with suffix s =
    ltb (len suffix) (len s) && str_eq (slice s (len s - len suffix) (len s)) suffix

abbrev pub without : String → String → String
without suffix s = slice s 0 (len s - len suffix)

abbrev pub is_axis : String → Bool
is_axis name = str_eq name "steering" || str_eq name "pan" || str_eq name "tilt"

module _ {F : Type 0} ⦃d : Double F⦄ where
  open d use {literal, lt, le, neg}

  abbrev pub validate : F → F → F → Bool
  validate v lo hi = le lo v && le v hi

  abbrev pub is_center : F → Bool
  is_center v = validate v (neg (literal 15 0)) (literal 15 0)

  -- An answer without a save.
  abbrev pub refuse : Files F → String → Calibrated F → Calibrated F × CalibrationResponse
  refuse h text s =
      (s, record { success = false; message = text; current_calibration_json = to_json h s.cal })

  -- What every other branch ends with.
  unfoldable pub finish :
      Files F → Bool → String → Calibrated F → Calibrated F × CalibrationResponse
  finish h ok text s =
      let (c, saved) = save h s.cal in
      (
        record s { cal = c },
        record {
          success = saved && ok;
          message = text <> (if saved then " (saved)" else " (save failed!)");
          current_calibration_json = to_json h c;
        },
      )

  abbrev pub with_reverse : Bool → CalibrationData F → CalibrationData F
  with_reverse b c = record c { reverse_direction = b; is_saved = false }

  abbrev pub with_gain : F → CalibrationData F → CalibrationData F
  with_gain g c = record c { speed_gain = g; is_saved = false }

  unfoldable pub with_center : String → F → CalibrationData F → CalibrationData F
  with_center name v c =
      if str_eq name "steering"
      then record c { steering_center = v; is_saved = false }
      else (if str_eq name "pan"
          then record c { pan_center = v; is_saved = false }
          else record c { tilt_center = v; is_saved = false })

  abbrev pub set_reverse : CalibrationRequest F → Calibrated F → Calibrated F
  set_reverse req s = apply_calibration "" (record s { cal = with_reverse req.bool_value s.cal })

  abbrev pub set_gain : CalibrationRequest F → Calibrated F → Calibrated F
  set_gain req s = apply_calibration "" (record s { cal = with_gain req.max_value s.cal })

  abbrev pub set_center : String → CalibrationRequest F → Calibrated F → Calibrated F
  set_center name req s =
      apply_calibration name (record s { cal = with_center name req.center_value s.cal })

  -- `max_value` carries the gain.
  abbrev pub is_no_gain : F → Bool
  is_no_gain g = lt g (literal 1 1) || lt (literal 50 1) g

  -- `note` stands behind the message of an accepted centre.
  unfoldable pub center_branch :
      Files F
      → String
      → String
      → CalibrationRequest F
      → Calibrated F
      → Calibrated F × CalibrationResponse
  center_branch h name note req s =
      if not (is_center req.center_value)
      then refuse h (name <> "_center out of range [-15, 15]") s
      else finish h true (name <> ": center=" <> h.to_string req.center_value <> "°" <> note)
          (set_center name req s)

  unfoldable pub set_calibration :
      Files F → CalibrationRequest F → Calibrated F → Calibrated F × CalibrationResponse
  set_calibration h req s =
      let channel = h.lower req.channel in
      let base = without "_center" channel in
      let loaded = load_and_apply_calibration h s in
      if str_eq channel "all"
      then finish h true ("Calibration reloaded from " <> loaded.cal.source) loaded
      else (if str_eq channel "reverse"
          then finish h true
              ("reverse_direction set to " <> (if req.bool_value then "true" else "false"))
              (set_reverse req s)
          else (if str_eq channel "speed"
              then finish h false "max_speed is a hardware constant" s
              else (if str_eq channel "speed_gain"
                  then (if is_no_gain req.max_value
                      then refuse h "speed_gain out of range [0.1, 5.0]" s
                      else finish h true ("speed_gain set to " <> h.to_string req.max_value)
                          (set_gain req s))
                  else (if is_axis channel
                      then center_branch h channel " (moved to center)" req s
                      else (if ends_with "_max" channel
                          then finish h false "max values are hardware constants, not adjustable" s
                          else (if ends_with "_center" channel && is_axis base
                              then center_branch h base "" req s
                              else refuse h ("Invalid channel: " <> channel) s))))))
