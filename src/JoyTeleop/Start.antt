-- ===== src/JoyTeleop/Start.antt =====
-- JoyTeleopNode: its constructor and the service that tells the mapping.
use Prim.Native.String.{String}
use physicar_ros.Base.{zero, Bool, true, false, List, [], ◌∷◌}
use physicar_ros.Base.Int.{pos, negsuc}
use physicar_ros.Double.{Double}
use physicar_ros.JoyTeleop.State.{int, float, bool, Teleop, Message}
use physicar_ros.JoyTeleop.Tick.{publish_status}
use physicar_ros.JoyTeleop.Mapping.{
  Host, FileContent, Mapping, restart_timer, load_mapping_from_file, migrate_legacy_radians,
  mapping_to_json,
}

pub record GetResponse : Type 0 where
  pub success : Bool
  pub message : String
  pub source : String
  pub mapping_json : String

module _ {J F : Type 0} ⦃d : Double F⦄ where
  unfoldable pub srv_get : Host J F → Teleop F → GetResponse
  srv_get h s = record {
    success = true;
    message = "";
    source = s.mapping_source;
    mapping_json = mapping_to_json h s;
  }

module _ {F : Type 0} ⦃d : Double F⦄ where
  open d use {literal}

  -- The parameters' defaults, in the order of the keys.
  unfoldable pub default_mapping : Mapping F
  default_mapping =
      ("axis_pan", int (pos 3))
      ∷ ("axis_speed", int (pos 1))
      ∷ ("axis_steering", int (pos 0))
      ∷ ("axis_tilt", int (pos 4))
      ∷ ("camera_assist_button", int (pos 5))
      ∷ ("center_camera_button", int (pos 7))
      ∷ ("deadman_button", int (pos 4))
      ∷ ("deadzone", float (literal 5 2))
      ∷ ("estop_button", int (pos 1))
      ∷ ("invert_pan", bool false)
      ∷ ("invert_speed", bool false)
      ∷ ("invert_steering", bool false)
      ∷ ("invert_tilt", bool false)
      ∷ ("max_pan", float (literal 300 1))
      ∷ ("max_speed", float (literal 20 1))
      ∷ ("max_steering", float (literal 200 1))
      ∷ ("max_tilt", float (literal 300 1))
      ∷ ("rate", float (literal 300 1))
      ∷ []

  -- The members before the file is read.
  unfoldable pub defaults : Teleop F
  defaults = record {
    mapping = default_mapping;
    mapping_source = "default";
    mapping_units = "degrees";
    timer_period = literal 0 0;
    enabled = true;
    last_joy = record { axes = []; buttons = [] };
    has_joy = false;
    last_joy_time = pos 0;
    drive_engaged = false;
    camera_engaged = false;
    drive_input_ns = negsuc zero;
    camera_input_ns = negsuc zero;
    estop_latched = false;
    prev_center = false;
    pan = literal 0 0;
    tilt = literal 0 0;
    published_enabled = false;
  }

module _ {J F : Type 0} ⦃d : Double F⦄ where
  -- The constructor, with the parameters' defaults, and the messages it publishes.
  unfoldable pub start : Host J F → FileContent J → Teleop F × List (Message F)
  start h content =
      publish_status true
        (restart_timer (migrate_legacy_radians h (load_mapping_from_file h content defaults)))
