-- ===== src/JoyTeleop/Mapping.antt =====
-- JoyTeleopNode: the mapping of the controls, its file and the service that sets it.
pub mod Validity
pub mod Update
use Prim.Native.String.{String, ◌++◌ as ◌<>◌}
use text.Mathlib.Text.{◌==◌ as str_eq}
use physicar_ros.Base.{
  ℕ, zero, suc, ◌≡◌, ◌⊎◌, inl, inr, Bool, true, false, not, ◌||◌, ◌&&◌, Option, none, some, List,
  [], ◌∷◌, ◌++◌, map, if◌then◌else◌, arith, length,
}
use physicar_ros.Base.Int.{ℤ, pos, negsuc, ltb_ℤ}
use physicar_ros.Double.{Double, deg_of_rad, max}
use physicar_ros.StringMap.{lookup, insert}
use physicar_ros.JoyTeleop.State.{
  Val, int, float, bool, Teleop, as_float, value, is_int_key, is_float_key, is_bool_key,
  is_known_key,
}

-- A value, or the text of the exception that is thrown instead.
abbrev pub Result {ℓ} : Type ℓ → Type ℓ
Result A = String ⊎ A

-- What writing the file came to: the temporary file could not be opened, or something was thrown.
pub data Written : Type 0 where
  written : Written
  not_opened : Written
  thrown : String → Written

-- What the mapping's file held at the start.
pub data FileContent {ℓ} (J : Type ℓ) : Type ℓ where
  no_file : FileContent J
  unreadable : FileContent J
  parsed : J → FileContent J

-- nlohmann::json, the file and `std::to_string`. `items` has the members of an object, and nothing for
-- another value; `get_string` reads a value that is a string.
pub record Host {ℓ} (J : Type ℓ) (F : Type ℓ) : Type ℓ where
  pub get_int : J → Result ℤ
  pub get_float : J → Result F
  pub get_bool : J → Result Bool
  pub get_string : J → Option String
  pub of_int : ℤ → J
  pub of_float : F → J
  pub of_bool : Bool → J
  pub of_string : String → J
  pub parse : String → Result J
  pub items : J → Option (List (String × J))
  pub dump : List (String × J) → String
  pub dump_indented : List (String × J) → String
  pub write : String → Written
  pub number : ℕ → String

pub record SetRequest {ℓ} (F : Type ℓ) : Type ℓ where
  pub mapping_json : String
  pub key : String
  pub int_value : ℤ
  pub float_value : F
  pub bool_value : Bool
  pub save_to_file : Bool

pub record SetResponse : Type 0 where
  pub success : Bool
  pub message : String
  pub mapping_json : String

abbrev pub mapping_file : String
mapping_file = "/opt/physicar/userdata/joy_mapping.json"

abbrev pub bind {ℓ κ} : {A : Type ℓ} {B : Type κ} → Result A → (A → Result B) → Result B
bind (inl e) f = inl e
bind (inr a) f = f a

abbrev pub Mapping : Type 0 → Type 0
Mapping F = List (String × Val F)

abbrev units_of : Option String → String
units_of none = "radians"
units_of (some u) = if str_eq u "degrees" || str_eq u "radians" then u else "radians"

module _ {F : Type 0} where
  abbrev at_least_minus_one : ℤ → Result (Val F)
  at_least_minus_one i = if ltb_ℤ i (negsuc zero) then inl "must be >= -1" else inr (int i)

  -- `for (auto & [k, v] : updates) mapping_[k] = v;`
  unfoldable pub commit : Mapping F → Mapping F → Mapping F
  commit [] m = m
  commit ((k, v) ∷ rest) m = commit rest (insert k v m)

  abbrev saved : Teleop F → Written → Teleop F × (Bool × String)
  saved s written = (record s { mapping_source = "file" }, (true, "Saved to " <> mapping_file))
  saved s not_opened = (s, (false, "Cannot open tmp file"))
  saved s (thrown e) = (s, (false, "Save failed: " <> e))

  abbrev load_valid : Teleop F → Result (Mapping F) → Teleop F
  load_valid s (inl e) = s
  load_valid s (inr m) = record s { mapping = commit m s.mapping; mapping_source = "file" }

  abbrev has_key : Option (Val F) → Bool
  has_key none = false
  has_key (some v) = true

  abbrev override : Teleop F → Teleop F
  override s = record s {
    mapping_source = if str_eq s.mapping_source "file" then "file" else "override";
  }

module _ {F : Type 0} ⦃d : Double F⦄ where
  open d use {literal, lt, add, mul, div, round}

  abbrev not_negative : F → Result (Val F)
  not_negative f = if lt f (literal 0 0) then inl "must be >= 0" else inr (float f)

  unfoldable pub restart_timer : Teleop F → Teleop F
  restart_timer s =
      let rate = max (literal 1 0) (as_float (value "rate" s)) in
      record s { timer_period = div (literal 1 0) rate }

  -- A limit in degrees, to a tenth, for a limit in radians that is above zero.
  abbrev migrate_key : String → Teleop F → Teleop F
  migrate_key k s =
      let v = as_float (value k s) in
      if lt (literal 0 0) v
      then record s {
        mapping =
            insert k (float (div (round (mul (deg_of_rad v) (literal 10 0))) (literal 10 0)))
              s.mapping;
      }
      else s

  -- The mapping with the updates, and the timer that follows a new rate.
  unfoldable pub apply_updates : Mapping F → Teleop F → Teleop F
  apply_updates us s =
      let committed = record s { mapping = commit us s.mapping } in
      if has_key (lookup "rate" us) then restart_timer committed else committed

module _ {J F : Type 0} ⦃d : Double F⦄ where
  open d use {literal, le}

  unfoldable pub coerce : Host J F → String → J → Result (Val F)
  coerce h k j =
      if is_int_key k
      then bind (h.get_int j) at_least_minus_one
      else (if is_float_key k
          then bind (h.get_float j) not_negative
          else (if is_bool_key k
              then bind (h.get_bool j) (λ b. inr (bool b))
              else inl ("unknown mapping key: " <> k)))

  -- Every known key of the file, or the first error; unknown keys are skipped.
  unfoldable pub validate_file : Host J F → List (String × J) → Mapping F → Result (Mapping F)
  validate_file h [] m = inr m
  validate_file h ((k, j) ∷ rest) m =
      if is_known_key k
      then bind (coerce h k j) (λ v. validate_file h rest (insert k v m))
      else validate_file h rest m

  unfoldable pub read_bulk : Host J F → List (String × J) → Mapping F → Result (Mapping F)
  read_bulk h [] m = inr m
  read_bulk h ((k, j) ∷ rest) m =
      if is_known_key k
      then bind (coerce h k j) (λ v. read_bulk h rest (insert k v m))
      else inl ("unknown key: " <> k)

  abbrev pub to_json : Host J F → Val F → J
  to_json h (int i) = h.of_int i
  to_json h (float f) = h.of_float f
  to_json h (bool b) = h.of_bool b

  abbrev pub mapping_json_of : Host J F → Mapping F → List (String × J)
  mapping_json_of h [] = []
  mapping_json_of h ((k, v) ∷ m) = (k, to_json h v) ∷ mapping_json_of h m

  abbrev pub mapping_to_json : Host J F → Teleop F → String
  mapping_to_json h s = h.dump (mapping_json_of h s.mapping)

  abbrev pub payload : Host J F → Teleop F → String
  payload h s =
      h.dump_indented (insert "units" (h.of_string s.mapping_units) (mapping_json_of h s.mapping))
      <> "\n"

  unfoldable pub save_mapping_to_file : Host J F → Teleop F → Teleop F × (Bool × String)
  save_mapping_to_file h s = saved s (h.write (payload h s))

  abbrev string_at : Host J F → Option J → Option String
  string_at h none = none
  string_at h (some j) = h.get_string j

  abbrev load_object : Host J F → Teleop F → Option (List (String × J)) → Teleop F
  load_object h s none = s
  load_object h s (some members) =
      let units = units_of (string_at h (lookup "units" members)) in
      load_valid (record s { mapping_units = units }) (validate_file h members [])

  -- A file that is absent, cannot be opened or does not parse changes nothing.
  unfoldable pub load_mapping_from_file : Host J F → FileContent J → Teleop F → Teleop F
  load_mapping_from_file h (parsed j) s = load_object h s (h.items j)
  load_mapping_from_file h content s = s

  unfoldable pub migrate_legacy_radians : Host J F → Teleop F → Teleop F
  migrate_legacy_radians h s =
      if str_eq s.mapping_units "degrees"
      then s
      else (if le (literal 2 0) (as_float (value "max_steering" s))
          then (save_mapping_to_file h (record s { mapping_units = "degrees" })).0
          else (let migrated =
                migrate_key "max_tilt" (migrate_key "max_pan" (migrate_key "max_steering" s)) in
              (save_mapping_to_file h (record migrated { mapping_units = "degrees" })).0))

  abbrev bulk_of : Host J F → Option (List (String × J)) → Result (Mapping F)
  bulk_of h none = inl "mapping_json must be a JSON object"
  bulk_of h (some members) = read_bulk h members []

  -- The value that belongs to the key, as JSON.
  abbrev single_value : Host J F → SetRequest F → J
  single_value h req =
      if is_int_key req.key
      then h.of_int req.int_value
      else (if is_float_key req.key then h.of_float req.float_value else h.of_bool req.bool_value)

  unfoldable pub read_updates : Host J F → SetRequest F → Result (Mapping F)
  read_updates h req =
      if not (str_eq req.mapping_json "")
      then bind (h.parse req.mapping_json) (λ j. bulk_of h (h.items j))
      else (if not (str_eq req.key "")
          then (if is_known_key req.key
              then bind (coerce h req.key (single_value h req)) (λ v. inr ((req.key, v) ∷ []))
              else inl ("unknown key: " <> req.key))
          else inl "either key or mapping_json must be set")

  abbrev respond : Host J F → Bool → String → Teleop F → Teleop F × SetResponse
  respond h ok text s =
      (s, record { success = ok; message = text; mapping_json = mapping_to_json h s })

  abbrev respond_saved : Host J F → String → Teleop F × (Bool × String) → Teleop F × SetResponse
  respond_saved h text (s, (ok, save_text)) =
      respond h ok (if ok then text <> "; " <> save_text else save_text) s

  unfoldable pub set_updates :
      Host J F → SetRequest F → Teleop F → Result (Mapping F) → Teleop F × SetResponse
  set_updates h req s (inl e) = respond h false e s
  set_updates h req s (inr us) =
      let text = "Updated " <> h.number (length us) <> " key(s)" in
      if req.save_to_file
      then respond_saved h text (save_mapping_to_file h (apply_updates us s))
      else respond h true text (override (apply_updates us s))

  unfoldable pub srv_set : Host J F → SetRequest F → Teleop F → Teleop F × SetResponse
  srv_set h req s = set_updates h req s (read_updates h req)
