-- ===== src/CameraParameters.antt =====
-- class ParameterHandler of physicar_camera/src/ParameterHandler.cpp: the callbacks that check and apply
-- parameters. An exception that nobody catches, and a failed assertion, give `none`.
pub mod Applied
pub mod Setting
pub mod Histories
pub mod Once
mod Tests
use Prim.Native.String.{String}
use physicar_ros.Base.{
  ℕ, ◌≡◌, inl, inr, Bool, true, false, ◌&&◌, ◌||◌, not, Option, none, some, List, [], ◌∷◌, ◌++◌,
  if◌then◌else◌, ◌==◌, ◌>>=◌,
}
use physicar_ros.Base.Int.{ℤ}
use physicar_ros.Double.{Double, Casts}
use physicar_ros.StringMap.{lookup}
use physicar_ros.CameraControls.{
  ControlType, type_none, type_bool, type_byte, type_unsigned16, type_unsigned32, type_integer32,
  type_integer64, type_float, type_string, type_rectangle, type_size, type_point, ControlValue,
  type_of, ParameterType, parameter_not_set, parameter_bool, parameter_integer, parameter_double,
  parameter_string, parameter_byte_array, parameter_bool_array, parameter_integer_array,
  parameter_double_array, parameter_string_array, ParameterValue, get_type, invalid_conversion,
  unsupported_control, fault, pv_to_cv, cv_to_pv_type,
}
use physicar_ros.CameraBounds.Spans.{Orders}
use physicar_ros.CameraBounds.{has_elements, lt_control, gt_control}
use physicar_ros.CameraConflicts.{
  Controls, Parameter, ConflictHandler, has_value, check, restore, store_commit_or_revert,
}

-- The enumerators of both libraries.
abbrev pub parameter_code : ParameterType → ℕ
parameter_code parameter_not_set = 0
parameter_code parameter_bool = 1
parameter_code parameter_integer = 2
parameter_code parameter_double = 3
parameter_code parameter_string = 4
parameter_code parameter_byte_array = 5
parameter_code parameter_bool_array = 6
parameter_code parameter_integer_array = 7
parameter_code parameter_double_array = 8
parameter_code parameter_string_array = 9

abbrev pub control_code : ControlType → ℕ
control_code type_none = 0
control_code type_bool = 1
control_code type_byte = 2
control_code type_unsigned16 = 3
control_code type_unsigned32 = 4
control_code type_integer32 = 5
control_code type_integer64 = 6
control_code type_float = 7
control_code type_string = 8
control_code type_rectangle = 9
control_code type_size = 10
control_code type_point = 11

-- control_info_t: `id->id()`, `id->type()` and `get_extent(id)`, and the bounds of `info`.
pub record Control {ℓ} (G : Type ℓ) : Type ℓ where
  pub id : ℕ
  pub type : ControlType
  pub extent : ℕ
  pub lo : ControlValue G
  pub hi : ControlValue G

-- What comes from libcamera.
pub record Library {ℓ} (G : Type ℓ) : Type ℓ where
  pub controls : Controls
  pub orders : Orders
  pub float_of : ℤ → G
  pub dynamic_extent : ℕ

-- `control_values` is a ControlList, by the ids of the controls.
pub record Handler {ℓ} (F G : Type ℓ) : Type ℓ where
  pub conflicts : ConflictHandler F
  pub camera_controls : List (String × Control G)
  pub control_values : List (ℕ × ControlValue G)

pub data Message : Type 0 where
  conflict_message : Message
  type_mismatch : String → Message
  not_convertible : Message
  dimensions_mismatch : String → Message
  out_of_range : Message

-- How setting parameters ends: it is accepted or refused by the callback, or it ends before, by rclcpp
-- or by an exception.
pub data Verdict : Type 0 where
  accepted refused interrupted : Verdict

abbrev pub verdict : Bool → Verdict
verdict true = accepted
verdict false = refused

-- `ControlList::set`.
unfoldable pub set_control {ℓ} :
    {G : Type ℓ} → ℕ → ControlValue G → List (ℕ × ControlValue G) → List (ℕ × ControlValue G)
set_control id v [] = (id, v) ∷ []
set_control id v ((k, w) ∷ rest) =
    if k == id then (id, v) ∷ rest else (k, w) ∷ set_control id v rest

-- `result.successful` of `format_result`.
abbrev pub successful : List Message → Bool
successful [] = true
successful (m ∷ ms) = false

unfoldable pub finish {ℓ} : {F G : Type ℓ} → Bool → Handler F G → Handler F G
finish ok s = record s { conflicts = store_commit_or_revert ok s.conflicts }

module _ {G : Type 0} ⦃f : Double G⦄ (lib : Library G) where
  -- The bounds: the second test is not made if the first fails.
  unfoldable pub out_of_bounds : Control G → ControlValue G → Option Bool
  out_of_bounds c v = lt_control lib.orders v c.lo >>= λ below.
      if below then some true else gt_control lib.orders v c.hi

  unfoldable pub wrong_extent : Control G → ControlValue G → Bool
  wrong_extent c v =
      let (is_array, elements) = has_elements v in
      is_array && not (c.extent == lib.dynamic_extent) && not (elements == c.extent)

  -- A value that was converted: its type is asserted.
  unfoldable pub check_value : Control G → String → ControlValue G → Option (List Message)
  check_value c name v =
      if control_code (type_of v) == control_code c.type
      then (if wrong_extent c v
          then some (dimensions_mismatch name ∷ [])
          else (out_of_bounds c v >>= λ out. some (if out then out_of_range ∷ [] else [])))
      else none

module _ {F G : Type 0} ⦃f : Double G⦄ ⦃cast : Casts F G⦄ (lib : Library G) where
  unfoldable pub check_converted : Control G → String → ParameterValue F → Option (List Message)
  check_converted c name p = elim (pv_to_cv lib.float_of p c.type) [
    | inl invalid_conversion ↦ some (not_convertible ∷ [])
    | inl unsupported_control ↦ none
    | inl fault ↦ none
    | inr v ↦ check_value lib c name v
  ]

  -- The messages on one parameter.
  unfoldable pub check_parameter : Control G → String → ParameterValue F → Option (List Message)
  check_parameter c name p = elim (cv_to_pv_type c.extent c.type) [
    | inl e ↦ none
    | inr type_ctrl ↦
        if not (has_value p)
        then some []
        else if parameter_code (get_type p) == parameter_code type_ctrl
        then check_converted c name p
        else some (type_mismatch name ∷ [])
  ]

  unfoldable pub check_control : List (String × Control G) → Parameter F → Option (List Message)
  check_control controls (name, p) = elim (lookup name controls) [
    | none ↦ some []
    | some c ↦ check_parameter c name p
  ]

  unfoldable pub check_all : List (String × Control G) → List (Parameter F) → Option (List Message)
  check_all controls [] = some []
  check_all controls (p ∷ ps) =
      check_control controls p >>= λ ms. check_all controls ps >>= λ rest. some (ms ++ rest)

  -- `validate_new_parameters`, once `node->get_parameters` has answered with `old`.
  unfoldable pub validate_new_parameters :
      List (Parameter F) → Handler F G → List (Parameter F) → Option (List Message)
  validate_new_parameters old s ps =
      if check lib.controls old ps
      then check_all s.camera_controls ps
      else some (conflict_message ∷ [])

  -- The loop of `PostSetApply`.
  unfoldable pub apply_value :
      Control G → ParameterValue F → List (ℕ × ControlValue G) → Option (List (ℕ × ControlValue G))
  apply_value c p values = elim (pv_to_cv lib.float_of p c.type) [
    | inl e ↦ none
    | inr v ↦ some (set_control c.id v values)
  ]

  unfoldable pub apply_parameter :
      List (String × Control G)
      → Parameter F
      → List (ℕ × ControlValue G)
      → Option (List (ℕ × ControlValue G))
  apply_parameter controls (name, p) values = elim (lookup name controls) [
    | none ↦ some values
    | some c ↦ if has_value p then apply_value c p values else some values
  ]

  unfoldable pub apply_all :
      List (String × Control G)
      → List (Parameter F)
      → List (ℕ × ControlValue G)
      → Option (List (ℕ × ControlValue G))
  apply_all controls [] values = some values
  apply_all controls (p ∷ ps) values =
      apply_parameter controls p values >>= λ next. apply_all controls ps next

  unfoldable pub post_set_apply : Handler F G → List (Parameter F) → Option (Handler F G)
  post_set_apply s ps =
      apply_all s.camera_controls ps [] >>= λ values. some (record s { control_values = values })

  unfoldable pub pre_set_resolve :
      Handler F G → List (Parameter F) → Option (Handler F G × List (Parameter F))
  pre_set_resolve s ps =
      restore lib.controls s.conflicts ps >>= λ r. some (record s { conflicts = r.0 }, r.1)

  -- `OnSetValidate` with RCLCPP_HAS_PARAM_EXT_CB, and without it. `asked` is what
  -- `node->get_parameters` answers, nothing where it throws, as it does for a name that is not
  -- declared; the exception leaves the callback at once.
  unfoldable pub on_set_validate :
      Option (List (Parameter F))
      → Handler F G
      → List (Parameter F)
      → Option (Handler F G × Verdict)
  on_set_validate none s ps = some (s, interrupted)
  on_set_validate (some old) s ps = validate_new_parameters old s ps >>= λ ms.
      some (finish (successful ms) s, verdict (successful ms))

  unfoldable pub validate_apply :
      Option (List (Parameter F))
      → Handler F G
      → List (Parameter F)
      → Option (Handler F G × Verdict)
  validate_apply none s ps = some (s, interrupted)
  validate_apply (some old) s ps = do
    ms ← validate_new_parameters old s ps
    t ← if successful ms then post_set_apply s ps else some s
    some (finish (successful ms) t, verdict (successful ms))

  unfoldable pub on_set_only :
      Option (List (Parameter F))
      → Handler F G
      → List (Parameter F)
      → Option (Handler F G × Verdict)
  on_set_only asked s ps = pre_set_resolve s ps >>= λ r. validate_apply asked r.0 r.1

  abbrev pub apply_accepted :
      List (Parameter F) → Handler F G × Verdict → Option (Handler F G × Verdict)
  apply_accepted ps (s, accepted) = post_set_apply s ps >>= λ t. some (t, accepted)
  apply_accepted ps (s, refused) = some (s, refused)
  apply_accepted ps (s, interrupted) = some (s, interrupted)

  -- The callbacks in the order in which rclcpp calls them, the last one after a success only. Between
  -- the first two rclcpp itself may turn the list down (`turned_down`: a name that is not declared, a
  -- type, the range of a descriptor); then it calls no other callback.
  unfoldable pub set_parameters :
      (List (Parameter F) → Bool)
      → Option (List (Parameter F))
      → Handler F G
      → List (Parameter F)
      → Option (Handler F G × Verdict)
  set_parameters turned_down asked s ps = pre_set_resolve s ps >>= λ r.
      if turned_down r.1
      then some (r.0, interrupted)
      else (on_set_validate asked r.0 r.1 >>= λ v. apply_accepted r.1 v)

-- `move_control_values`: the new state, and the controls of the request.
unfoldable pub move_control_values {ℓ} :
    {F G : Type ℓ} → Handler F G → Handler F G × List (ℕ × ControlValue G)
move_control_values s = (record s { control_values = [] }, s.control_values)
