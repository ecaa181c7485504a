-- ===== src/CameraParameters/Tests.antt =====
-- The camera's parameters, on a camera with a gain from 0 to 10 and an exposure time.
use Prim.Native.String.{String}
use text.Mathlib.TextEquality.{eq_iff}
use physicar_ros.Base.{◌≡◌, refl, Bool, true, false, some, List, [], ◌∷◌, ◌++◌, ltb, arith, All}
use physicar_ros.Base.Int.{pos}
use physicar_ros.Double.{lt_irrefl}
use physicar_ros.Double.Micro.{Micro, micro_double, Micro-IsOrdered}
use physicar_ros.StringMap.{lookup, erase}
use physicar_ros.CameraControls.{
  scalar, array, integer32s, type_integer32, pv_integer, pv_to_cv, pv_to_cv_int, cv_to_pv_type,
  scalar_type,
}
use physicar_ros.CameraControls.Tests.{micro_casts, to_micro}
use physicar_ros.CameraBounds.Spans.{Orders, compare_span}
use physicar_ros.CameraBounds.{lt_control, gt_control, lt_value, gt_value}
use physicar_ros.CameraBounds.Clamped.{IsIrreflexive, InBounds, fit_integer32s, clamp-InBounds}
use physicar_ros.CameraConflicts.{
  Controls, ConflictHandler, Values, Parameter, mode, find, has_value, kept, merge, check, adjust,
  restore, give_back, auto_on, manual_on, holds_int, holds_true, store_commit_or_revert,
  resolve_overrides, value_is_auto,
}
use physicar_ros.CameraConflicts.Running.{IsDistinct, stored_time_wins, value_after}
use physicar_ros.CameraConflicts.Resolve.{Resolved, resolve_overrides-Resolved}
use physicar_ros.CameraParameters.{
  Control, Library, Handler, accepted, set_parameters, on_set_only, pre_set_resolve,
  on_set_validate, validate_new_parameters, check_all, check_control, check_parameter,
  check_converted, check_value, out_of_bounds, wrong_extent, post_set_apply, apply_all,
  apply_parameter, apply_value, set_control, finish, move_control_values,
}
use physicar_ros.CameraParameters.Applied.{IsApplied}
use physicar_ros.CameraParameters.Once.{on_set_only-eq-set_parameters}
use physicar_ros.CameraParameters.Histories.{
  Reach, accept, start, NamesOnce, IsSound, Reach-IsSound,
}

abbrev exposure : Controls
exposure = record {
  has_etm = true;
  ae = "AeEnable";
  et = "ExposureTime";
  etm = "ExposureTimeMode";
  etm_auto = pos 0;
  etm_manual = pos 1;
}

exposure-IsDistinct : IsDistinct exposure
unfolding mode
exposure-IsDistinct = record {
  mode_ne = λ e. absurd (cc ((eq_iff "ExposureTimeMode" "ExposureTime").1 e));
  manual_ne = λ e. absurd (cc);
}

abbrev orders : Orders
orders = record { lt_size = λ a b. ltb a.width b.width }

orders-IsIrreflexive : IsIrreflexive Micro orders
orders-IsIrreflexive = record { float_lt = lt_irrefl Micro-IsOrdered; size_lt = λ s. ground arith }

abbrev lib : Library Micro
lib = record { controls = exposure; orders = orders; float_of = to_micro; dynamic_extent = 0 }

abbrev gain : Control Micro
gain = record {
  id = 7;
  type = type_integer32;
  extent = 0;
  lo = integer32s (scalar (pos 0));
  hi = integer32s (scalar (pos 10));
}

abbrev camera : Handler Micro Micro
camera = record {
  conflicts = record { store = []; tmp_store = [] };
  camera_controls = ("AnalogueGain", gain) ∷ [];
  control_values = [];
}

abbrev wanted : List (Parameter Micro)
wanted = ("AnalogueGain", pv_integer (pos 5)) ∷ []

abbrev told : Handler Micro Micro
told = record camera { control_values = (7, integer32s (scalar (pos 5))) ∷ [] }

-- rclcpp turns nothing down.
abbrev passes : List (Parameter Micro) → Bool
passes ps = false

accepts : set_parameters lib passes (some []) camera wanted ≡ some (told, accepted)
unfolding set_parameters pre_set_resolve on_set_validate validate_new_parameters check_all
    check_control check_parameter check_converted check_value out_of_bounds wrong_extent
    post_set_apply apply_all apply_parameter apply_value set_control finish lt_control gt_control
    lt_value gt_value mode find has_value kept merge check adjust restore give_back auto_on
    manual_on holds_int holds_true store_commit_or_revert pv_to_cv pv_to_cv_int cv_to_pv_type
    scalar_type lookup compare_span
accepts = refl

on_set_only-eq-set_parameters_example :
    on_set_only lib (some []) camera wanted ≡ set_parameters lib passes (some []) camera wanted
on_set_only-eq-set_parameters_example =
    on_set_only-eq-set_parameters lib passes (some []) camera wanted (λ t qs e. refl)

camera-IsSound : IsSound lib camera []
unfolding auto_on holds_int find mode
camera-IsSound = record { applied = tt; no_conflict = refl }

holds_wanted : (name : String) → find name wanted ≡ value_after [] wanted name
unfolding find has_value
holds_wanted name = ground arith

history : Reach lib passes camera [] told wanted
unfolding adjust find mode
history = accept camera told [] wanted wanted start accepts holds_wanted

history-NamesOnce : NamesOnce lib history
unfolding history find mode
history-NamesOnce = (omega arith, tt)

Reach-IsSound_example :
    IsSound lib told wanted × All (IsApplied lib told.camera_controls) (move_control_values told).1
Reach-IsSound_example =
    Reach-IsSound lib exposure-IsDistinct camera-IsSound history history-NamesOnce

clamp-InBounds_example :
    InBounds {G = Micro} orders
      (integer32s (array (pos 3 ∷ pos 12 ∷ [])))
      (integer32s (scalar (pos 0)))
      (integer32s (scalar (pos 10)))
clamp-InBounds_example =
    clamp-InBounds orders orders-IsIrreflexive
      (fit_integer32s (array (pos 3 ∷ pos 12 ∷ [])) (scalar (pos 0)) (scalar (pos 10)) refl)

-- An exposure time by default, with auto exposure.
abbrev defaults : Values Micro
defaults = ("ExposureTime", pv_integer (pos 900)) ∷ ("ExposureTimeMode", pv_integer (pos 0)) ∷ []

abbrev fresh : ConflictHandler Micro
fresh = record { store = []; tmp_store = [] }

resolve_overrides-Resolved_example : Resolved exposure (resolve_overrides exposure fresh defaults)
unfolding lookup mode has_value value_is_auto
resolve_overrides-Resolved_example =
    resolve_overrides-Resolved Micro exposure exposure-IsDistinct fresh defaults (λ s. refl)
      (λ s. refl)

-- A stored exposure time, and a request for manual exposure with another one.
abbrev storing : ConflictHandler Micro
storing = record { store = ("ExposureTime", pv_integer (pos 900)) ∷ []; tmp_store = [] }

abbrev manual : List (Parameter Micro)
manual = ("ExposureTimeMode", pv_integer (pos 1)) ∷ ("ExposureTime", pv_integer (pos 50)) ∷ []

abbrev restored_parameters : List (Parameter Micro)
restored_parameters = manual ++ ("ExposureTime", pv_integer (pos 900)) ∷ []

stored_time_wins_example :
    (value_after [] restored_parameters "ExposureTime" ≡ some (pv_integer (pos 900)))
    × ([] ≡ erase "ExposureTime" storing.store)
unfolding find has_value mode lookup manual_on holds_int restore adjust give_back erase
stored_time_wins_example =
    stored_time_wins exposure exposure-IsDistinct storing
      (record { store = storing.store; tmp_store = [] }) [] manual restored_parameters refl refl
      refl refl refl
