-- ===== src/CameraConflicts.antt =====
-- class ParameterConflictHandler of physicar_camera/src/ParameterConflictHandler.cpp. An operation
-- that throws returns `none`. What messages say is left out.
pub mod Merge
pub mod Running
pub mod Modes
pub mod Resolve
pub mod Defer
use Prim.Native.String.{String}
use text.Mathlib.Text.{◌==◌ as str_eq}
use physicar_ros.Base.{
  Bool, true, false, ◌&&◌, not, Option, none, some, List, [], ◌∷◌, ◌++◌, if◌then◌else◌, ◌>>=◌,
  is_some,
}
use physicar_ros.Base.Int.{ℤ, eq_ℤ}
use physicar_ros.StringMap.{lookup, insert, erase}
use physicar_ros.CameraControls.{
  ParameterValue, pv_not_set, pv_bool, pv_integer, pv_double, pv_string, pv_byte_array,
  pv_bool_array, pv_integer_array, pv_double_array, pv_string_array,
}

-- What libcamera names and numbers: `has_etm` is HAS_ETM, and the strings are AE, ET and ETM.
pub record Controls : Type 0 where
  pub has_etm : Bool
  pub ae : String
  pub et : String
  pub etm : String
  pub etm_auto : ℤ
  pub etm_manual : ℤ

-- HAS_ETM ? ETM : AE
unfoldable pub mode : Controls → String
mode c = if c.has_etm then c.etm else c.ae

-- rclcpp::Parameter, and ParameterValueMap.
abbrev pub Parameter {ℓ} : Type ℓ → Type ℓ
Parameter F = String × ParameterValue F

abbrev pub Values {ℓ} : Type ℓ → Type ℓ
Values F = List (String × ParameterValue F)

pub record ConflictHandler {ℓ} (F : Type ℓ) : Type ℓ where
  pub store : Values F
  pub tmp_store : Values F

module _ {ℓ} {F : Type ℓ} where
  unfoldable pub has_value : ParameterValue F → Bool
  has_value pv_not_set = false
  has_value (pv_bool b) = true
  has_value (pv_integer i) = true
  has_value (pv_double f) = true
  has_value (pv_string s) = true
  has_value (pv_byte_array bs) = true
  has_value (pv_bool_array bs) = true
  has_value (pv_integer_array is) = true
  has_value (pv_double_array fs) = true
  has_value (pv_string_array ss) = true

  -- `find`: the first parameter of a name that has a value.
  unfoldable pub find : String → List (Parameter F) → Option (ParameterValue F)
  find name [] = none
  find name ((n, v) ∷ ps) = if str_eq n name && has_value v then some v else find name ps

  abbrev pub is_set : List (Parameter F) → String → Bool
  is_set ps name = is_some (find name ps)

  -- `is_true` and `is_int_eq` of what is found.
  unfoldable pub holds_true : Option (ParameterValue F) → Bool
  holds_true (some (pv_bool b)) = b
  holds_true o = false

  unfoldable pub holds_int : ℤ → Option (ParameterValue F) → Bool
  holds_int k (some (pv_integer i)) = eq_ℤ i k
  holds_int k o = false

  -- The old parameters that no new one replaces, after the new ones.
  unfoldable pub kept : List (Parameter F) → List (Parameter F) → List (Parameter F)
  kept new [] = []
  kept new ((n, v) ∷ old) = if is_set new n then kept new old else (n, v) ∷ kept new old

  unfoldable pub merge : List (Parameter F) → List (Parameter F) → List (Parameter F)
  merge old new = new ++ kept new old

  -- `is_set` on a map.
  abbrev pub has : Values F → String → Bool
  has p name = elim (lookup name p) [ none ↦ false | some v ↦ has_value v ]

  -- `get<int32_t>` and `get<bool>`.
  abbrev pub get_int : ParameterValue F → Option ℤ
  get_int (pv_integer i) = some i
  get_int v = none

  abbrev pub get_bool : ParameterValue F → Option Bool
  get_bool (pv_bool b) = some b
  get_bool v = none

  -- The test of a value that is set, `is_set(p, name) && test(p.at(name))`.
  abbrev pub at_set : String → (ParameterValue F → Option Bool) → Values F → Option Bool
  at_set name test p = elim (lookup name p) [
    | none ↦ some false
    | some v ↦ if has_value v then test v else some false
  ]

module _ {ℓ} {F : Type ℓ} (c : Controls) where
  unfoldable pub value_is_auto : ParameterValue F → Option Bool
  value_is_auto v = if c.has_etm then (get_int v >>= λ i. some (eq_ℤ i c.etm_auto)) else get_bool v

  unfoldable pub value_is_off : ParameterValue F → Option Bool
  value_is_off v =
      if c.has_etm
      then (get_int v >>= λ i. some (eq_ℤ i c.etm_manual))
      else (get_bool v >>= λ b. some (not b))

  unfoldable pub conflict_exposure : Values F → Option Bool
  conflict_exposure p = at_set (mode c) value_is_auto p >>= λ auto. some (auto && has p c.et)

  unfoldable pub auto_value : ParameterValue F
  auto_value = if c.has_etm then pv_integer c.etm_auto else pv_bool true

  unfoldable pub manual_value : ParameterValue F
  manual_value = if c.has_etm then pv_integer c.etm_manual else pv_bool false

  -- Auto exposure that is there without a value is enabled.
  unfoldable pub assume_enabled : Values F → Values F
  assume_enabled p = elim (lookup (mode c) p) [
    | none ↦ p
    | some v ↦ if has_value v then p else insert (mode c) auto_value p
  ]

  unfoldable pub disable_exposure :
      ConflictHandler F → Values F → Option (ConflictHandler F × Values F)
  disable_exposure h p = elim (lookup c.et p) [
    | none ↦ none
    | some v ↦ some (record h { store = insert c.et v h.store }, insert c.et pv_not_set p)
  ]

  unfoldable pub resolve_defaults :
      ConflictHandler F → Values F → Option (ConflictHandler F × Values F)
  resolve_defaults h p =
      let q = assume_enabled p in
      conflict_exposure q >>= λ conflict. if conflict then disable_exposure h q else some (h, q)

  -- The store has the exposure time, and the map has its key.
  unfoldable pub put_back : ConflictHandler F → Values F → Option (ConflictHandler F × Values F)
  put_back h p = elim (lookup c.et h.store) [
    | none ↦ some (h, p)
    | some v ↦ elim (lookup c.et p) [
      | none ↦ none
      | some old ↦ some (record h { store = erase c.et h.store }, insert c.et v p)
    ]
  ]

  unfoldable pub resolve_overrides :
      ConflictHandler F → Values F → Option (ConflictHandler F × Values F)
  resolve_overrides h p = conflict_exposure p >>= λ conflict.
      let q = if conflict then insert (mode c) manual_value p else p in
      at_set (mode c) value_is_off q >>= λ off.
      if off && not (has q c.et) then put_back h q else some (h, q)

  -- HAS_ETM ? is_int_eq(ps, ETM, ETM_Auto) : is_true(ps, AE)
  unfoldable pub auto_on : Option (ParameterValue F) → Bool
  auto_on o = if c.has_etm then holds_int c.etm_auto o else holds_true o

  -- HAS_ETM ? is_int_eq(ps, ETM, ETM_Manual) : !is_true(ps, AE)
  unfoldable pub manual_on : Option (ParameterValue F) → Bool
  manual_on o = if c.has_etm then holds_int c.etm_manual o else not (holds_true o)

  -- No message of `check`.
  unfoldable pub check : List (Parameter F) → List (Parameter F) → Bool
  check old new =
      let merged = merge old new in
      not (is_set merged (mode c) && auto_on (find (mode c) merged) && is_set new c.et)

  -- The exposure time that a stored one or none at all is appended for.
  unfoldable pub give_back :
      ConflictHandler F → List (Parameter F) → ConflictHandler F × List (Parameter F)
  give_back h ps = elim (lookup c.et h.store) [
    | none ↦ (record h { tmp_store = h.store }, ps)
    | some v ↦ (record h { tmp_store = erase c.et h.store }, ps ++ (c.et, v) ∷ [])
  ]

  unfoldable pub adjust :
      ConflictHandler F → List (Parameter F) → ConflictHandler F × List (Parameter F)
  adjust h ps =
      if is_set ps (mode c)
      then (if manual_on (find (mode c) ps)
          then give_back h ps
          else (record h { tmp_store = h.store }, ps ++ (c.et, pv_not_set) ∷ []))
      else (record h { tmp_store = h.store }, ps)

  -- `restore`, which asserts that `tmp_store` is empty.
  unfoldable pub restore :
      ConflictHandler F → List (Parameter F) → Option (ConflictHandler F × List (Parameter F))
  restore h ps = elim h.tmp_store [ [] ↦ some (adjust h ps) | e ∷ es ↦ none ]

-- `store_commit_or_revert`. A map that was moved from is empty.
unfoldable pub store_commit_or_revert {ℓ} :
    {F : Type ℓ} → Bool → ConflictHandler F → ConflictHandler F
store_commit_or_revert commit h =
    if commit then record { store = h.tmp_store; tmp_store = [] } else record h { tmp_store = [] }
