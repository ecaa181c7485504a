-- ===== src/CameraParameters/Applied.antt =====
-- Parameters without a message are applied, and what they set is allowed for the controls.
use Prim.Native.String.{String}
use physicar_ros.Base.{
  ℕ, ◌≡◌, refl, inl, inr, true, false, some, List, [], ◌∷◌, ◌++◌, if◌then◌else◌, ◌==◌, ◌>>=◌,
  >>=-eq-some, All, Option-cases, Bool-cases, if-intro, arith, ap, sym, ◌∙◌,
}
use physicar_ros.Double.{Double, Casts}
use physicar_ros.StringMap.{lookup}
use physicar_ros.CameraControls.{
  ControlType, type_none, type_bool, type_byte, type_unsigned16, type_unsigned32, type_integer32,
  type_integer64, type_float, type_string, type_rectangle, type_size, type_point, ControlValue,
  type_of, ParameterType, ParameterValue, invalid_conversion, unsupported_control, fault, Result,
  pv_to_cv, cv_to_pv_type,
}
use physicar_ros.CameraBounds.{lt_control, gt_control}
use physicar_ros.CameraConflicts.{Parameter, has_value}
use physicar_ros.CameraParameters.{
  control_code, Control, Library, Message, set_control, out_of_bounds, wrong_extent, check_value,
  check_converted, check_parameter, check_control, check_all, apply_value, apply_parameter,
  apply_all,
}

decode : ℕ → ControlType
decode n =
    if n == 0
    then type_none
    else if n == 1
    then type_bool
    else if n == 2
    then type_byte
    else if n == 3
    then type_unsigned16
    else if n == 4
    then type_unsigned32
    else if n == 5
    then type_integer32
    else if n == 6
    then type_integer64
    else if n == 7
    then type_float
    else if n == 8
    then type_string
    else if n == 9
    then type_rectangle
    else if n == 10
    then type_size
    else type_point

decode-control_code : (t : ControlType) → decode (control_code t) ≡ t
unfolding decode
decode-control_code type_none = refl
decode-control_code t = refl

control_code_inj : (t u : ControlType) → control_code t ≡ control_code u → t ≡ u
control_code_inj t u h = sym (decode-control_code t) ∙ ap decode h ∙ decode-control_code u

code_eq : (m n : ℕ) → (m == n) ≡ true → m ≡ n
code_eq m n h = ground arith

module _ {G : Type 0} ⦃f : Double G⦄ (lib : Library G) where
  -- A value of the control's type and extent, neither below nor above its bounds.
  pub record IsAllowed (c : Control G) (v : ControlValue G) : Type 0 where
    pub same_type : type_of v ≡ c.type
    pub right_extent : wrong_extent lib c v ≡ false
    pub not_below : lt_control lib.orders v c.lo ≡ some false
    pub not_above : gt_control lib.orders v c.hi ≡ some false

  check_value-IsAllowed :
      (c : Control G) (name : String) (v : ControlValue G)
      → check_value lib c name v ≡ some []
      → IsAllowed c v
  unfolding check_value out_of_bounds
  check_value-IsAllowed c name v h = record {
    same_type = control_code_inj _ _ (code_eq _ _ (ground arith));
    right_extent = ground arith;
    not_below = ground arith;
    not_above = ground arith;
  }

  -- Values under ids, each allowed for a control of that id.
  abbrev pub IsApplied : List (String × Control G) → ℕ × ControlValue G → Type 0
  IsApplied controls (id, v) =
      (name : String) × (c : Control G) × (lookup name controls ≡ some c)
      × (c.id ≡ id)
      × IsAllowed c v

  set_control-All :
      (P : ℕ × ControlValue G → Type 0) (id : ℕ) (v : ControlValue G)
      (vs : List (ℕ × ControlValue G))
      → P (id, v)
      → All P vs
      → All P (set_control id v vs)
  unfolding set_control
  set_control-All P id v [] p ps = (p, tt)
  set_control-All P id v ((k, w) ∷ rest) p (q, ps) =
      if-intro (All P) (k == id) _ _ (p, ps) (q, set_control-All P id v rest p ps)

nothing_left : (ms rest : List Message) → ms ++ rest ≡ [] → (ms ≡ []) × (rest ≡ [])
nothing_left [] rest h = (refl, h)
nothing_left (m ∷ ms) rest h = absurd (cc)

module _ {F G : Type 0} ⦃f : Double G⦄ ⦃cast : Casts F G⦄ (lib : Library G) where
  convertible :
      (c : Control G) (name : String) (p : ParameterValue F) (r : Result (ControlValue G))
      → pv_to_cv lib.float_of p c.type ≡ r
      → check_converted lib c name p ≡ some []
      → (v : ControlValue G) × (pv_to_cv lib.float_of p c.type ≡ inr v) × IsAllowed lib c v
  unfolding check_converted
  convertible c name p (inl invalid_conversion) e h = absurd (ground arith)
  convertible c name p (inl unsupported_control) e h = absurd (ground arith)
  convertible c name p (inl fault) e h = absurd (ground arith)
  convertible c name p (inr v) e h = (v, e, check_value-IsAllowed lib c name v (ground arith))

  checked_set :
      (c : Control G) (name : String) (p : ParameterValue F) (r : Result ParameterType)
      → cv_to_pv_type c.extent c.type ≡ r
      → check_parameter lib c name p ≡ some []
      → has_value p ≡ true
      → check_converted lib c name p ≡ some []
  unfolding check_parameter
  checked_set c name p (inl failure) e h s = absurd (ground arith)
  checked_set c name p (inr t) e h s = ground arith

  applied_as :
      (controls : List (String × Control G)) (name : String) (p : ParameterValue F)
      (vs : List (ℕ × ControlValue G)) (c : Control G) (v : ControlValue G)
      → lookup name controls ≡ some c
      → has_value p ≡ true
      → pv_to_cv lib.float_of p c.type ≡ inr v
      → apply_parameter lib controls (name, p) vs ≡ some (set_control c.id v vs)
  unfolding apply_parameter apply_value
  applied_as controls name p vs c v e s conv = rw (e, apply_parameter, s, apply_value, conv) refl

  parameter-IsApplied :
      (controls : List (String × Control G)) (name : String) (p : ParameterValue F)
      (vs : List (ℕ × ControlValue G))
      → check_control lib controls (name, p) ≡ some []
      → All (IsApplied lib controls) vs
      → (ws : List (ℕ × ControlValue G)) × (apply_parameter lib controls (name, p) vs ≡ some ws)
        × All (IsApplied lib controls) ws
  unfolding check_control apply_parameter apply_value
  parameter-IsApplied controls name p vs h all = elim (Option-cases (lookup name controls)) [
    | inl e ↦ (vs, rw (e, apply_parameter) refl, all)
    | inr (c, e) ↦ elim (Bool-cases (has_value p)) [
      | inr u ↦ (vs, rw (e, u, apply_parameter) refl, all)
      | inl s ↦
          let (v, conv, allowed) =
            convertible c name p _ refl (checked_set c name p _ refl (ground arith) s) in
          (
            set_control c.id v vs,
            applied_as controls name p vs c v e s conv,
            set_control-All lib (IsApplied lib controls) c.id v vs (name, c, e, refl, allowed) all,
          )
    ]
  ]

  -- Without messages, the loop of `PostSetApply` ends, and what it sets is allowed.
  pub check_all-IsApplied :
      (controls : List (String × Control G)) (ps : List (Parameter F))
      (vs : List (ℕ × ControlValue G))
      → check_all lib controls ps ≡ some []
      → All (IsApplied lib controls) vs
      → (ws : List (ℕ × ControlValue G)) × (apply_all lib controls ps vs ≡ some ws)
        × All (IsApplied lib controls) ws
  unfolding check_all apply_all
  check_all-IsApplied controls [] vs h all = (vs, refl, all)
  check_all-IsApplied controls ((name, p) ∷ ps) vs h all =
      let (ms, first, later) = >>=-eq-some (check_control lib controls (name, p)) _ h in
      let (rest, second, joined) = >>=-eq-some (check_all lib controls ps) _ later in
      let (m, r) = nothing_left ms rest (ground arith) in
      let (ws, e, ok) = parameter-IsApplied controls name p vs (first ∙ ap some m) all in
      let (us, e', ok') = check_all-IsApplied controls ps ws (second ∙ ap some r) ok in
      (us, rw (e, ◌>>=◌) e', ok')
