-- ===== src/Driver/Calibration/Kept.antt =====
-- What every request to set the calibration keeps, from what each kind of change keeps.
use Prim.Native.String.{String}
use text.Mathlib.Text.{◌==◌ as str_eq}
use physicar_ros.Base.{◌≡◌, Bool, true, false, not, if-case, if-intro, arith}
use physicar_ros.Double.{Double}
use physicar_ros.Driver.Calibration.{
  Files, CalibrationRequest, CalibrationResponse, Calibrated, load_and_apply_calibration,
}
use physicar_ros.Driver.Calibration.Service.{
  set_calibration, finish, center_branch, set_reverse, set_gain, set_center, is_center, is_no_gain,
  is_axis,
}

module _ {F : Type 0} ⦃d : Double F⦄ where
  -- What a property of the node needs for every request to keep it.
  pub record IsKept (P : Calibrated F → Type 0) (h : Files F) (req : CalibrationRequest F)
      (s : Calibrated F) : Type 0 where
    pub as_before : P s
    pub loaded : P (load_and_apply_calibration h s)
    pub reversed : P (set_reverse req s)
    pub gained : is_no_gain req.max_value ≡ false → P (set_gain req s)
    pub centered : (name : String) → is_center req.center_value ≡ true → P (set_center name req s)
    pub saved :
        (t : Calibrated F) (b : Bool) → P t → P (record t { cal = record (t.cal) { is_saved = b } })

  module _ (P : Calibrated F → Type 0) (h : Files F) (req : CalibrationRequest F) (s : Calibrated F)
      (k : IsKept P h req s) where
    abbrev Fine : Calibrated F × CalibrationResponse → Type 0
    Fine r = P r.0

    finish_kept : (ok : Bool) (text : String) (t : Calibrated F) → P t → Fine (finish h ok text t)
    unfolding finish
    finish_kept ok text t p = k.saved t _ p

    center_kept : (name note : String) → Fine (center_branch h name note req s)
    unfolding center_branch
    center_kept name note =
        if-case Fine (not (is_center req.center_value)) _ _ (λ e. k.as_before)
          (λ e. finish_kept true _ (set_center name req s) (k.centered name (ground arith)))

    pub set_calibration_kept : Fine (set_calibration h req s)
    unfolding set_calibration
    set_calibration_kept =
        let same = k.as_before in
        let channel = h.lower req.channel in
        if-intro Fine (str_eq channel "all") _ _ (finish_kept true _ _ k.loaded) (
          if-intro Fine (str_eq channel "reverse") _ _ (finish_kept true _ _ k.reversed) (
            if-intro Fine (str_eq channel "speed") _ _ (finish_kept false _ s same) (
              if-intro Fine (str_eq channel "speed_gain") _ _
                (if-case Fine (is_no_gain req.max_value) _ _ (λ e. same)
                  (λ e. finish_kept true _ (set_gain req s) (k.gained e)))
                (if-intro Fine (is_axis channel) _ _ (center_kept channel " (moved to center)") (
                  if-intro Fine _ _ _ (finish_kept false _ s same)
                    (if-intro Fine _ _ _ (center_kept _ "") same))))))
