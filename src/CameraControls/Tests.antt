-- ===== src/CameraControls/Tests.antt =====
-- The conversions of the camera's controls, on concrete values.
use physicar_ros.Base.{◌≡◌, refl, false, inl, [], ◌∷◌, arith}
use physicar_ros.Base.Int.{ℤ, pos, negsuc}
use physicar_ros.Double.{Casts}
use physicar_ros.Double.Micro.{Micro, micro_double}
use physicar_ros.CameraControls.{
  ControlValue, scalar, array, rectangles, type_byte, pv_integer_array, pv_to_cv, cv_to_pv,
  cv_to_pv_type, array_type, array_type, unsigned16s, invalid_conversion,
}
use physicar_ros.CameraControls.Types.{Converted, pv_to_cv-Converted}
use physicar_ros.CameraControls.RoundTrip.{ComesBack, cv_to_pv-ComesBack}

instance abbrev pub micro_casts : Casts Micro Micro
micro_casts = record { widen = λ x. x; narrow = λ x. x }

abbrev pub to_micro : ℤ → Micro
to_micro = micro_double.of_ℤ

pv_to_cv-Converted_example :
    Converted {F = Micro} type_byte false
      (pv_integer_array (pos 1 ∷ pos 2 ∷ []))
      (pv_to_cv {F = Micro} to_micro (pv_integer_array (pos 1 ∷ pos 2 ∷ [])) type_byte)
unfolding cv_to_pv_type array_type
pv_to_cv-Converted_example =
    pv_to_cv-Converted to_micro 2 type_byte (pv_integer_array (pos 1 ∷ pos 2 ∷ []))
      (λ e. absurd (cc)) refl

abbrev crop : ControlValue Micro
crop = rectangles (scalar (record { x = negsuc 3; y = pos 8; width = 640; height = 480 }))

cv_to_pv-ComesBack_example : ComesBack Micro to_micro 0 crop
cv_to_pv-ComesBack_example =
    cv_to_pv-ComesBack Micro to_micro 0 crop refl
      (omega arith, omega arith, omega arith, omega arith)

-- An array of 16-bit integers is refused, though a parameter is declared for its control.
unsigned16_array :
    cv_to_pv {F = Micro} {G = Micro} (unsigned16s (array (1 ∷ 2 ∷ []))) ≡ inl invalid_conversion
unfolding cv_to_pv
unsigned16_array = refl
