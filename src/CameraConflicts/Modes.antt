-- ===== src/CameraConflicts/Modes.antt =====
-- The values of the exposure mode, and when a map of parameters has a conflict.
use physicar_ros.Base.{
  ◌≡◌, inl, inr, refl, sym, Bool, true, false, ◌&&◌, not, Option, some, arith, Bool-cases, ◌>>=◌,
}
use physicar_ros.Base.Int.{eq_ℤ, eq_of_eq_ℤ}
use physicar_ros.StringMap.{lookup, insert, lookup-insert_ne}
use physicar_ros.CameraControls.{ParameterValue, pv_bool, pv_integer}
use physicar_ros.CameraConflicts.{
  Controls, mode, Values, has_value, has, at_set, value_is_auto, value_is_off, conflict_exposure,
  auto_value, manual_value,
}
use physicar_ros.CameraConflicts.Running.{IsDistinct}

module _ (F : Type 0) (c : Controls) (d : IsDistinct c) where
  -- Writing the exposure time keeps the mode, and the other way round.
  pub mode_kept :
      (p : Values F) (v : ParameterValue F) → lookup (mode c) (insert c.et v p) ≡ lookup (mode c) p
  mode_kept p v = lookup-insert_ne p c.et (mode c) v (λ e. d.mode_ne (sym e))

  pub time_kept :
      (p : Values F) (v : ParameterValue F) → lookup c.et (insert (mode c) v p) ≡ lookup c.et p
  time_kept p v = lookup-insert_ne p (mode c) c.et v d.mode_ne

  pub manual_lem :
      (v : ParameterValue F)
      → v ≡ manual_value c
      → (has_value v ≡ true) × (value_is_auto c v ≡ some false) × (value_is_off c v ≡ some true)
  unfolding has_value value_is_auto value_is_off manual_value
  manual_lem v e = elim (Bool-cases c.has_etm) [
    | inl etm ↦
        rw (e, etm)
          (refl, ground (arith, eq_of_eq_ℤ c.etm_manual c.etm_auto, d.manual_ne), ground arith)
    | inr ae ↦ rw (e, ae) (refl, refl, refl)
  ]

  pub auto_lem :
      (v : ParameterValue F)
      → v ≡ auto_value c
      → (has_value v ≡ true) × (value_is_auto c v ≡ some true)
  unfolding has_value value_is_auto auto_value
  auto_lem v e = elim (Bool-cases c.has_etm) [
    | inl etm ↦ rw (e, etm) (refl, ground arith)
    | inr ae ↦ rw (e, ae) (refl, refl)
  ]

  pub off_of_auto :
      (v : ParameterValue F) (a : Bool)
      → value_is_auto c v ≡ some a
      → (b : Bool) × (value_is_off c v ≡ some b) × (b ≡ true → a ≡ false)
  unfolding value_is_auto value_is_off
  off_of_auto (pv_integer i) a e = elim (Bool-cases c.has_etm) [
    | inl etm ↦ (
      eq_ℤ i c.etm_manual,
      rw etm refl,
      λ m. ground (arith, eq_of_eq_ℤ i c.etm_manual, eq_of_eq_ℤ i c.etm_auto, d.manual_ne),
    )
    | inr ae ↦ absurd (ground arith)
  ]
  off_of_auto (pv_bool b) a e = elim (Bool-cases c.has_etm) [
    | inl etm ↦ absurd (ground arith)
    | inr ae ↦ (not b, rw ae refl, λ m. ground arith)
  ]
  off_of_auto v a e = absurd (ground arith)

  -- Whether there is a conflict, by what the mode is.
  pub conflict_unset :
      (p : Values F)
      → at_set (mode c) (value_is_auto c) p ≡ some false
      → conflict_exposure c p ≡ some false
  unfolding conflict_exposure
  conflict_unset p e = rw (e, ◌>>=◌) refl

  pub conflict_set :
      (p : Values F) (v : ParameterValue F) (a : Bool)
      → lookup (mode c) p ≡ some v
      → has_value v ≡ true
      → value_is_auto c v ≡ some a
      → conflict_exposure c p ≡ some (a && has p c.et)
  unfolding conflict_exposure
  conflict_set p v a l s e = ground arith

  pub at_set_lem :
      (test : ParameterValue F → Option Bool) (p : Values F) (v : ParameterValue F)
      → lookup (mode c) p ≡ some v
      → has_value v ≡ true
      → at_set (mode c) test p ≡ test v
  at_set_lem test p v l s = ground arith
