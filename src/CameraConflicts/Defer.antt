-- ===== src/CameraConflicts/Defer.antt =====
-- A default exposure time, which auto exposure defers.
use physicar_ros.Base.{
  ◌≡◌, ◌⊎◌, inl, inr, refl, ◌∙◌, true, false, Option, none, some, arith, ap, Bool-cases,
}
use physicar_ros.StringMap.{lookup, insert, lookup-insert_self}
use physicar_ros.CameraControls.{ParameterValue, pv_not_set}
use physicar_ros.CameraConflicts.{
  Controls, mode, Values, ConflictHandler, has_value, has, value_is_auto, value_is_off,
  conflict_exposure, auto_value, manual_value, assume_enabled, disable_exposure, resolve_defaults,
  put_back, resolve_overrides,
}
use physicar_ros.CameraConflicts.Running.{IsDistinct}
use physicar_ros.CameraConflicts.Modes.{
  mode_kept, time_kept, manual_lem, auto_lem, conflict_set, at_set_lem,
}

module _ (F : Type 0) (c : Controls) (d : IsDistinct c) where
  -- The exposure time `v` and the manual mode are there.
  abbrev pub Returned : ParameterValue F → Option (ConflictHandler F × Values F) → Type 0
  Returned v none = ⊥
  Returned v (some (h, p)) = (lookup c.et p ≡ some v) × (lookup (mode c) p ≡ some (manual_value c))

  -- The exposure time is unset and kept, and comes back when an override chooses the manual mode.
  abbrev pub Deferred : ParameterValue F → Option (ConflictHandler F × Values F) → Type 0
  Deferred v none = ⊥
  Deferred v (some (h, p)) =
      (has p c.et ≡ false)
      × (conflict_exposure c p ≡ some false)
      × Returned v (resolve_overrides c h (insert (mode c) (manual_value c) p))

  returned :
      (h : ConflictHandler F) (p : Values F) (v old : ParameterValue F)
      → lookup c.et h.store ≡ some v
      → lookup c.et p ≡ some old
      → has_value old ≡ false
      → lookup (mode c) p ≡ some (manual_value c)
      → Returned v (resolve_overrides c h p)
  unfolding resolve_overrides put_back
  returned h p v old stored there unset manual =
      let (ms, ma, mo) = manual_lem F c d (manual_value c) refl in
      let time : has p c.et ≡ false = ground arith in
      let q = insert c.et v p in
      let new : lookup c.et q ≡ some v = lookup-insert_self p c.et v in
      let kept : lookup (mode c) q ≡ some (manual_value c) = ground (arith, mode_kept F c d p v) in
      rw
        (
          conflict_set F c d p (manual_value c) false manual ms ma,
          at_set_lem F c d (value_is_off c) p (manual_value c) manual ms,
          mo,
          time,
          stored,
          there,
          put_back,
        )
        (new, kept)

  unset_lem : (v : ParameterValue F) → v ≡ pv_not_set → has_value v ≡ false
  unfolding has_value
  unset_lem v e = rw e refl

  disabled-Deferred :
      (h : ConflictHandler F) (q : Values F) (v m : ParameterValue F)
      → lookup c.et q ≡ some v
      → lookup (mode c) q ≡ some m
      → has_value m ≡ true
      → value_is_auto c m ≡ some true
      → Deferred v (disable_exposure c h q)
  unfolding disable_exposure
  disabled-Deferred h q v m time mode_there s a =
      let r = insert c.et pv_not_set q in
      let stored : lookup c.et (insert c.et v h.store) ≡ some v =
        lookup-insert_self h.store c.et v in
      let unset : lookup c.et r ≡ some pv_not_set = lookup-insert_self q c.et pv_not_set in
      let still : lookup (mode c) r ≡ some m = ground (arith, mode_kept F c d q pv_not_set) in
      let gone : has r c.et ≡ false = rw (unset, has) (unset_lem pv_not_set refl) in
      let w = insert (mode c) (manual_value c) r in
      let time' : lookup c.et w ≡ some pv_not_set =
        ground (arith, unset, time_kept F c d r (manual_value c)) in
      let manual : lookup (mode c) w ≡ some (manual_value c) =
        lookup-insert_self r (mode c) (manual_value c) in
      rw (time, disable_exposure)
        (
          gone,
          conflict_set F c d r m true still s a ∙ rw gone refl,
          returned (record h { store = insert c.et v h.store }) w v pv_not_set stored time'
              (unset_lem pv_not_set refl) manual,
        )

  conflict_now :
      (q : Values F) (v m : ParameterValue F)
      → lookup c.et q ≡ some v
      → has_value v ≡ true
      → lookup (mode c) q ≡ some m
      → has_value m ≡ true
      → value_is_auto c m ≡ some true
      → conflict_exposure c q ≡ some true
  conflict_now q v m time real there s a =
      let set : has q c.et ≡ true = rw (time, has) real in
      conflict_set F c d q m true there s a ∙ ap some set

  -- When auto exposure is on by default, or has no default, a default exposure time is unset, which
  -- leaves no conflict, and it comes back when an override chooses the manual mode.
  pub resolve_defaults-Deferred :
      (h : ConflictHandler F) (p : Values F) {v m : ParameterValue F}
      → lookup c.et p ≡ some v
      → has_value v ≡ true
      → lookup (mode c) p ≡ some m
      → (has_value m ≡ false) ⊎ (value_is_auto c m ≡ some true)
      → Deferred v (resolve_defaults c h p)
  unfolding resolve_defaults assume_enabled
  resolve_defaults-Deferred h p {v} {m} time real there auto = elim (Bool-cases (has_value m)) [
    | inl s ↦
        let a : value_is_auto c m ≡ some true = elim auto [ inl u ↦ absurd (cc) | inr a ↦ a ] in
        rw (there, s, assume_enabled, conflict_now p v m time real there s a)
          (disabled-Deferred h p v m time there s a)
    | inr u ↦
        let (s, a) = auto_lem F c d (auto_value c) refl in
        let q = insert (mode c) (auto_value c) p in
        let time' : lookup c.et q ≡ some v = ground (arith, time_kept F c d p (auto_value c)) in
        let there' : lookup (mode c) q ≡ some (auto_value c) =
          lookup-insert_self p (mode c) (auto_value c) in
        rw (there, u, assume_enabled, conflict_now q v (auto_value c) time' real there' s a)
          (disabled-Deferred h q v (auto_value c) time' there' s a)
  ]
