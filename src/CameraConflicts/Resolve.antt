-- ===== src/CameraConflicts/Resolve.antt =====
-- Resolving the overrides of the parameters when they are declared.
use physicar_ros.Base.{
  ◌≡◌, inl, inr, refl, ◌∙◌, Bool, true, false, ◌&&◌, not, Option, none, some, arith, ap, is_some,
  Option-cases, Bool-cases, ◌>>=◌,
}
use physicar_ros.StringMap.{lookup, insert, lookup-insert_self}
use physicar_ros.CameraControls.{ParameterValue}
use physicar_ros.CameraConflicts.{
  Controls, mode, Values, ConflictHandler, has_value, has, at_set, value_is_auto, value_is_off,
  conflict_exposure, manual_value, put_back, resolve_overrides,
}
use physicar_ros.CameraConflicts.Running.{IsDistinct}
use physicar_ros.CameraConflicts.Modes.{
  mode_kept, time_kept, manual_lem, off_of_auto, conflict_unset, conflict_set, at_set_lem,
}

module _ {F : Type 0} (c : Controls) where
  -- A value that the mode may have: unset, or of its type.
  abbrev pub IsMode : ParameterValue F → Type 0
  IsMode v = has_value v ≡ true → is_some (value_is_auto c v) ≡ true

  abbrev pub HasMode : Option (ParameterValue F) → Type 0
  HasMode none = Unit
  HasMode (some v) = IsMode v

  -- What a call leaves behind that does not throw, and leaves no conflict.
  abbrev pub Resolved : Option (ConflictHandler F × Values F) → Type 0
  Resolved none = ⊥
  Resolved (some (h, p)) = conflict_exposure c p ≡ some false

module _ (F : Type 0) (c : Controls) (d : IsDistinct c) where
  put_back-Resolved :
      (h : ConflictHandler F) (p : Values F) (v : ParameterValue F)
      → lookup (mode c) p ≡ some v
      → has_value v ≡ true
      → value_is_auto c v ≡ some false
      → (is_some (lookup c.et h.store) ≡ true → is_some (lookup c.et p) ≡ true)
      → Resolved c (put_back c h p)
  unfolding put_back
  put_back-Resolved h p v l s a k = elim (Option-cases (lookup c.et h.store)) [
    | inl e ↦ rw (e, put_back) (conflict_set F c d p v false l s a)
    | inr (w, e) ↦ elim (Option-cases (lookup c.et p)) [
      | inl gone ↦ absurd (ground arith)
      | inr (x, there) ↦
          let q = insert c.et w p in
          let same : lookup (mode c) q ≡ some v = ground (arith, mode_kept F c d p w) in
          rw (e, there, put_back) (conflict_set F c d q v false same s a)
    ]
  ]

  set-Resolved :
      (h : ConflictHandler F) (p : Values F) (v : ParameterValue F) (a : Bool)
      → lookup (mode c) p ≡ some v
      → has_value v ≡ true
      → value_is_auto c v ≡ some a
      → (is_some (lookup c.et h.store) ≡ true → is_some (lookup c.et p) ≡ true)
      → Resolved c (resolve_overrides c h p)
  unfolding resolve_overrides
  set-Resolved h p v a l s e k = elim (Bool-cases (a && has p c.et)) [
    | inl conflict ↦
        let q = insert (mode c) (manual_value c) p in
        let (ms, ma, mo) = manual_lem F c d (manual_value c) refl in
        let there : lookup (mode c) q ≡ some (manual_value c) =
          lookup-insert_self p (mode c) (manual_value c) in
        let time : has q c.et ≡ true = ground (arith, time_kept F c d p (manual_value c)) in
        rw
          (
            conflict_set F c d p v a l s e,
            conflict,
            at_set_lem F c d (value_is_off c) q (manual_value c) there ms,
            mo,
            time,
          )
          (conflict_set F c d q (manual_value c) false there ms ma)
    | inr none_yet ↦
        let (b, o, off) = off_of_auto F c d v a e in
        rw (conflict_set F c d p v a l s e, none_yet, at_set_lem F c d (value_is_off c) p v l s, o)
          (elim (Bool-cases (b && not (has p c.et))) [
            | inl back ↦
                let clear : a ≡ false = off (ground arith) in
                rw back (put_back-Resolved h p v l s (rw clear at e) k)
            | inr stay ↦ rw stay (conflict_set F c d p v a l s e ∙ ap some none_yet)
          ])
  ]

  unset-Resolved :
      (h : ConflictHandler F) (p : Values F)
      → ((test : ParameterValue F → Option Bool) → at_set (mode c) test p ≡ some false)
      → Resolved c (resolve_overrides c h p)
  unfolding resolve_overrides
  unset-Resolved h p e =
      let quiet = conflict_unset F c d p (e (value_is_auto c)) in
      rw (quiet, e (value_is_off c), ◌>>=◌) quiet

  -- Overrides are resolved without an exception, and without a conflict left, for every map whose mode
  -- is unset or of its type, and which has the key of an exposure time that was stored.
  pub resolve_overrides-Resolved :
      (h : ConflictHandler F) (p : Values F)
      → HasMode c (lookup (mode c) p)
      → (is_some (lookup c.et h.store) ≡ true → is_some (lookup c.et p) ≡ true)
      → Resolved c (resolve_overrides c h p)
  resolve_overrides-Resolved h p m k = elim (Option-cases (lookup (mode c) p)) [
    | inl e ↦ unset-Resolved h p (λ test. rw (e, at_set) refl)
    | inr (v, e) ↦ elim (Bool-cases (has_value v)) [
      | inr u ↦ unset-Resolved h p (λ test. rw (e, at_set, u) refl)
      | inl s ↦ elim (Option-cases (value_is_auto c v)) [
        | inl bad ↦ absurd (ground (arith, rw e at m))
        | inr (a, good) ↦ set-Resolved h p v a e s good k
      ]
    ]
  ]
