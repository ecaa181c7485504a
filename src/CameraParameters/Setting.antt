-- ===== src/CameraParameters/Setting.antt =====
-- Setting parameters, and what the requests of the camera are given after every history.
use physicar_ros.Base.{
  ◌≡◌, ◌⊎◌, refl, inl, inr, Bool, true, false, Option, none, some, List, [], ◌∷◌, ◌>>=◌, All,
  Option-cases, Bool-cases, arith,
}
use physicar_ros.Double.{Double, Casts}
use physicar_ros.CameraConflicts.{Parameter, adjust, check, store_commit_or_revert}
use physicar_ros.CameraConflicts.Running.{restore_lem, adjust_store}
use physicar_ros.CameraParameters.{
  Library, Handler, Verdict, accepted, refused, interrupted, apply_accepted, post_set_apply,
  pre_set_resolve, finish, validate_new_parameters, on_set_validate, set_parameters,
}
use physicar_ros.CameraParameters.Applied.{IsApplied, check_all-IsApplied}

module _ {F G : Type 0} ⦃f : Double G⦄ ⦃cast : Casts F G⦄ (lib : Library G) where
  -- No temporary store is left over, and the values to apply are allowed for their controls.
  pub record IsReady (s : Handler F G) : Type 0 where
    pub no_tmp : s.conflicts.tmp_store ≡ []
    pub applied : All (IsApplied lib s.camera_controls) s.control_values

  -- The state and the parameters after `PreSetResolve`.
  abbrev pub resolved : Handler F G → List (Parameter F) → Handler F G
  resolved s ps = record s { conflicts = (adjust lib.controls s.conflicts ps).0 }

  abbrev pub resolved_parameters : Handler F G → List (Parameter F) → List (Parameter F)
  resolved_parameters s ps = (adjust lib.controls s.conflicts ps).1

  pre_set_resolve_lem :
      (s : Handler F G) (ps : List (Parameter F))
      → s.conflicts.tmp_store ≡ []
      → pre_set_resolve lib s ps ≡ some (resolved s ps, resolved_parameters s ps)
  unfolding pre_set_resolve
  pre_set_resolve_lem s ps e = rw (restore_lem lib.controls s.conflicts ps e) refl

  -- How setting parameters ended. A check threw; or rclcpp turned the list down or could not tell the
  -- old values, and the temporary store is left over; or the parameters were refused, which changed
  -- nothing; or they were accepted, which changed the values to apply.
  abbrev pub Outcome :
      (List (Parameter F) → Bool)
      → Option (List (Parameter F))
      → Handler F G
      → List (Parameter F)
      → Option (Handler F G × Verdict)
      → Type 0
  Outcome turned_down asked s ps none =
      (old : List (Parameter F)) × (asked ≡ some old)
      × (validate_new_parameters lib old (resolved s ps) (resolved_parameters s ps) ≡ none)
  Outcome turned_down asked s ps (some (t, interrupted)) =
      ((turned_down (resolved_parameters s ps) ≡ true) ⊎ (asked ≡ none)) × (t ≡ resolved s ps)
  Outcome turned_down asked s ps (some (t, refused)) =
      (t.control_values ≡ s.control_values)
      × (t.conflicts.store ≡ s.conflicts.store)
      × (t.camera_controls ≡ s.camera_controls)
      × IsReady t
  Outcome turned_down asked s ps (some (t, accepted)) =
      (old : List (Parameter F)) × (asked ≡ some old)
      × (turned_down (resolved_parameters s ps) ≡ false)
      × (check lib.controls old (resolved_parameters s ps) ≡ true)
      × (t.conflicts.store ≡ (resolved s ps).conflicts.tmp_store)
      × (t.camera_controls ≡ s.camera_controls)
      × IsReady t

  module _ (turned_down : List (Parameter F) → Bool) (s : Handler F G) (ps : List (Parameter F))
      (r : IsReady s) where
    was_refused :
        (asked : Option (List (Parameter F)))
        → Outcome turned_down asked s ps (some (finish false (resolved s ps), refused))
    unfolding finish store_commit_or_revert
    was_refused asked = (
      refl,
      adjust_store lib.controls s.conflicts ps,
      refl,
      record { no_tmp = refl; applied = r.applied },
    )

    was_accepted :
        (old : List (Parameter F))
        → turned_down (resolved_parameters s ps) ≡ false
        → validate_new_parameters lib old (resolved s ps) (resolved_parameters s ps) ≡ some []
        → Outcome turned_down (some old) s ps (
            post_set_apply lib (finish true (resolved s ps)) (resolved_parameters s ps) >>= λ t.
            some (t, accepted))
    unfolding finish store_commit_or_revert post_set_apply validate_new_parameters
    was_accepted old passed v =
        elim (Bool-cases (check lib.controls old (resolved_parameters s ps))) [
          | inr bad ↦ absurd (ground arith)
          | inl good ↦
              let (ws, e, ok) =
                check_all-IsApplied lib s.camera_controls (resolved_parameters s ps) []
                  (ground arith) tt in
              rw (e, ◌>>=◌)
                (old, refl, passed, good, refl, refl, record { no_tmp = refl; applied = ok })
        ]

    -- What follows the first callback.
    validated :
        (old : List (Parameter F))
        → turned_down (resolved_parameters s ps) ≡ false
        → Outcome turned_down (some old) s ps (
            on_set_validate lib (some old) (resolved s ps) (resolved_parameters s ps) >>= λ v.
            apply_accepted lib (resolved_parameters s ps) v)
    unfolding on_set_validate
    validated old passed =
        let qs = resolved_parameters s ps in
        elim (Option-cases (validate_new_parameters lib old (resolved s ps) qs)) [
          | inl v ↦ rw (v, ◌>>=◌) (old, refl, v)
          | inr ([], v) ↦ rw (v, ◌>>=◌) (was_accepted old passed v)
          | inr (m ∷ ms, v) ↦ rw (v, ◌>>=◌) (was_refused (some old))
        ]

  pub set_parameters-Outcome :
      (turned_down : List (Parameter F) → Bool) (asked : Option (List (Parameter F)))
      (s : Handler F G) (ps : List (Parameter F))
      → IsReady s
      → Outcome turned_down asked s ps (set_parameters lib turned_down asked s ps)
  unfolding set_parameters on_set_validate
  set_parameters-Outcome turned_down asked s ps r =
      elim (Bool-cases (turned_down (resolved_parameters s ps))) [
        | inl down ↦ rw (pre_set_resolve_lem s ps r.no_tmp, ◌>>=◌, down) (inl down, refl)
        | inr passed ↦ elim (Option-cases asked) [
          | inl e ↦ rw (pre_set_resolve_lem s ps r.no_tmp, ◌>>=◌, passed, e) (inr refl, refl)
          | inr (old, e) ↦
              rw (pre_set_resolve_lem s ps r.no_tmp, ◌>>=◌, passed, e)
                (validated turned_down s ps r old passed)
        ]
      ]
