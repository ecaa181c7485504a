-- ===== src/CameraParameters/Once.antt =====
-- The single callback of older versions of rclcpp does what the three callbacks do.
use physicar_ros.Base.{
  ◌≡◌, refl, inl, inr, Bool, true, false, Option, none, some, List, [], ◌>>=◌, if◌then◌else◌,
  Option-cases,
}
use physicar_ros.Double.{Double, Casts}
use physicar_ros.CameraConflicts.{Parameter}
use physicar_ros.CameraParameters.{
  Library, Handler, verdict, successful, apply_all, post_set_apply, pre_set_resolve, finish,
  validate_new_parameters, on_set_validate, validate_apply, on_set_only, apply_accepted,
  set_parameters,
}

module _ {F G : Type 0} ⦃f : Double G⦄ ⦃cast : Casts F G⦄ (lib : Library G) where
  -- Applying values and committing the store do not depend on one another.
  pub post_set_apply-finish :
      (ok : Bool) (s : Handler F G) (ps : List (Parameter F))
      → post_set_apply lib (finish ok s) ps ≡ (post_set_apply lib s ps >>= λ r. some (finish ok r))
  unfolding post_set_apply finish
  post_set_apply-finish ok s ps = elim (Option-cases (apply_all lib s.camera_controls ps [])) [
    | inl e ↦ rw (e, ◌>>=◌) refl
    | inr (vs, e) ↦ rw (e, ◌>>=◌) refl
  ]

  -- Applying the values and committing, in both orders.
  told :
      (s : Handler F G) (ps : List (Parameter F)) (ok : Bool)
      → ((if ok then post_set_apply lib s ps else some s) >>= λ t. some (finish ok t, verdict ok))
        ≡ apply_accepted lib ps (finish ok s, verdict ok)
  told s ps false = refl
  told s ps true = elim (Option-cases (post_set_apply lib s ps)) [
    | inl e ↦ rw (post_set_apply-finish true s ps, e, ◌>>=◌) refl
    | inr (t, e) ↦ rw (post_set_apply-finish true s ps, e, ◌>>=◌) refl
  ]

  validate_apply-eq :
      (asked : Option (List (Parameter F))) (s : Handler F G) (ps : List (Parameter F))
      → validate_apply lib asked s ps
        ≡ (on_set_validate lib asked s ps >>= λ v. apply_accepted lib ps v)
  unfolding validate_apply on_set_validate
  validate_apply-eq none s ps = refl
  validate_apply-eq (some old) s ps = elim (Option-cases (validate_new_parameters lib old s ps)) [
    | inl v ↦ rw (v, ◌>>=◌) refl
    | inr (ms, v) ↦ rw (v, ◌>>=◌) (told s ps (successful ms))
  ]

  -- Where rclcpp itself does not turn down the list that `restore` made, the one callback, which calls
  -- the other two on a copy, ends as the three callbacks of newer versions do, in the same state of the
  -- handler and with the same verdict, exceptions included. The values that the node then holds are
  -- not compared: with the one callback it holds the list without what `restore` added.
  pub on_set_only-eq-set_parameters :
      (turned_down : List (Parameter F) → Bool) (asked : Option (List (Parameter F)))
      (s : Handler F G) (ps : List (Parameter F))
      → ((t : Handler F G) (qs : List (Parameter F))
          → pre_set_resolve lib s ps ≡ some (t, qs)
          → turned_down qs ≡ false)
      → on_set_only lib asked s ps ≡ set_parameters lib turned_down asked s ps
  unfolding on_set_only set_parameters
  on_set_only-eq-set_parameters turned_down asked s ps passed =
      elim (Option-cases (pre_set_resolve lib s ps)) [
        | inl e ↦ rw (e, ◌>>=◌) refl
        | inr ((t, qs), e) ↦ rw (e, ◌>>=◌, passed t qs e) (validate_apply-eq asked t qs)
      ]
