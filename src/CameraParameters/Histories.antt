-- ===== src/CameraParameters/Histories.antt =====
-- What the camera's requests are given, and what parameters are set, after every history.
use physicar_ros.Base.{◌≤◌, ◌≡◌, Bool, Option, some, List, [], All, >>=-eq-some, arith}
use Prim.Native.String.{String}
use physicar_ros.Double.{Double, Casts}
use physicar_ros.CameraConflicts.{Controls, ConflictHandler, Parameter, mode, find, restore}
use physicar_ros.CameraConflicts.Merge.{occurs}
use physicar_ros.CameraConflicts.Running.{
  IsDistinct, NoConflict, value_after, restore_lem, accepted-NoConflict,
}
use physicar_ros.CameraParameters.{
  Library, Handler, Verdict, accepted, refused, interrupted, pre_set_resolve, set_parameters,
  move_control_values,
}
use physicar_ros.CameraParameters.Applied.{IsApplied}
use physicar_ros.CameraParameters.Setting.{
  IsReady, Outcome, resolved, resolved_parameters, set_parameters-Outcome,
}

same_answer {ℓ} : {A : Type ℓ} (a b : A) → some a ≡ some b → a ≡ b
same_answer a b e = cc

empty_before {ℓ} :
    {F : Type ℓ} (c : Controls) (h : ConflictHandler F) (ps : List (Parameter F))
    {r : ConflictHandler F × List (Parameter F)}
    → restore c h ps ≡ some r
    → h.tmp_store ≡ []
unfolding restore
empty_before c h ps e = ground arith

module _ {F G : Type 0} ⦃f : Double G⦄ ⦃cast : Casts F G⦄ (lib : Library G) where
  -- The handler and the values that the node holds: setting parameters is interrupted or refused, and
  -- the values stay, or it is accepted, and they are held; and a request takes the values to apply.
  -- `turned_down` is what rclcpp turns down itself.
  pub data Reach (turned_down : List (Parameter F) → Bool) (s : Handler F G)
      (held : List (Parameter F)) : Handler F G → List (Parameter F) → Type 0 where
    start : Reach turned_down s held s held
    interrupt :
        (t u : Handler F G) (old ps : List (Parameter F)) (asked : Option (List (Parameter F)))
        → Reach turned_down s held t old
        → set_parameters lib turned_down asked t ps ≡ some (u, interrupted)
        → Reach turned_down s held u old
    refuse :
        (t u : Handler F G) (old ps : List (Parameter F))
        → Reach turned_down s held t old
        → set_parameters lib turned_down (some old) t ps ≡ some (u, refused)
        → Reach turned_down s held u old
    accept :
        (t u : Handler F G) (old new ps : List (Parameter F))
        → Reach turned_down s held t old
        → set_parameters lib turned_down (some old) t ps ≡ some (u, accepted)
        → ((name : String) → find name new ≡ value_after old (resolved_parameters lib t ps) name)
        → Reach turned_down s held u new
    request :
        {t : Handler F G} {old : List (Parameter F)}
        → Reach turned_down s held t old
        → Reach turned_down s held (move_control_values t).0 old

  -- No list that was accepted names the mode twice.
  abbrev pub NamesOnce :
      {turned_down : List (Parameter F) → Bool} {s : Handler F G} {held : List (Parameter F)}
      {t : Handler F G} {now : List (Parameter F)}
      → Reach turned_down s held t now
      → Type 0
  NamesOnce start = Unit
  NamesOnce (interrupt t u old ps asked r e) = NamesOnce r
  NamesOnce (refuse t u old ps r e) = NamesOnce r
  NamesOnce (accept t u old new ps r e values) = (occurs (mode lib.controls) ps ≤ 1) × NamesOnce r
  NamesOnce (request r) = NamesOnce r

  -- The values to apply are allowed for their controls, and no exposure time is held while auto
  -- exposure is on.
  pub record IsSound (t : Handler F G) (held : List (Parameter F)) : Type 0 where
    pub applied : All (IsApplied lib t.camera_controls) t.control_values
    pub no_conflict : NoConflict lib.controls (λ name. find name held)

  -- Whatever setting parameters answers, no temporary store was left over before.
  set_parameters-IsReady :
      (turned_down : List (Parameter F) → Bool) (asked : Option (List (Parameter F)))
      (s : Handler F G) (ps : List (Parameter F)) {r : Handler F G × Verdict}
      → All (IsApplied lib s.camera_controls) s.control_values
      → set_parameters lib turned_down asked s ps ≡ some r
      → IsReady lib s
  unfolding set_parameters pre_set_resolve
  set_parameters-IsReady turned_down asked s ps all e =
      let (_, first, _) = >>=-eq-some (pre_set_resolve lib s ps) _ e in
      let (_, restored, _) = >>=-eq-some (restore lib.controls s.conflicts ps) _ first in
      record { no_tmp = empty_before lib.controls s.conflicts ps restored; applied = all }

  outcome_of :
      (turned_down : List (Parameter F) → Bool) (asked : Option (List (Parameter F)))
      (s : Handler F G) (ps : List (Parameter F)) {r : Handler F G × Verdict}
      → All (IsApplied lib s.camera_controls) s.control_values
      → set_parameters lib turned_down asked s ps ≡ some r
      → Outcome lib turned_down asked s ps (some r)
  outcome_of turned_down asked s ps all e = rw e at (
      set_parameters-Outcome lib turned_down asked s ps
        (set_parameters-IsReady turned_down asked s ps all e))

  interrupted-IsApplied :
      (t u : Handler F G) (ps : List (Parameter F))
      → u ≡ resolved lib t ps
      → All (IsApplied lib t.camera_controls) t.control_values
      → All (IsApplied lib u.camera_controls) u.control_values
  interrupted-IsApplied t u ps e all = rw e all

  -- After every history from a sound state in which no list that is accepted names the mode twice, the
  -- state is sound: the values that a request is given have the types and extents of controls and lie
  -- in their bounds, and the node holds no exposure time while it holds that auto exposure is on. The
  -- history may have lists that rclcpp turns down and calls that throw because a control is not
  -- declared, which leave a temporary store over.
  pub Reach-IsSound :
      {turned_down : List (Parameter F) → Bool} {s : Handler F G} {first : List (Parameter F)}
      {t : Handler F G} {held : List (Parameter F)}
      → IsDistinct lib.controls
      → IsSound s first
      → (r : Reach turned_down s first t held) → NamesOnce r
      → IsSound t held × All (IsApplied lib t.camera_controls) (move_control_values t).1
  unfolding move_control_values
  Reach-IsSound d i start once = (i, i.applied)
  Reach-IsSound {turned_down} d i (interrupt t u old ps asked r e) once =
      let (j, _) = Reach-IsSound d i r once in
      let (_, same) = outcome_of turned_down asked t ps j.applied e in
      let all = interrupted-IsApplied t u ps same j.applied in
      (record { applied = all; no_conflict = j.no_conflict }, all)
  Reach-IsSound {turned_down} d i (refuse t u old ps r e) once =
      let (j, _) = Reach-IsSound d i r once in
      let ready = (outcome_of turned_down (some old) t ps j.applied e).3 in
      (record { applied = ready.applied; no_conflict = j.no_conflict }, ready.applied)
  Reach-IsSound {turned_down} d i (accept t u old new ps r e values) (one, once) =
      let (j, _) = Reach-IsSound d i r once in
      let (known, answer, _, checked, _, _, ready) =
        outcome_of turned_down (some old) t ps j.applied e in
      let before = set_parameters-IsReady turned_down (some old) t ps j.applied e in
      let restored = restore_lem lib.controls t.conflicts ps before.no_tmp in
      let settled =
        accepted-NoConflict lib.controls d t.conflicts _ old ps (resolved_parameters lib t ps) one
          restored (rw (same_answer old known answer) checked) j.no_conflict in
      (
        record {
          applied = ready.applied;
          no_conflict = rw (values (mode lib.controls), values lib.controls.et) settled;
        },
        ready.applied,
      )
  Reach-IsSound d i (request r) once =
      let (j, _) = Reach-IsSound d i r once in
      (record { applied = tt; no_conflict = j.no_conflict }, tt)
