-- ===== src/CameraConflicts/Running.antt =====
-- Setting parameters while the camera runs: `restore`, `check`, and the values afterwards.
use Prim.Native.String.{String}
use text.Mathlib.TextEquality.{eq_iff}
use physicar_ros.Base.{
  ◌≤◌, ◌≡◌, ◌≢◌, ◌⊎◌, inl, inr, refl, ◌∙◌, true, false, ◌&&◌, Option, none, some, List, [], ◌∷◌,
  ◌++◌, if◌then◌else◌, arith, ap, is_some, Option-cases, Bool-cases,
}
use physicar_ros.Base.Int.{eq_of_eq_ℤ}
use physicar_ros.StringMap.{lookup, erase}
use physicar_ros.CameraControls.{ParameterValue, pv_not_set, pv_bool, pv_integer}
use physicar_ros.CameraConflicts.{
  Controls, mode, Parameter, ConflictHandler, has_value, find, is_set, holds_true, holds_int,
  auto_on, manual_on, check, give_back, adjust, restore,
}
use physicar_ros.CameraConflicts.Merge.{
  occurs, last, find-append, last-append_one, last-of_find, last_unset, find_has_value, find-merge,
}

-- The names and numbers of libcamera differ.
pub record IsDistinct (c : Controls) : Type 0 where
  pub mode_ne : mode c ≢ c.et
  pub manual_ne : c.etm_auto ≢ c.etm_manual

module _ {ℓ} {F : Type ℓ} where
  abbrev set_value : ParameterValue F → Option (ParameterValue F)
  set_value v = if has_value v then some v else none

  abbrev settled : Option (ParameterValue F) → Option (ParameterValue F) → Option (ParameterValue F)
  settled none old = old
  settled (some v) old = set_value v

  -- The value that a parameter has once a list of them is set, one after the other.
  abbrev pub value_after :
      List (Parameter F) → List (Parameter F) → String → Option (ParameterValue F)
  value_after old new name = settled (last name new) (find name old)

  -- Not both auto exposure and an exposure time.
  abbrev pub NoConflict : Controls → (String → Option (ParameterValue F)) → Type 0
  NoConflict c value = (auto_on c (value (mode c)) && is_some (value c.et)) ≡ false

module _ {ℓ} {F : Type ℓ} (c : Controls) where
  -- `restore` succeeds where nothing is left over, and keeps the store.
  pub restore_lem :
      (h : ConflictHandler F) (ps : List (Parameter F))
      → h.tmp_store ≡ []
      → restore c h ps ≡ some (adjust c h ps)
  unfolding restore
  restore_lem h ps e = ground arith

  pub adjust_store :
      (h : ConflictHandler F) (ps : List (Parameter F)) → (adjust c h ps).0.store ≡ h.store
  unfolding adjust give_back
  adjust_store h ps = ground arith

  pub restore-adjust :
      (h : ConflictHandler F) (ps : List (Parameter F)) {r : ConflictHandler F × List (Parameter F)}
      → restore c h ps ≡ some r
      → r ≡ adjust c h ps
  unfolding restore
  restore-adjust h ps {r} e = ground arith

module _ {ℓ} {F : Type ℓ} (c : Controls) (d : IsDistinct c) where
  abbrev SameMode : List (Parameter F) → List (Parameter F) → Type ℓ
  SameMode ps qs = (find (mode c) qs ≡ find (mode c) ps) × (last (mode c) qs ≡ last (mode c) ps)

  appended_mode :
      (v : ParameterValue F) (ps : List (Parameter F)) → SameMode ps (ps ++ (c.et, v) ∷ [])
  unfolding find
  appended_mode v ps = (
    ground (arith, find-append (mode c) ps ((c.et, v) ∷ []), eq_iff c.et (mode c), d.mode_ne),
    ground (arith, last-append_one (mode c) c.et v ps, eq_iff c.et (mode c), d.mode_ne),
  )

  appended_exposure :
      (v : ParameterValue F) (ps : List (Parameter F)) → last c.et (ps ++ (c.et, v) ∷ []) ≡ some v
  appended_exposure v ps = ground (arith, last-append_one c.et c.et v ps, eq_iff c.et c.et)

  give_back-SameMode :
      (h : ConflictHandler F) (ps : List (Parameter F)) → SameMode ps (give_back c h ps).1
  unfolding give_back
  give_back-SameMode h ps = elim (Option-cases (lookup c.et h.store)) [
    | inl e ↦ rw (e, give_back) (refl, refl)
    | inr (v, e) ↦ rw (e, give_back) (appended_mode v ps)
  ]

  -- The mode is left alone.
  adjust-SameMode :
      (h : ConflictHandler F) (ps : List (Parameter F)) → SameMode ps (adjust c h ps).1
  unfolding adjust
  adjust-SameMode h ps = elim (Bool-cases (is_set ps (mode c))) [
    | inl s ↦ elim (Bool-cases (manual_on c (find (mode c) ps))) [
      | inl m ↦ rw (s, m, adjust) (give_back-SameMode h ps)
      | inr m ↦ rw (s, m, adjust) (appended_mode pv_not_set ps)
    ]
    | inr s ↦ rw (s, adjust) (refl, refl)
  ]

  -- With a mode that is set and is not manual the exposure time is unset.
  adjust_unset :
      (h : ConflictHandler F) (ps : List (Parameter F))
      → is_set ps (mode c) ≡ true
      → manual_on c (find (mode c) ps) ≡ false
      → last c.et (adjust c h ps).1 ≡ some pv_not_set
  unfolding adjust
  adjust_unset h ps s o = rw (s, o) (appended_exposure pv_not_set ps)

  adjust_silent :
      (h : ConflictHandler F) (ps : List (Parameter F))
      → is_set ps (mode c) ≡ false
      → (adjust c h ps).1 ≡ ps
  unfolding adjust
  adjust_silent h ps s = rw s refl

  manual_of_auto : (o : Option (ParameterValue F)) → auto_on c o ≡ true → manual_on c o ≡ false
  unfolding auto_on manual_on holds_true holds_int
  manual_of_auto (some (pv_integer i)) a =
      ground (arith, eq_of_eq_ℤ i c.etm_auto, eq_of_eq_ℤ i c.etm_manual, d.manual_ne)
  manual_of_auto (some (pv_bool b)) a = ground arith
  manual_of_auto o a = ground arith

  auto_on-none : (o : Option (ParameterValue F)) → o ≡ none → auto_on c o ≡ false
  unfolding auto_on holds_true holds_int
  auto_on-none none e = ground arith
  auto_on-none (some v) e = absurd (cc)

  settled_unset : (o : Option (ParameterValue F)) → settled (some pv_not_set) o ≡ none
  unfolding has_value
  settled_unset o = refl

  -- A name without a value in a list keeps its old value, or is unset.
  unset_or_old :
      (old ps : List (Parameter F)) (name : String)
      → find name ps ≡ none
      → (value_after old ps name ≡ find name old) ⊎ (value_after old ps name ≡ none)
  unset_or_old old ps name e = elim (Option-cases (last name ps)) [
    | inl l ↦ rw (l, value_after) (inl refl)
    | inr (v, l) ↦ rw (l, value_after, last_unset name ps e l) (inr refl)
  ]

  unmentioned-NoConflict :
      (old ps : List (Parameter F))
      → find (mode c) ps ≡ none
      → check c old ps ≡ true
      → NoConflict c (λ name. find name old)
      → NoConflict c (value_after old ps)
  unfolding check
  unmentioned-NoConflict old ps e ok n = elim (unset_or_old old ps (mode c) e) [
    | inr gone ↦ rw (gone, auto_on-none none refl) refl
    | inl same ↦ elim (Option-cases (find c.et ps)) [
      | inl quiet ↦ elim (unset_or_old old ps c.et quiet) [
        | inl old_time ↦ rw (same, old_time) n
        | inr gone ↦ ground (arith)
      ]
      | inr (v, time) ↦ ground (arith, find-merge (mode c) old ps e, auto_on-none none refl)
    ]
  ]

  -- The values after a list that was adjusted and checked.
  checked-NoConflict :
      (h : ConflictHandler F) (old ps : List (Parameter F))
      → occurs (mode c) ps ≤ 1
      → check c old (adjust c h ps).1 ≡ true
      → NoConflict c (λ name. find name old)
      → NoConflict c (value_after old (adjust c h ps).1)
  checked-NoConflict h old ps one ok n =
      let qs = (adjust c h ps).1 in
      let (first, final) = adjust-SameMode h ps in
      elim (Option-cases (find (mode c) ps)) [
        | inl e ↦ unmentioned-NoConflict old qs (first ∙ e) ok n
        | inr (v, e) ↦
            let after : last (mode c) qs ≡ some v = final ∙ last-of_find (mode c) ps one e in
            elim (Bool-cases (auto_on c (find (mode c) ps))) [
              | inl a ↦
                  let off = manual_of_auto (find (mode c) ps) a in
                  let gone = adjust_unset h ps (rw e refl) off in
                  ground (arith, gone, settled_unset (find c.et old))
              | inr m ↦ ground (arith, after, find_has_value (mode c) ps e, rw e at m)
            ]
      ]

  -- Parameters that name the mode once at most, and that pass the check after what `restore` makes of
  -- them, leave no conflict of auto exposure with an exposure time once they are set, if there was
  -- none before.
  pub accepted-NoConflict :
      (h h' : ConflictHandler F) (old ps qs : List (Parameter F))
      → occurs (mode c) ps ≤ 1
      → restore c h ps ≡ some (h', qs)
      → check c old qs ≡ true
      → NoConflict c (λ name. find name old)
      → NoConflict c (value_after old qs)
  accepted-NoConflict h h' old ps qs one r ok n =
      let e : qs ≡ (adjust c h ps).1 =
        ap (λ (x : ConflictHandler F × List (Parameter F)). x.1) (restore-adjust c h ps r) in
      rw e (checked-NoConflict h old ps one (rw e at ok) n)

  -- When the exposure time was stored and the mode is set to manual, it is the stored time that is set,
  -- also where the parameters themselves have another one.
  pub stored_time_wins :
      (h h' : ConflictHandler F) (old ps qs : List (Parameter F)) {v : ParameterValue F}
      → lookup c.et h.store ≡ some v
      → has_value v ≡ true
      → is_set ps (mode c) ≡ true
      → manual_on c (find (mode c) ps) ≡ true
      → restore c h ps ≡ some (h', qs)
      → (value_after old qs c.et ≡ some v) × (h'.tmp_store ≡ erase c.et h.store)
  unfolding adjust give_back
  stored_time_wins h h' old ps qs {v} stored real set manual r =
      ground (arith, restore-adjust c h ps r, appended_exposure v ps)
