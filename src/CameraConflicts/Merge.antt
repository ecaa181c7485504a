-- ===== src/CameraConflicts/Merge.antt =====
-- What a list of parameters says of a name: the first value, the last value, and both in a merge.
use Prim.Native.String.{String}
use text.Mathlib.Text.{◌==◌ as str_eq}
use text.Mathlib.TextEquality.{eq_iff}
use physicar_ros.Base.{
  refl, ℕ, ◌+◌, ◌≤◌, ◌≡◌, true, false, Option, none, some, List, [], ◌∷◌, ◌++◌, if◌then◌else◌,
  arith,
}
use physicar_ros.CameraControls.{ParameterValue}
use physicar_ros.CameraConflicts.{Parameter, has_value, find, kept, merge}

module _ {ℓ} {F : Type ℓ} where
  -- How often a name stands in a list, and its last value.
  abbrev pub occurs : String → List (Parameter F) → ℕ
  occurs name [] = 0
  occurs name ((n, v) ∷ ps) = if str_eq n name then 1 + occurs name ps else occurs name ps

  abbrev pub or_else :
      Option (ParameterValue F) → Option (ParameterValue F) → Option (ParameterValue F)
  or_else none o = o
  or_else (some v) o = some v

  abbrev pub last : String → List (Parameter F) → Option (ParameterValue F)
  last name [] = none
  last name ((n, v) ∷ ps) = or_else (last name ps) (if str_eq n name then some v else none)

  pub find-append :
      (name : String) (ps qs : List (Parameter F))
      → find name (ps ++ qs) ≡ or_else (find name ps) (find name qs)
  unfolding find
  find-append name [] qs = refl
  find-append name ((n, v) ∷ ps) qs = ground (arith, find-append name ps qs)

  pub last-append_one :
      (name n : String) (v : ParameterValue F) (ps : List (Parameter F))
      → last name (ps ++ (n, v) ∷ []) ≡ (if str_eq n name then some v else last name ps)
  last-append_one name n v [] = ground arith
  last-append_one name n v ((k, w) ∷ ps) = ground (arith, last-append_one name n v ps)

  last_absent : (name : String) (ps : List (Parameter F)) → occurs name ps ≡ 0 → last name ps ≡ none
  last_absent name [] h = refl
  last_absent name ((n, v) ∷ ps) h = ground (arith, last_absent name ps)

  -- A value found under a name that stands once is the last one too.
  pub last-of_find :
      (name : String) (ps : List (Parameter F)) {m : ParameterValue F}
      → occurs name ps ≤ 1
      → find name ps ≡ some m
      → last name ps ≡ some m
  unfolding find
  last-of_find name [] one h = absurd (cc)
  last-of_find name ((n, v) ∷ ps) {m} one h =
      ground (arith, last_absent name ps, last-of_find name ps {m = m})

  -- If no value is found, the last one is unset.
  pub last_unset :
      (name : String) (ps : List (Parameter F)) {v : ParameterValue F}
      → find name ps ≡ none
      → last name ps ≡ some v
      → has_value v ≡ false
  unfolding find
  last_unset name [] h e = absurd (cc)
  last_unset name ((n, w) ∷ ps) {v} h e = ground (arith, last_unset name ps {v = v})

  find-kept :
      (name : String) (new old : List (Parameter F))
      → find name new ≡ none
      → find name (kept new old) ≡ find name old
  unfolding find kept
  find-kept name new [] h = refl
  find-kept name new ((n, v) ∷ old) h = ground (arith, find-kept name new old, eq_iff n name)

  -- A merge has the new value where there is one, and else the old one.
  pub find-merge :
      (name : String) (old new : List (Parameter F))
      → find name new ≡ none
      → find name (merge old new) ≡ find name old
  unfolding merge
  find-merge name old new h =
      ground (arith, find-append name new (kept new old), find-kept name new old)

  pub find-merge_new :
      (name : String) (old new : List (Parameter F)) {v : ParameterValue F}
      → find name new ≡ some v
      → find name (merge old new) ≡ some v
  unfolding merge
  find-merge_new name old new h = ground (arith, find-append name new (kept new old))

  pub find_has_value :
      (name : String) (ps : List (Parameter F)) {v : ParameterValue F}
      → find name ps ≡ some v
      → has_value v ≡ true
  unfolding find
  find_has_value name [] h = absurd (cc)
  find_has_value name ((n, w) ∷ ps) {v} h = ground (arith, find_has_value name ps {v = v})
