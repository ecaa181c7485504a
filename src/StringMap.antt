-- ===== src/StringMap.antt =====
-- `std::map` with strings as keys: the operations that the nodes call on it.
use Prim.Native.String.{String}
use text.Mathlib.Text.{◌==◌ as str_eq}
use text.Mathlib.TextEquality.{eq_iff}
use physicar_ros.Base.{◌≡◌, ◌≢◌, refl, Option, none, some, List, [], ◌∷◌, if◌then◌else◌, arith}

module _ {ℓ} {V : Type ℓ} where
  -- `find`, and `operator[]` where the entry exists.
  unfoldable pub lookup : String → List (String × V) → Option V
  lookup key [] = none
  lookup key ((name, value) ∷ rest) = if str_eq name key then some value else lookup key rest

  -- `operator[]` with an assignment.
  unfoldable pub insert : String → V → List (String × V) → List (String × V)
  insert key new [] = (key, new) ∷ []
  insert key new ((name, value) ∷ rest) =
      if str_eq name key then (key, new) ∷ rest else (name, value) ∷ insert key new rest

  -- `erase` of a key that stands once at most.
  unfoldable pub erase : String → List (String × V) → List (String × V)
  erase key [] = []
  erase key ((name, value) ∷ rest) =
      if str_eq name key then rest else (name, value) ∷ erase key rest

  -- An insertion changes what is found under its key only.
  pub lookup-insert :
      (entries : List (String × V)) (key other : String) (new : V)
      → lookup other (insert key new entries)
        ≡ (if str_eq key other then some new else lookup other entries)
  unfolding insert lookup
  lookup-insert [] key other new = refl
  lookup-insert ((name, value) ∷ rest) key other new =
      let later = lookup-insert rest key other new in
      ground (arith, later, eq_iff name other, eq_iff name key, eq_iff key other)

  pub lookup-insert_self :
      (entries : List (String × V)) (key : String) (new : V)
      → lookup key (insert key new entries) ≡ some new
  lookup-insert_self entries key new =
      ground (arith, lookup-insert entries key key new, eq_iff key key)

  pub lookup-insert_ne :
      (entries : List (String × V)) (key other : String) (new : V)
      → key ≢ other
      → lookup other (insert key new entries) ≡ lookup other entries
  lookup-insert_ne entries key other new ne =
      ground (arith, lookup-insert entries key other new, eq_iff key other)
