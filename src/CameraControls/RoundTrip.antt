-- ===== src/CameraControls/RoundTrip.antt =====
-- physicar_camera: a control value that becomes a parameter comes back as it was.
use mathlib.Core.Path.{ap₂}
use physicar_ros.Base.{
  ℕ, ◌^◌, ◌≤◌, ◌<◌, ◌≡◌, refl, ap, inr, not, List, [], ◌∷◌, map, ◌==◌, length, All, arith,
}
use physicar_ros.Base.Int.{ℤ, pos, negsuc}
use physicar_ros.Double.{Casts}
use physicar_ros.CameraControls.{
  scalar, array, ControlValue, bools, bytes, unsigned16s, unsigned32s, integer32s, integer64s,
  floats, rectangles, sizes, points, type_of, Rectangle, Point, ParameterValue, pv_bool, pv_integer,
  pv_double, pv_integer_array, pv_double_array, get_type, Result, of_rectangle, to_rectangle,
  to_point, of_size, of_point, to_unsigned, to_signed, cv_to_pv, pv_to_cv, pv_to_cv_int,
  pv_to_cv_int_array, scalar_type, array_type, cv_to_pv_type,
}
use physicar_ros.CameraControls.Types.{is_array}

-- The range of `int32_t`.
abbrev pub IsInt32 : ℤ → Type 0
IsInt32 (pos n) = n < 2 ^ 31
IsInt32 (negsuc n) = n < 2 ^ 31

abbrev pub IsWord : ℕ → ℕ → Type 0
IsWord width n = n < 2 ^ width

IsInt32-to_signed : (i : ℤ) → IsInt32 i → to_signed 32 i ≡ i
IsInt32-to_signed (pos n) h = ground arith
IsInt32-to_signed (negsuc n) h = ground arith

IsInt32-map : (is : List ℤ) → All IsInt32 is → map (to_signed 32) is ≡ is
IsInt32-map [] h = refl
IsInt32-map (i ∷ is) (here, later) = ap₂ ◌∷◌ (IsInt32-to_signed i here) (IsInt32-map is later)

IsWord8-to_unsigned : (n : ℕ) → IsWord 8 n → to_unsigned 8 (pos n) ≡ n
IsWord8-to_unsigned n h = omega arith

IsWord16-to_unsigned : (n : ℕ) → IsWord 16 n → to_unsigned 16 (pos n) ≡ n
IsWord16-to_unsigned n h = omega arith

IsWord32-to_unsigned : (n : ℕ) → IsWord 32 n → to_unsigned 32 (pos n) ≡ n
IsWord32-to_unsigned n h = omega arith

map-inverse :
    {F G : Type 0} (f : G → F) (g : F → G) (xs : List G)
    → All (λ x. g (f x) ≡ x) xs
    → map g (map f xs) ≡ xs
map-inverse f g [] h = refl
map-inverse f g (x ∷ xs) (h, hs) = ap₂ ◌∷◌ h (map-inverse f g xs hs)

module _ {ℓ} {G : Type ℓ} where
  abbrev Back : Result (ControlValue G) → ControlValue G → Type ℓ
  Back r v = r ≡ inr v

  rectangle-Inverse :
      (r : Rectangle)
      → IsInt32 r.x
      → IsInt32 r.y
      → IsWord 32 r.width
      → IsWord 32 r.height
      → Back (to_rectangle (r.x ∷ r.y ∷ pos r.width ∷ pos r.height ∷ [])) (rectangles (scalar r))
  rectangle-Inverse r hx hy hw hh =
      rw
        (
          IsInt32-to_signed r.x hx,
          IsInt32-to_signed r.y hy,
          IsWord32-to_unsigned r.width hw,
          IsWord32-to_unsigned r.height hh,
        )
        refl

  point-Inverse :
      (p : Point) → IsInt32 p.x → IsInt32 p.y → Back (to_point (p.x ∷ p.y ∷ [])) (points (scalar p))
  point-Inverse p hx hy = rw (IsInt32-to_signed p.x hx, IsInt32-to_signed p.y hy) refl

module _ (F : Type 0) {G : Type 0} ⦃cast : Casts F G⦄ where
  open cast use {widen, narrow}

  -- A value in the range of its type, no string, which is single, or an array of at least two 32-bit or
  -- 64-bit integers or floats; a `float` comes back from a `double`, as all do but signaling NaNs.
  abbrev pub Survives : ControlValue G → Type 0
  Survives (bools (scalar b)) = Unit
  Survives (bytes (scalar n)) = IsWord 8 n
  Survives (unsigned16s (scalar n)) = IsWord 16 n
  Survives (unsigned32s (scalar n)) = IsWord 32 n
  Survives (integer32s (scalar i)) = IsInt32 i
  Survives (integer64s (scalar i)) = Unit
  Survives (floats (scalar f)) = narrow (widen f) ≡ f
  Survives (rectangles (scalar r)) =
      IsInt32 r.x × IsInt32 r.y × IsWord 32 r.width × IsWord 32 r.height
  Survives (sizes (scalar s)) = IsWord 32 s.width × IsWord 32 s.height
  Survives (points (scalar p)) = IsInt32 p.x × IsInt32 p.y
  Survives (integer32s (array is)) = (2 ≤ length is) × All IsInt32 is
  Survives (integer64s (array is)) = 2 ≤ length is
  Survives (floats (array fs)) = (2 ≤ length fs) × All (λ f. narrow (widen f) ≡ f) fs
  Survives v = ⊥

module _ (F : Type 0) {G : Type 0} ⦃cast : Casts F G⦄ (float_of : ℤ → G) where
  open cast use {widen, narrow}

  -- The parameter has the declared type, and the value comes back.
  abbrev pub ComesBack : ℕ → ControlValue G → Type 0
  ComesBack extent v =
      (p : ParameterValue F) × (cv_to_pv v ≡ inr p)
      × (cv_to_pv_type extent (type_of v) ≡ inr (get_type p))
      × (pv_to_cv float_of p (type_of v) ≡ inr v)

  -- A control value that is no string and is single, or an array of at least two 32-bit or 64-bit
  -- integers or floats, becomes a parameter of the type that is declared for its control, and this
  -- parameter is converted back to the same value: its numbers are in the range of their types, the
  -- control's extent is zero exactly for a single value, and its floats come back from `double`.
  pub cv_to_pv-ComesBack :
      (extent : ℕ) (v : ControlValue G)
      → (extent == 0) ≡ not (is_array v)
      → Survives F v
      → ComesBack extent v
  unfolding cv_to_pv cv_to_pv_type scalar_type array_type pv_to_cv pv_to_cv_int pv_to_cv_int_array
  cv_to_pv-ComesBack extent (bools (scalar b)) e h = (pv_bool b, refl, rw e refl, refl)
  cv_to_pv-ComesBack extent (bytes (scalar n)) e h =
      (pv_integer (pos n), refl, rw e refl, rw (IsWord8-to_unsigned n h) refl)
  cv_to_pv-ComesBack extent (unsigned16s (scalar n)) e h =
      (pv_integer (pos n), refl, rw e refl, rw (IsWord16-to_unsigned n h) refl)
  cv_to_pv-ComesBack extent (unsigned32s (scalar n)) e h =
      (pv_integer (pos n), refl, rw e refl, rw (IsWord32-to_unsigned n h) refl)
  cv_to_pv-ComesBack extent (integer32s (scalar i)) e h =
      (pv_integer i, refl, rw e refl, ap (λ j. inr (integer32s (scalar j))) (IsInt32-to_signed i h))
  cv_to_pv-ComesBack extent (integer64s (scalar i)) e h = (pv_integer i, refl, rw e refl, refl)
  cv_to_pv-ComesBack extent (floats (scalar f)) e h =
      (pv_double (widen f), refl, rw e refl, rw h refl)
  cv_to_pv-ComesBack extent (rectangles (scalar r)) e (hx, hy, hw, hh) =
      (of_rectangle r, refl, rw e refl, rectangle-Inverse r hx hy hw hh)
  cv_to_pv-ComesBack extent (sizes (scalar s)) e (hw, hh) = (
    of_size s,
    refl,
    rw e refl,
    rw (IsWord32-to_unsigned s.width hw, IsWord32-to_unsigned s.height hh) refl,
  )
  cv_to_pv-ComesBack extent (points (scalar p)) e (hx, hy) =
      (of_point p, refl, rw e refl, point-Inverse p hx hy)
  cv_to_pv-ComesBack extent (integer32s (array (i ∷ j ∷ is))) e (two, all) = (
    pv_integer_array (i ∷ j ∷ is),
    refl,
    rw e refl,
    ap (λ js. inr (integer32s (array js))) (IsInt32-map (i ∷ j ∷ is) all),
  )
  cv_to_pv-ComesBack extent (integer64s (array (i ∷ j ∷ is))) e two =
      (pv_integer_array (i ∷ j ∷ is), refl, rw e refl, refl)
  cv_to_pv-ComesBack extent (floats (array (x ∷ y ∷ fs))) e (two, exact) = (
    pv_double_array (map widen (x ∷ y ∷ fs)),
    refl,
    rw e refl,
    ap (λ gs. inr (floats (array gs))) (map-inverse widen narrow (x ∷ y ∷ fs) exact),
  )
  cv_to_pv-ComesBack extent v e h = absurd (ground arith)
