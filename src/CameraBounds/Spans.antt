-- ===== src/CameraBounds/Spans.antt =====
-- physicar_camera/src/clamp.cpp: its templates, on elements and on arrays of them. A failed assertion
-- and a read beyond the end of an array give `none`.

use physicar_ros.Base.{
  ℕ, ◌+◌, ◌%◌, ◌^◌, Bool, true, false, ◌&&◌, ◌||◌, not, Option, none, some, List, [], ◌∷◌,
  if◌then◌else◌, ltb, length, ◌>>=◌,
}
use physicar_ros.Base.Int.{ℤ, pos, ◌+ℤ◌, ◌-ℤ◌, ◌*ℤ◌, ltb_ℤ}
use physicar_ros.CameraControls.{Rectangle, Size, Point, Span, scalar, array, to_unsigned}

-- `operator<` of `bool` and of `libcamera::Size`.
abbrev pub lt_bool : Bool → Bool → Bool
lt_bool a b = not a && b

pub record Orders : Type 0 where
  pub lt_size : Size → Size → Bool

-- `std::clamp`.
abbrev pub clamp_by {ℓ} : {A : Type ℓ} → (A → A → Bool) → A → A → A → A
clamp_by lt v lo hi = if lt v lo then lo else if lt hi v then hi else v

-- The sum of an `int` and an `unsigned int`, and their difference.
abbrev pub edge : ℤ → ℕ → ℕ
edge x width = (to_unsigned 32 x + width) % 2 ^ 32

abbrev pub extent_from : ℕ → ℤ → ℕ
extent_from end x = to_unsigned 32 (pos end -ℤ x)

unfoldable pub clamp_rectangle : Rectangle → Rectangle → Rectangle → Rectangle
clamp_rectangle val lo hi =
    let x = clamp_by ltb_ℤ val.x lo.x hi.x in
    let y = clamp_by ltb_ℤ val.y lo.y hi.y in
    let right = clamp_by ltb (edge x val.width) (edge lo.x lo.width) (edge hi.x hi.width) in
    let below = clamp_by ltb (edge y val.height) (edge lo.y lo.height) (edge hi.y hi.height) in
    record { x = x; y = y; width = extent_from right x; height = extent_from below y }

unfoldable pub clamp_point : Point → Point → Point → Point
clamp_point val lo hi = record {
  x = clamp_by ltb_ℤ val.x lo.x hi.x;
  y = clamp_by ltb_ℤ val.y lo.y hi.y;
}

-- `operator<` and `operator>` of rectangles and points.
unfoldable pub lt_rectangle : Rectangle → Rectangle → Bool
lt_rectangle a b =
    ltb_ℤ b.x a.x
    && ltb_ℤ b.y a.y
    && ltb (edge a.x a.width) (edge b.x b.width)
    && ltb (edge a.y a.height) (edge b.y b.height)

unfoldable pub gt_rectangle : Rectangle → Rectangle → Bool
gt_rectangle a b =
    ltb_ℤ a.x b.x
    && ltb_ℤ a.y b.y
    && ltb (edge b.x b.width) (edge a.x a.width)
    && ltb (edge b.y b.height) (edge a.y a.height)

abbrev pub squared_sum : Point → ℤ
squared_sum p = p.x *ℤ p.x +ℤ p.y *ℤ p.y

unfoldable pub lt_point : Point → Point → Bool
lt_point a b = ltb_ℤ (squared_sum a) (squared_sum b)

unfoldable pub gt_point : Point → Point → Bool
gt_point a b = ltb_ℤ (squared_sum b) (squared_sum a)

abbrev pub flip {ℓ} : {A : Type ℓ} → (A → A → Bool) → A → A → Bool
flip test a b = test b a

module _ {ℓ} {A : Type ℓ} where
  abbrev pub is_array_span : Span A → Bool
  is_array_span (scalar x) = false
  is_array_span (array xs) = true

  abbrev pub count : Span A → ℕ
  count (scalar x) = 1
  count (array xs) = length xs

  -- `clamp_array`, with bounds for each element.
  unfoldable pub clamp_each : (A → A → A → A) → List A → List A → List A → Option (List A)
  clamp_each f [] lo hi = some []
  clamp_each f (x ∷ xs) (a ∷ lo) (b ∷ hi) = clamp_each f xs lo hi >>= λ ys. some (f x a b ∷ ys)
  clamp_each f (x ∷ xs) lo hi = none

  unfoldable pub clamp_all : (A → A → A → A) → A → A → List A → List A
  clamp_all f a b [] = []
  clamp_all f a b (x ∷ xs) = f x a b ∷ clamp_all f a b xs

  unfoldable pub clamp_span : (A → A → A → A) → Span A → Span A → Span A → Option (Span A)
  clamp_span f (scalar x) (scalar a) (scalar b) = some (scalar (f x a b))
  clamp_span f (array xs) (scalar a) (scalar b) = some (array (clamp_all f a b xs))
  clamp_span f (array xs) (array lo) (array hi) = clamp_each f xs lo hi >>= λ ys. some (array ys)
  clamp_span f s lo hi = none

  -- `less` and `greater`, by the test of two elements.
  unfoldable pub some_pair : (A → A → Bool) → List A → List A → Option Bool
  some_pair test [] bs = some false
  some_pair test (a ∷ as') (b ∷ bs) = if test a b then some true else some_pair test as' bs
  some_pair test (a ∷ as') [] = none

  unfoldable pub some_left : (A → A → Bool) → List A → A → Bool
  some_left test [] b = false
  some_left test (a ∷ as') b = test a b || some_left test as' b

  unfoldable pub some_right : (A → A → Bool) → A → List A → Bool
  some_right test a [] = false
  some_right test a (b ∷ bs) = test a b || some_right test a bs

  unfoldable pub compare_span : (A → A → Bool) → Span A → Span A → Option Bool
  compare_span test (array as') (array bs) = some_pair test as' bs
  compare_span test (array as') (scalar b) = some (some_left test as' b)
  compare_span test (scalar a) (array bs) = some (some_right test a bs)
  compare_span test (scalar a) (scalar b) = some (test a b)

  -- `min` and `max`: the first extreme element, by `std::min_element` and `std::max_element`.
  unfoldable pub extreme : (A → A → Bool) → A → List A → A
  extreme better x [] = x
  extreme better x (y ∷ ys) = extreme better (if better y x then y else x) ys

  unfoldable pub extreme_of : (A → A → Bool) → Span A → Option A
  extreme_of better (scalar x) = some x
  extreme_of better (array []) = none
  extreme_of better (array (x ∷ xs)) = some (extreme better x xs)
