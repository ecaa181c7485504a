-- ===== src/CameraBounds/Clamped.antt =====
-- Clamped control values pass the test of the bounds.
use physicar_ros.Base.{
  ℕ, ◌≡◌, refl, inl, inr, Bool, true, false, ◌&&◌, ◌||◌, not, none, some, List, [], ◌∷◌, suc, ap,
  if◌then◌else◌, ltb, ◌==◌, length, ◌>>=◌, arith,
}
use physicar_ros.Base.Int.{ℤ, ltb_ℤ}
use physicar_ros.Double.{Double}
use physicar_ros.CameraControls.{
  Size, Span, scalar, array, ControlValue, bytes, unsigned16s, unsigned32s, integer32s, integer64s,
  floats, sizes, type_of, invalid_conversion,
}
use physicar_ros.CameraBounds.Spans.{
  Orders, clamp_by, flip, is_array_span, count, clamp_each, clamp_all, clamp_span, some_pair,
  some_left, compare_span,
}
use physicar_ros.CameraBounds.{clamp, clamp_value, lt_value, gt_value, lt_control, gt_control}

-- Bounds of one shape, and spans that the assertion of the comparison lets through.
abbrev agree {ℓ} : {A : Type ℓ} → Span A → Span A → Bool
agree lo hi =
    ((is_array_span lo && is_array_span hi) || (not (is_array_span lo) && not (is_array_span hi)))
    && (count lo == count hi)

abbrev comparable {ℓ} : {A : Type ℓ} → Span A → Span A → Bool
comparable r s = (count r == count s) || (count s == 1)

module _ {ℓ} {A : Type ℓ} (lt : A → A → Bool) where
  -- Bounds for each element, in order.
  abbrev pub FitAll : List A → List A → List A → Type 0
  FitAll [] [] [] = Unit
  FitAll (x ∷ xs) (a ∷ lo) (b ∷ hi) = (lt b a ≡ false) × FitAll xs lo hi
  FitAll xs lo hi = ⊥

  -- Bounds of the shape that the controls have: for the value or for each element, and in order.
  abbrev pub Fits : Span A → Span A → Span A → Type 0
  Fits (scalar x) (scalar a) (scalar b) = lt b a ≡ false
  Fits (array xs) (scalar a) (scalar b) = lt b a ≡ false
  Fits (array xs) (array lo) (array hi) = FitAll xs lo hi
  Fits s lo hi = ⊥

  module _ (irreflexive : (a : A) → lt a a ≡ false) where
    clamp_by_lem :
        (x a b : A)
        → lt b a ≡ false
        → (lt (clamp_by lt x a b) a ≡ false) × (lt b (clamp_by lt x a b) ≡ false)
    clamp_by_lem x a b h = ground (arith, irreflexive a, irreflexive b)

    clamp_all_lem :
        (xs : List A) (a b : A)
        → lt b a ≡ false
        → let ys = clamp_all (clamp_by lt) a b xs in
          (some_left lt ys a ≡ false) × (some_left (flip lt) ys b ≡ false) × (length ys ≡ length xs)
    unfolding clamp_all some_left
    clamp_all_lem [] a b h = (refl, refl, refl)
    clamp_all_lem (x ∷ xs) a b h =
        let (l, g) = clamp_by_lem x a b h in
        let (ls, gs, n) = clamp_all_lem xs a b h in (rw (l, ls) refl, rw (g, gs) refl, ap suc n)

    clamp_each_lem :
        (xs lo hi : List A)
        → FitAll xs lo hi
        → (ys : List A) × (clamp_each (clamp_by lt) xs lo hi ≡ some ys)
          × (some_pair lt ys lo ≡ some false)
          × (some_pair (flip lt) ys hi ≡ some false)
          × (length ys ≡ length xs)
          × (length lo ≡ length xs)
          × (length hi ≡ length xs)
    unfolding clamp_each some_pair
    clamp_each_lem [] [] [] h = ([], refl, refl, refl, refl, refl, refl)
    clamp_each_lem (x ∷ xs) (a ∷ lo) (b ∷ hi) (h, hs) =
        let (l, g) = clamp_by_lem x a b h in
        let (ys, e, ls, gs, n, m, k) = clamp_each_lem xs lo hi hs in
        (
          clamp_by lt x a b ∷ ys,
          rw (e, ◌>>=◌) refl,
          rw (l, ls) refl,
          rw (g, gs) refl,
          ap suc n,
          ap suc m,
          ap suc k,
        )
    clamp_each_lem xs lo hi h = absurd h

    -- What a span of a shape, and its bounds, are clamped to.
    record IsClamped (s lo hi r : Span A) : Type ℓ where
      pub result : clamp_span (clamp_by lt) s lo hi ≡ some r
      pub not_below : compare_span lt r lo ≡ some false
      pub not_above : compare_span (flip lt) r hi ≡ some false
      pub bounds_agree : agree lo hi ≡ true
      pub comparable_below : comparable r lo ≡ true
      pub comparable_above : comparable r hi ≡ true

    span-IsClamped : (s lo hi : Span A) → Fits s lo hi → (r : Span A) × IsClamped s lo hi r
    unfolding clamp_span compare_span
    span-IsClamped (scalar x) (scalar a) (scalar b) h =
        let (l, g) = clamp_by_lem x a b h in
        (
          scalar (clamp_by lt x a b),
          record {
            result = refl;
            not_below = ap some l;
            not_above = ap some g;
            bounds_agree = refl;
            comparable_below = refl;
            comparable_above = refl;
          },
        )
    span-IsClamped (array xs) (scalar a) (scalar b) h =
        let (l, g, n) = clamp_all_lem xs a b h in
        (
          array (clamp_all (clamp_by lt) a b xs),
          record {
            result = refl;
            not_below = ap some l;
            not_above = ap some g;
            bounds_agree = refl;
            comparable_below = ground arith;
            comparable_above = ground arith;
          },
        )
    span-IsClamped (array xs) (array lo) (array hi) h =
        let (ys, e, l, g, n, m, k) = clamp_each_lem xs lo hi h in
        (
          array ys,
          record {
            result = rw (e, ◌>>=◌) refl;
            not_below = l;
            not_above = g;
            bounds_agree = ground arith;
            comparable_below = ground arith;
            comparable_above = ground arith;
          },
        )
    span-IsClamped s lo hi h = absurd h

-- No comparison finds a value below itself.
pub record IsIrreflexive (G : Type 0) ⦃f : Double G⦄ (o : Orders) : Type 0 where
  pub float_lt : (x : G) → f.lt x x ≡ false
  pub size_lt : (x : Size) → o.lt_size x x ≡ false

ltb_self : (n : ℕ) → ltb n n ≡ false
ltb_self n = ground arith

ltb_ℤ_self : (n : ℤ) → ltb_ℤ n n ≡ false
ltb_ℤ_self n = ground arith

module _ {G : Type 0} ⦃f : Double G⦄ (o : Orders) where
  open o use {lt_size}

  -- A value of an ordered type with bounds for it.
  pub data Fitting : ControlValue G → ControlValue G → ControlValue G → Type 0 where
    fit_bytes : (s a b : Span ℕ) → Fits ltb s a b → Fitting (bytes s) (bytes a) (bytes b)
    fit_unsigned16s :
        (s a b : Span ℕ) → Fits ltb s a b → Fitting (unsigned16s s) (unsigned16s a) (unsigned16s b)
    fit_unsigned32s :
        (s a b : Span ℕ) → Fits ltb s a b → Fitting (unsigned32s s) (unsigned32s a) (unsigned32s b)
    fit_integer32s :
        (s a b : Span ℤ) → Fits ltb_ℤ s a b → Fitting (integer32s s) (integer32s a) (integer32s b)
    fit_integer64s :
        (s a b : Span ℤ) → Fits ltb_ℤ s a b → Fitting (integer64s s) (integer64s a) (integer64s b)
    fit_floats : (s a b : Span G) → Fits f.lt s a b → Fitting (floats s) (floats a) (floats b)
    fit_sizes : (s a b : Span Size) → Fits lt_size s a b → Fitting (sizes s) (sizes a) (sizes b)

  -- The clamped value is of the same type, and neither below nor above its bounds.
  abbrev pub InBounds : ControlValue G → ControlValue G → ControlValue G → Type 0
  InBounds v lo hi =
      (r : ControlValue G) × (clamp o v lo hi ≡ some (inr r))
      × (lt_control o r lo ≡ some false)
      × (gt_control o r hi ≡ some false)
      × (type_of r ≡ type_of v)

  -- For each type: the operations go by its test, here `lt`.
  wrapped {κ} :
      {A : Type κ} (wrap : Span A → ControlValue G) (lt : A → A → Bool)
      → ((s a b : Span A)
          → clamp o (wrap s) (wrap a) (wrap b) ≡ (
              if agree a b
              then ((clamp_span (clamp_by lt) s a b >>= λ r. some (wrap r)) >>= λ r. some (inr r))
              else some (inl invalid_conversion)))
      → ((r a : Span A)
          → lt_control o (wrap r) (wrap a) ≡ (if comparable r a then compare_span lt r a else none))
      → ((r a : Span A)
          → gt_control o (wrap r) (wrap a)
            ≡ (if comparable r a then compare_span (flip lt) r a else none))
      → ((r s : Span A) → type_of (wrap r) ≡ type_of (wrap s))
      → ((a : A) → lt a a ≡ false)
      → (s a b : Span A) → Fits lt s a b
      → InBounds (wrap s) (wrap a) (wrap b)
  wrapped wrap lt clamped below above type irreflexive s a b h =
      let (r, c) = span-IsClamped lt irreflexive s a b h in
      (
        wrap r,
        rw (clamped s a b, c.bounds_agree, c.result) refl,
        rw (below r a, c.comparable_below) c.not_below,
        rw (above r b, c.comparable_above) c.not_above,
        type r s,
      )

  -- A value that is clamped between bounds of its type, in order and for itself or for each of its
  -- elements, is then neither below nor above them, and keeps its type; NaN passes the test too. Truth
  -- values, strings, rectangles and points are left aside.
  pub clamp-InBounds :
      {v lo hi : ControlValue G} → IsIrreflexive G o → Fitting v lo hi → InBounds v lo hi
  unfolding clamp clamp_value lt_value gt_value lt_control gt_control
  clamp-InBounds i (fit_bytes s a b h) =
      wrapped bytes ltb (λ s a b. refl) (λ r a. refl) (λ r a. refl) (λ r s. refl) ltb_self s a b h
  clamp-InBounds i (fit_unsigned16s s a b h) =
      wrapped unsigned16s ltb (λ s a b. refl) (λ r a. refl) (λ r a. refl) (λ r s. refl) ltb_self s a
        b h
  clamp-InBounds i (fit_unsigned32s s a b h) =
      wrapped unsigned32s ltb (λ s a b. refl) (λ r a. refl) (λ r a. refl) (λ r s. refl) ltb_self s a
        b h
  clamp-InBounds i (fit_integer32s s a b h) =
      wrapped integer32s ltb_ℤ (λ s a b. refl) (λ r a. refl) (λ r a. refl) (λ r s. refl) ltb_ℤ_self
        s a b h
  clamp-InBounds i (fit_integer64s s a b h) =
      wrapped integer64s ltb_ℤ (λ s a b. refl) (λ r a. refl) (λ r a. refl) (λ r s. refl) ltb_ℤ_self
        s a b h
  clamp-InBounds i (fit_floats s a b h) =
      wrapped floats f.lt (λ s a b. refl) (λ r a. refl) (λ r a. refl) (λ r s. refl) i.float_lt s a b
        h
  clamp-InBounds i (fit_sizes s a b h) =
      wrapped sizes lt_size (λ s a b. refl) (λ r a. refl) (λ r a. refl) (λ r s. refl) i.size_lt s a
        b h
