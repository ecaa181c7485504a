-- ===== src/JoyTeleop/Tick/Engagement.antt =====
-- JoyTeleopNode: when the joystick owns the drive without an engage button, and when it lets go.
use physicar_ros.Base.{
  ℕ, ◌+◌, ◌≤◌, ◌≡◌, refl, Bool, true, false, ◌&&◌, ◌||◌, List, [], ◌∷◌, ◌∙◌, arith, leb,
}
use physicar_ros.Base.Int.{ℤ, pos, negsuc}
use physicar_ros.JoyTeleop.Tick.{engaged_by_input}

-- The inputs that the ticks see, oldest first: whether the controls are operated, and the time.
abbrev pub Samples : Type 0
Samples = List (Bool × ℕ)

-- The times do not go back, and none is past `now`.
abbrev pub InOrder : ℕ → Samples → ℕ → Type 0
InOrder t [] now = t ≤ now
InOrder t ((b, u) ∷ rest) now = (t ≤ u) × InOrder u rest now

-- The last operated input, as the ticks keep it.
unfoldable pub last_input : Samples → ℤ → ℤ
last_input [] input = input
last_input ((b, t) ∷ rest) input = last_input rest (engaged_by_input b (pos t) input).1

-- Some operated sample is at most the hold time old.
abbrev pub is_held : ℕ → Samples → Bool
is_held now [] = false
is_held now ((b, t) ∷ rest) = b && leb now (t + 300_000_000) || is_held now rest

abbrev recent : ℕ → ℤ → Bool
recent now (pos t) = leb now (t + 300_000_000)
recent now (negsuc n) = false

engaged_recent :
    (now : ℕ) (input : ℤ) → (engaged_by_input false (pos now) input).0 ≡ recent now input
unfolding engaged_by_input
engaged_recent now (pos t) = ground arith
engaged_recent now (negsuc n) = refl

abbrev Before : ℤ → ℕ → Type 0
Before (pos u) t = u ≤ t
Before (negsuc n) t = Unit

-- An older input counts no longer than a newer one.
recent_later :
    (input : ℤ) (t now : ℕ)
    → Before input t
    → t ≤ now
    → (recent now input || leb now (t + 300_000_000)) ≡ leb now (t + 300_000_000)
recent_later (pos u) t now h l = ground arith
recent_later (negsuc n) t now h l = refl

InOrder-le : (rest : Samples) (t now : ℕ) → InOrder t rest now → t ≤ now
InOrder-le [] t now o = o
InOrder-le ((b, u) ∷ rest) t now (l, o) = omega (arith, InOrder-le rest u now o)

Before-later : (input : ℤ) (t u : ℕ) → Before input t → t ≤ u → Before input u
Before-later (pos w) t u h l = omega arith
Before-later (negsuc n) t u h l = tt

same_time : (u : ℕ) → u ≤ u
same_time u = omega arith

recent-last_input :
    (rest : Samples) (input : ℤ) (t now : ℕ)
    → Before input t
    → InOrder t rest now
    → recent now (last_input rest input) ≡ (recent now input || is_held now rest)
unfolding last_input engaged_by_input
recent-last_input [] input t now h o = ground arith
recent-last_input ((true, u) ∷ rest) input t now h (l, o) = ground (
  arith,
  recent-last_input rest (pos u) u now (same_time u) o,
  recent_later input u now (Before-later input t u h l) (InOrder-le rest u now o),
)
recent-last_input ((false, u) ∷ rest) input t now h (l, o) =
    recent-last_input rest input u now (Before-later input t u h l) o

engaged_operated : (now : ℕ) (input : ℤ) → (engaged_by_input true (pos now) input).0 ≡ true
unfolding engaged_by_input
engaged_operated now input = ground arith

-- Without an engage button, and at times that do not go back, the joystick is engaged exactly
-- while an operated input, now or before, is at most 0.3 s old.
pub engaged_by_input_hold :
    (b : Bool) (samples : Samples) (now : ℕ)
    → InOrder 0 samples now
    → (engaged_by_input b (pos now) (last_input samples (negsuc 0))).0 ≡ (b || is_held now samples)
engaged_by_input_hold true samples now o = engaged_operated now _
engaged_by_input_hold false samples now o =
    engaged_recent now _ ∙ recent-last_input samples (negsuc 0) 0 now tt o
