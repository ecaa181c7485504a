-- ===== src/Watchdog/Spacing/Log.antt =====
-- The log of the kills of `Watchdog`, and the gaps between them.
use Prim.Native.String.{String}
use text.Mathlib.Text.{◌==◌ as str_eq}
use text.Mathlib.TextEquality.{eq_iff}
use physicar_ros.Base.{
  ℕ, ◌≡◌, ◌⊎◌, ◌∙◌, Bool, true, false, Option, none, some, List, [], ◌∷◌, if◌then◌else◌, arith,
}
use physicar_ros.Double.{Double}
use physicar_ros.Watchdog.{
  TopicWatchdog, elapsed, is_recent, record_kill, Event, message, timer, clock,
}

-- The time of the latest kill of a pattern in the log.
abbrev pub latest : String → List (String × ℕ) → Option ℕ
latest p [] = none
latest p ((q, t) ∷ ks) = if str_eq p q then some t else latest p ks

-- Two kills in a row of one pattern are apart by a gap that the relation allows.
abbrev pub GapAfter {κ} : (ℕ → ℕ → Type κ) → ℕ → Option ℕ → Type κ
GapAfter Gap t none = Unit
GapAfter Gap t (some u) = Gap t u

abbrev pub Spaced {κ} : (ℕ → ℕ → Type κ) → List (String × ℕ) → Type κ
Spaced Gap [] = Unit
Spaced Gap ((p, t) ∷ ks) = GapAfter Gap t (latest p ks) × Spaced Gap ks

-- Without /clock messages, as on the robot.
abbrev pub NoClock : List (ℕ × Event) → Type 0
NoClock [] = Unit
NoClock ((now, message topic) ∷ es) = NoClock es
NoClock ((now, timer killable) ∷ es) = NoClock es
NoClock ((now, clock killable sec nanosec) ∷ es) = ⊥

module _ {ℓ} {F : Type ℓ} ⦃d : Double F⦄ where
  open d use {literal, lt}

  -- The table of the last kills agrees with the log, which is spaced.
  pub record IsLogged {κ} (Gap : ℕ → ℕ → Type κ) (c : F) (w : TopicWatchdog F) : Type (ℓ ⊔ κ) where
    pub limit : w.cooldown ≡ c
    pub table : (p : String) → w.last_kill_time p ≡ latest p w.kills
    pub spaced : Spaced Gap w.kills

  -- The gaps that the check of stale topics leaves, and those that a jump of the clock leaves too.
  abbrev pub CooldownGap : F → ℕ → ℕ → Type 0
  CooldownGap cooldown t u = lt (elapsed t u) cooldown ≡ false

  abbrev pub JumpGap : F → ℕ → ℕ → Type 0
  JumpGap cooldown t u = CooldownGap cooldown t u ⊎ (lt (elapsed t u) (literal 1 0) ≡ false)

  module _ {κ} (Gap : ℕ → ℕ → Type κ) (c : F) where
    abbrev pub Logged : TopicWatchdog F → Type (ℓ ⊔ κ)
    Logged w = IsLogged Gap c w

    pub Logged-if :
        (b : Bool) (v w : TopicWatchdog F) → Logged v → Logged w → Logged (if b then v else w)
    Logged-if true v w hv hw = hv
    Logged-if false v w hv hw = hw

    pub Logged₁-if :
        (b : Bool) (x y : List String × TopicWatchdog F)
        → Logged x.1
        → Logged y.1
        → Logged (if b then x else y).1
    Logged₁-if true x y hx hy = hx
    Logged₁-if false x y hx hy = hy

    -- What changes neither the table nor the log.
    pub unkilled :
        (v w : TopicWatchdog F)
        → w.cooldown ≡ v.cooldown
        → w.last_kill_time ≡ v.last_kill_time
        → w.kills ≡ v.kills
        → Logged v
        → Logged w
    unkilled v w p q r l = record {
      limit = p ∙ l.limit;
      table = λ s. rw (q, r) (l.table s);
      spaced = rw r l.spaced;
    }

    record_kill-Logged :
        (now : ℕ) (p : String) (w : TopicWatchdog F)
        → GapAfter Gap now (w.last_kill_time p)
        → Logged w
        → Logged (record_kill now p w)
    record_kill-Logged now p w g l = record {
      limit = l.limit;
      table = λ q. ground (arith, eq_iff p q, eq_iff q p, l.table q);
      spaced = (rw (← l.table p) g, l.spaced);
    }

    gap_of_recent :
        (now : ℕ) (bound : F) (o : Option ℕ)
        → ((u : ℕ) → lt (elapsed now u) bound ≡ false → Gap now u)
        → is_recent now bound o ≡ false
        → GapAfter Gap now o
    unfolding is_recent
    gap_of_recent now bound none k h = tt
    gap_of_recent now bound (some u) k h = k u h

    -- A kill that waits for a bound on the last one of its pattern.
    pub guarded_kill :
        (now : ℕ) (bound : F) (p : String) (w : TopicWatchdog F)
        → ((u : ℕ) → lt (elapsed now u) bound ≡ false → Gap now u)
        → is_recent now bound (w.last_kill_time p) ≡ false
        → Logged w
        → Logged (record_kill now p w)
    guarded_kill now bound p w k old l =
        record_kill-Logged now p w (gap_of_recent now bound (w.last_kill_time p) k old) l
