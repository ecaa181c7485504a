-- ===== src/Watchdog/Spacing.antt =====
-- How far apart two kills of one process are.
pub mod Log
use Prim.Native.String.{String}
use physicar_ros.Base.{ℕ, ◌≡◌, inl, inr, refl, Bool, false, ◌||◌, List, [], ◌∷◌, Bool-cases}
use physicar_ros.Base.Int.{ℤ, pos}
use physicar_ros.Double.{Double}
use physicar_ros.Watchdog.{
  WatchEntry, TopicWatchdog, elapsed, start, on_message, is_recent, record_kill, check_entry,
  check_entries, check, jump_entry, jump_entries, restart_all, on_clock, Event, message, timer,
  clock, step, run,
}
pub use physicar_ros.Watchdog.Spacing.Log.{
  latest, GapAfter, Spaced, NoClock, IsLogged, CooldownGap, JumpGap,
}
use physicar_ros.Watchdog.Spacing.Log.{Logged, Logged-if, Logged₁-if, unkilled, guarded_kill}

module _ {ℓ} {F : Type ℓ} ⦃d : Double F⦄ where
  open d use {literal, of_ℤ, lt, le, add, mul}

  module _ {κ} (Gap : ℕ → ℕ → Type κ) (c : F) where
    module _ (cooled : (t u : ℕ) → CooldownGap c t u → Gap t u) where
      check_entry-Logged :
          (killable : String → Bool) (now : ℕ) (e : WatchEntry F) (w : TopicWatchdog F)
          → Logged Gap c w
          → Logged Gap c (check_entry killable now e w)
      unfolding check_entry
      check_entry-Logged killable now e w l =
          elim (Bool-cases (is_recent now w.cooldown (w.last_kill_time e.kill_pattern))) [
            | inl recent ↦ rw recent (Logged-if Gap c _ w w l l)
            | inr old ↦
                let k =
                  guarded_kill Gap c now w.cooldown e.kill_pattern w
                    (λ u h. cooled now u (rw l.limit at h)) old l in
                rw old (
                  Logged-if Gap c _ w _ l (
                    Logged-if Gap c (killable e.kill_pattern) _ w
                      (unkilled Gap c (record_kill now e.kill_pattern w) _ refl refl refl k) l))
          ]

      check_entries-Logged :
          (killable : String → Bool) (now : ℕ) (es : List (WatchEntry F)) (w : TopicWatchdog F)
          → Logged Gap c w
          → Logged Gap c (check_entries killable now es w)
      unfolding check_entries
      check_entries-Logged killable now [] w l = l
      check_entries-Logged killable now (e ∷ es) w l =
          check_entries-Logged killable now es (check_entry killable now e w)
            (check_entry-Logged killable now e w l)

      check-Logged :
          (killable : String → Bool) (now : ℕ) (w : TopicWatchdog F)
          → Logged Gap c w
          → Logged Gap c (check killable now w)
      unfolding check
      check-Logged killable now w l =
          Logged-if Gap c _ w _ l (check_entries-Logged killable now w.topics w l)

    module _ (jumped : (t u : ℕ) → lt (elapsed t u) (literal 1 0) ≡ false → Gap t u) where
      jump_entry-Logged :
          (killable : String → Bool) (now : ℕ) (e : WatchEntry F) (ks : List String)
          (w : TopicWatchdog F)
          → Logged Gap c w
          → Logged Gap c (jump_entry killable now e (ks, w)).1
      unfolding jump_entry
      jump_entry-Logged killable now e ks w l =
          elim (Bool-cases (is_recent now (literal 1 0) (w.last_kill_time e.kill_pattern))) [
            | inl recent ↦ rw recent (Logged₁-if Gap c _ (ks, w) (ks, w) l l)
            | inr old ↦ rw old (
                Logged₁-if Gap c _ (ks, w) _ l
                  (Logged₁-if Gap c (killable e.kill_pattern) (e.kill_pattern ∷ ks, _) (ks, w)
                    (guarded_kill Gap c now (literal 1 0) e.kill_pattern w (jumped now) old l) l))
          ]

      jump_entries-Logged :
          (killable : String → Bool) (now : ℕ) (es : List (WatchEntry F))
          (k : List String × TopicWatchdog F)
          → Logged Gap c k.1
          → Logged Gap c (jump_entries killable now es k).1
      unfolding jump_entries
      jump_entries-Logged killable now [] k l = l
      jump_entries-Logged killable now (e ∷ es) k l =
          jump_entries-Logged killable now es (jump_entry killable now e k)
            (jump_entry-Logged killable now e k.0 k.1 l)

      on_clock-Logged :
          (killable : String → Bool) (now : ℕ) (sec : ℤ) (nanosec : ℕ) (w : TopicWatchdog F)
          → Logged Gap c w
          → Logged Gap c (on_clock killable now sec nanosec w)
      unfolding on_clock restart_all
      on_clock-Logged killable now sec nanosec w l =
          let t = add (of_ℤ sec) (mul (of_ℤ (pos nanosec)) (literal 1 9)) in
          let w' : TopicWatchdog F = record w { last_sim_sec = t } in
          let l' = unkilled Gap c w w' refl refl refl l in
          let killed = (jump_entries killable now w.topics ([], w')).1 in
          Logged-if Gap c (lt w.last_sim_sec (literal 1 0) || le w.last_sim_sec t) w'
            (restart_all killable now w') l'
            (unkilled Gap c killed (restart_all killable now w') refl refl refl
              (jump_entries-Logged killable now w.topics ([], w') l'))

  message-Logged :
      (Gap : ℕ → ℕ → Type 0) (c : F) (now : ℕ) (topic : String) (w : TopicWatchdog F)
      → IsLogged Gap c w
      → IsLogged Gap c (on_message now topic w)
  unfolding on_message
  message-Logged Gap c now topic w l = unkilled Gap c w _ refl refl refl l

  run-CooldownGap :
      (c : F) (es : List (ℕ × Event)) (w : TopicWatchdog F)
      → NoClock es
      → IsLogged (CooldownGap c) c w
      → IsLogged (CooldownGap c) c (run es w)
  unfolding run step
  run-CooldownGap c [] w n l = l
  run-CooldownGap c ((now, message topic) ∷ es) w n l =
      run-CooldownGap c es _ n (message-Logged (CooldownGap c) c now topic w l)
  run-CooldownGap c ((now, timer killable) ∷ es) w n l =
      run-CooldownGap c es _ n (check-Logged (CooldownGap c) c (λ t u g. g) killable now w l)
  run-CooldownGap c ((now, clock killable sec nanosec) ∷ es) w n l = absurd n

  step-JumpGap :
      (c : F) (now : ℕ) (e : Event) (w : TopicWatchdog F)
      → IsLogged (JumpGap c) c w
      → IsLogged (JumpGap c) c (step now e w)
  unfolding step
  step-JumpGap c now (message topic) w l = message-Logged (JumpGap c) c now topic w l
  step-JumpGap c now (timer killable) w l =
      check-Logged (JumpGap c) c (λ t u g. inl g) killable now w l
  step-JumpGap c now (clock killable sec nanosec) w l =
      on_clock-Logged (JumpGap c) c (λ t u g. inr g) killable now sec nanosec w l

  run-JumpGap :
      (c : F) (es : List (ℕ × Event)) (w : TopicWatchdog F)
      → IsLogged (JumpGap c) c w
      → IsLogged (JumpGap c) c (run es w)
  unfolding run
  run-JumpGap c [] w l = l
  run-JumpGap c ((now, e) ∷ es) w l = run-JumpGap c es (step now e w) (step-JumpGap c now e w l)

  start-IsLogged :
      (Gap : ℕ → ℕ → Type 0) (mode : String) (grace cooldown : F) (now : ℕ)
      → IsLogged Gap cooldown (start mode grace cooldown now)
  unfolding start
  start-IsLogged Gap mode grace cooldown now = record {
    limit = refl;
    table = λ p. refl;
    spaced = tt;
  }

  -- Without clock messages, two kills of one process are at least the cooldown apart, in every
  -- history of messages and checks.
  pub kills_cooldown :
      (mode : String) (grace cooldown : F) (now : ℕ) (es : List (ℕ × Event))
      → NoClock es
      → Spaced (CooldownGap cooldown) (run es (start mode grace cooldown now)).kills
  kills_cooldown mode grace cooldown now es n =
      (run-CooldownGap cooldown es _ n
        (start-IsLogged (CooldownGap cooldown) mode grace cooldown now)).spaced

  -- With clock messages too, two kills of one process are at least the cooldown or one second apart,
  -- in every history.
  pub kills-Spaced :
      (mode : String) (grace cooldown : F) (now : ℕ) (es : List (ℕ × Event))
      → Spaced (JumpGap cooldown) (run es (start mode grace cooldown now)).kills
  kills-Spaced mode grace cooldown now es =
      (run-JumpGap cooldown es _ (start-IsLogged (JumpGap cooldown) mode grace cooldown now)).spaced
