-- ===== src/Watchdog/Restart.antt =====
-- That the process behind a stale topic is restarted.
use Prim.Native.String.{String}
use mathlib.Core.List.{Memᴰ}
use text.Mathlib.Text.{◌==◌ as str_eq}
use text.Mathlib.TextEquality.{eq_iff}
use physicar_ros.Base.{
  ℕ, ◌≡◌, ◌≢◌, ◌⊎◌, inl, inr, refl, ◌∙◌, Bool, true, false, some, List, [], ◌∷◌, arith, Bool-cases,
}
use physicar_ros.Double.{Double}
use physicar_ros.Watchdog.{
  WatchEntry, TopicWatchdog, elapsed, is_recent, record_kill, refresh, check_entry, check_entries,
  check,
}

module _ {ℓ} {F : Type ℓ} ⦃d : Double F⦄ where
  open d use {lt}

  -- No topic is watched under two patterns.
  abbrev pub OnePattern : WatchEntry F → List (WatchEntry F) → Type 0
  OnePattern e [] = Unit
  OnePattern e (u ∷ us) =
      ((u.topic ≢ e.topic) ⊎ (u.kill_pattern ≡ e.kill_pattern)) × OnePattern e us

  -- The entry waits for its turn: it is stale and its process was not killed of late.
  pub record IsDue (now : ℕ) (e : WatchEntry F) (w : TopicWatchdog F) : Type 0 where
    pub stale : lt (elapsed now (w.last_msg_time e.topic)) e.timeout ≡ false
    pub cooled : is_recent now w.cooldown (w.last_kill_time e.kill_pattern) ≡ false

  refresh_other :
      (now : ℕ) (e : WatchEntry F) (p : String) (us : List (WatchEntry F)) (m : String → ℕ)
      → OnePattern e us
      → p ≢ e.kill_pattern
      → refresh now p us m e.topic ≡ m e.topic
  unfolding refresh
  refresh_other now e p [] m o n = refl
  refresh_other now e p (u ∷ us) m (o, os) n =
      refresh_other now e p us _ os n
      ∙ ground (arith, eq_iff u.kill_pattern p, eq_iff e.topic u.topic)

  -- The process behind the entry was killed now, and that is noted. In its turn a due entry gets this;
  -- another entry's turn leaves it due, or kills its process at the same time.
  pub record Served (now : ℕ) (e : WatchEntry F) (w : TopicWatchdog F) : Type 0 where
    pub noted : w.last_kill_time e.kill_pattern ≡ some now
    pub killed : Memᴰ (e.kill_pattern, now) w.kills

  -- A turn does nothing, or kills.
  check_entry_cases :
      (killable : String → Bool) (now : ℕ) (u : WatchEntry F) (w : TopicWatchdog F)
      → (check_entry killable now u w ≡ w)
        ⊎ (check_entry killable now u w ≡ record (record_kill now u.kill_pattern w) {
          last_msg_time = refresh now u.kill_pattern w.topics w.last_msg_time;
        })
  unfolding check_entry
  check_entry_cases killable now u w =
      elim (Bool-cases (lt (elapsed now (w.last_msg_time u.topic)) u.timeout)) [
        | inl a ↦ rw a (inl refl)
        | inr a ↦ elim (Bool-cases (is_recent now w.cooldown (w.last_kill_time u.kill_pattern))) [
          | inl b ↦ rw (a, b) (inl refl)
          | inr b ↦ elim (Bool-cases (killable u.kill_pattern)) [
            | inl c ↦ rw (a, b, c) (inr refl)
            | inr c ↦ rw (a, b, c) (inl refl)
          ]
        ]
      ]

  Served-stays :
      (killable : String → Bool) (now : ℕ) (e u : WatchEntry F) (w : TopicWatchdog F)
      → Served now e w
      → Served now e (check_entry killable now u w)
  Served-stays killable now e u w h = elim (check_entry_cases killable now u w) [
    | inl idle ↦ rw idle h
    | inr kills ↦ rw kills (record {
      noted = ground (arith, h.noted, eq_iff e.kill_pattern u.kill_pattern);
      killed = Memᴰ.tail h.killed;
    })
  ]

  own_turn :
      (killable : String → Bool) (now : ℕ) (e : WatchEntry F) (w : TopicWatchdog F)
      → killable e.kill_pattern ≡ true
      → IsDue now e w
      → Served now e (check_entry killable now e w)
  unfolding check_entry
  own_turn killable now e w k h =
      rw (h.stale, h.cooled, k)
        (record {
          noted = ground (arith, eq_iff e.kill_pattern e.kill_pattern);
          killed = Memᴰ.head refl;
        })

  other_turn :
      (killable : String → Bool) (now : ℕ) (e u : WatchEntry F) (w : TopicWatchdog F)
      → OnePattern e w.topics
      → IsDue now e w
      → IsDue now e (check_entry killable now u w) ⊎ Served now e (check_entry killable now u w)
  unfolding check_entry
  other_turn killable now e u w o h = elim (check_entry_cases killable now u w) [
    | inl idle ↦ rw idle (inl h)
    | inr kills ↦ rw kills (elim (Bool-cases (str_eq e.kill_pattern u.kill_pattern)) [
      | inl same ↦ inr (taken same)
      | inr other ↦ inl (record {
        stale =
            rw (refresh_other now e u.kill_pattern w.topics w.last_msg_time o (differs other))
              h.stale;
        cooled = rw other h.cooled;
      })
    ])
  ]
    where
      taken :
          str_eq e.kill_pattern u.kill_pattern ≡ true
          → Served now e (record (record_kill now u.kill_pattern w) {
            last_msg_time = refresh now u.kill_pattern w.topics w.last_msg_time;
          })
      taken same = record {
        noted = rw same refl;
        killed = Memᴰ.head (ground (arith, eq_iff e.kill_pattern u.kill_pattern));
      }

      differs : str_eq e.kill_pattern u.kill_pattern ≡ false → u.kill_pattern ≢ e.kill_pattern
      differs = ground (arith, eq_iff e.kill_pattern u.kill_pattern)

  topics-check_entry :
      (killable : String → Bool) (now : ℕ) (u : WatchEntry F) (w : TopicWatchdog F)
      → (check_entry killable now u w).topics ≡ w.topics
  unfolding check_entry
  topics-check_entry killable now u w = ground arith

  Served-through :
      (killable : String → Bool) (now : ℕ) (e : WatchEntry F) (us : List (WatchEntry F))
      (w : TopicWatchdog F)
      → Served now e w
      → Served now e (check_entries killable now us w)
  unfolding check_entries
  Served-through killable now e [] w h = h
  Served-through killable now e (u ∷ us) w h =
      Served-through killable now e us _ (Served-stays killable now e u w h)

  due-Served :
      (killable : String → Bool) (now : ℕ) (e : WatchEntry F) (us : List (WatchEntry F))
      (w : TopicWatchdog F)
      → Memᴰ e us
      → killable e.kill_pattern ≡ true
      → OnePattern e w.topics
      → IsDue now e w
      → Served now e (check_entries killable now us w)
  unfolding check_entries
  due-Served killable now e [] w m k o h = elim m [ ]
  due-Served killable now e (u ∷ us) w (Memᴰ.head same) k o h =
      Served-through killable now e us _ (rw (← same) (own_turn killable now e w k h))
  due-Served killable now e (u ∷ us) w (Memᴰ.tail m) k o h =
      elim (other_turn killable now e u w o h) [
        | inl due ↦
            due-Served killable now e us (check_entry killable now u w) m k
              (rw (topics-check_entry killable now u w) o) due
        | inr served ↦ Served-through killable now e us (check_entry killable now u w) served
      ]

  -- Once the startup grace is over, a check kills the process behind every watched topic that is
  -- stale and whose process was not killed within the cooldown, if there is such a process and
  -- the topic is not watched for another process too: a kill of it at this time is among the kills
  -- that were done, and its time is noted as that of the last one.
  pub check_kills :
      (killable : String → Bool) (now : ℕ) (e : WatchEntry F) (w : TopicWatchdog F)
      → lt (elapsed now w.start_time) w.startup_grace ≡ false
      → Memᴰ e w.topics
      → OnePattern e w.topics
      → IsDue now e w
      → killable e.kill_pattern ≡ true
      → Served now e (check killable now w)
  unfolding check
  check_kills killable now e w grace m o h k =
      rw grace (due-Served killable now e w.topics w m k o h)
