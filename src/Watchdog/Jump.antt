-- ===== src/Watchdog/Jump.antt =====
-- What a jump of /clock back in time leads to.
use Prim.Native.String.{String}
use mathlib.Core.List.{Memᴰ}
use text.Mathlib.TextEquality.{eq_iff}
use physicar_ros.Base.{
  ℕ, ◌≡◌, ◌⊎◌, inr, refl, ap, sym, ◌∙◌, Bool, true, false, Option, some, List, [], ◌∷◌, arith,
}
use physicar_ros.Double.{Double}
use physicar_ros.Watchdog.{
  WatchEntry, TopicWatchdog, update, is_recent, contains, jump_entry, jump_entries, refresh_all,
  restart_all,
}

-- The process is killed at the time of the jump, or there was a recent kill, or there is none.
abbrev pub IsServed : (String → Bool) → ℕ → String → Bool → Option ℕ → Type 0
IsServed killable now p recent new = (new ≡ some now) ⊎ ((recent ≡ true) ⊎ (killable p ≡ false))

module _ {ℓ} {F : Type ℓ} ⦃d : Double F⦄ where
  open d use {literal}

  -- The table of kills has the time of the jump, or its old entry and no kill in this call.
  abbrev Tracked : ℕ → String → Option ℕ → List String × TopicWatchdog F → Type 0
  Tracked now p old (killed, w) =
      (w.last_kill_time p ≡ some now) ⊎ ((contains p killed ≡ false) × (w.last_kill_time p ≡ old))

  jump_entry-Tracked :
      (killable : String → Bool) (now : ℕ) (p : String) (old : Option ℕ) (e : WatchEntry F)
      (k : List String × TopicWatchdog F)
      → Tracked now p old k
      → Tracked now p old (jump_entry killable now e k)
  unfolding jump_entry
  jump_entry-Tracked killable now p old e (killed, w) h =
      ground (arith, eq_iff p e.kill_pattern, eq_iff e.kill_pattern p)

  jump_entry-IsServed :
      (killable : String → Bool) (now : ℕ) (old : Option ℕ) (e : WatchEntry F)
      (k : List String × TopicWatchdog F)
      → Tracked now e.kill_pattern old k
      → IsServed killable now e.kill_pattern
          (is_recent now (literal 1 0) old)
          ((jump_entry killable now e k).1.last_kill_time e.kill_pattern)
  unfolding jump_entry
  jump_entry-IsServed killable now old e (killed, w) h =
      ground (arith, eq_iff e.kill_pattern e.kill_pattern)

  IsServed-jump_entry :
      (killable : String → Bool) (now : ℕ) (p : String) (recent : Bool) (e : WatchEntry F)
      (k : List String × TopicWatchdog F)
      → IsServed killable now p recent (k.1.last_kill_time p)
      → IsServed killable now p recent ((jump_entry killable now e k).1.last_kill_time p)
  unfolding jump_entry
  IsServed-jump_entry killable now p recent e (killed, w) h =
      ground (arith, eq_iff p e.kill_pattern)

  IsServed-jump_entries :
      (killable : String → Bool) (now : ℕ) (p : String) (recent : Bool) (es : List (WatchEntry F))
      (k : List String × TopicWatchdog F)
      → IsServed killable now p recent (k.1.last_kill_time p)
      → IsServed killable now p recent ((jump_entries killable now es k).1.last_kill_time p)
  unfolding jump_entries
  IsServed-jump_entries killable now p recent [] k h = h
  IsServed-jump_entries killable now p recent (e ∷ es) k h =
      IsServed-jump_entries killable now p recent es (jump_entry killable now e k)
        (IsServed-jump_entry killable now p recent e k h)

  jump_entries-IsServed :
      (killable : String → Bool) (now : ℕ) (old : Option ℕ) (e : WatchEntry F)
      (es : List (WatchEntry F)) (k : List String × TopicWatchdog F)
      → Memᴰ e es
      → Tracked now e.kill_pattern old k
      → IsServed killable now e.kill_pattern
          (is_recent now (literal 1 0) old)
          ((jump_entries killable now es k).1.last_kill_time e.kill_pattern)
  unfolding jump_entries
  jump_entries-IsServed killable now old e [] k m h = elim m [ ]
  jump_entries-IsServed killable now old e (u ∷ us) k (Memᴰ.tail m) h =
      jump_entries-IsServed killable now old e us (jump_entry killable now u k) m
        (jump_entry-Tracked killable now e.kill_pattern old u k h)
  jump_entries-IsServed killable now old e (u ∷ us) k (Memᴰ.head same) h =
      IsServed-jump_entries killable now e.kill_pattern (is_recent now (literal 1 0) old) us
        (jump_entry killable now u k)
        (rw (ap (λ x. jump_entry killable now x k) (sym same))
          (jump_entry-IsServed killable now old e k h))

  refresh_all_keeps :
      (now : ℕ) (t : String) (us : List (WatchEntry F)) (m : String → ℕ)
      → m t ≡ now
      → refresh_all now us m t ≡ now
  unfolding refresh_all
  refresh_all_keeps now t [] m h = h
  refresh_all_keeps now t (u ∷ us) m h =
      refresh_all_keeps now t us (update m u.topic now) (ground arith)

  refresh_all_seen :
      (now : ℕ) (e : WatchEntry F) (us : List (WatchEntry F)) (m : String → ℕ)
      → Memᴰ e us
      → refresh_all now us m e.topic ≡ now
  unfolding refresh_all
  refresh_all_seen now e [] m h = elim h [ ]
  refresh_all_seen now e (u ∷ us) m (Memᴰ.tail h) =
      refresh_all_seen now e us (update m u.topic now) h
  refresh_all_seen now e (u ∷ us) m (Memᴰ.head same) =
      refresh_all_keeps now e.topic us (update m u.topic now)
        (rw (ap (λ (x : WatchEntry F). x.topic) same) (ground (arith, eq_iff u.topic u.topic)))

  jump_entry_topics :
      (killable : String → Bool) (now : ℕ) (e : WatchEntry F) (k : List String × TopicWatchdog F)
      → (jump_entry killable now e k).1.topics ≡ k.1.topics
  unfolding jump_entry
  jump_entry_topics killable now e (killed, w) = ground arith

  jump_entries_topics :
      (killable : String → Bool) (now : ℕ) (es : List (WatchEntry F))
      (k : List String × TopicWatchdog F)
      → (jump_entries killable now es k).1.topics ≡ k.1.topics
  unfolding jump_entries
  jump_entries_topics killable now [] k = refl
  jump_entries_topics killable now (e ∷ es) k =
      jump_entries_topics killable now es (jump_entry killable now e k)
      ∙ jump_entry_topics killable now e k

  -- When the clock has jumped back, every watched topic counts as seen at that time, and the process
  -- behind it is killed, unless it was killed within the last second or there is none.
  pub restart_all-IsServed :
      (killable : String → Bool) (now : ℕ) (e : WatchEntry F) (w : TopicWatchdog F)
      → Memᴰ e w.topics
      → let v = restart_all killable now w in
        (v.last_msg_time e.topic ≡ now)
        × IsServed killable now e.kill_pattern
            (is_recent now (literal 1 0) (w.last_kill_time e.kill_pattern))
            (v.last_kill_time e.kill_pattern)
  unfolding restart_all
  restart_all-IsServed killable now e w m = (
    rw (jump_entries_topics killable now w.topics ([], w)) (refresh_all_seen now e w.topics _ m),
    jump_entries-IsServed killable now (w.last_kill_time e.kill_pattern) e w.topics ([], w) m
        (inr (refl, refl)),
  )
