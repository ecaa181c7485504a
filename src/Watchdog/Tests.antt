-- ===== src/Watchdog/Tests.antt =====
-- The theorems on the watchdog, on concrete histories.
use Prim.Native.String.{String}
use mathlib.Core.List.{Memᴰ}
use physicar_ros.Base.{inr, refl, Bool, true, ℕ, none, some, List, [], ◌∷◌}
use physicar_ros.Base.Int.{pos}
use physicar_ros.Double.Micro.{Micro, micro_double, dec}
use physicar_ros.Watchdog.{
  WatchEntry, TopicWatchdog, entry, Event, timer, clock, start, run, check, is_recent,
}
use physicar_ros.Watchdog.Spacing.{Spaced, CooldownGap, JumpGap, kills_cooldown, kills-Spaced}
use physicar_ros.Watchdog.Process.{Process}
use physicar_ros.Watchdog.Restart.{IsDue, Served, check_kills}

abbrev always : String → Bool
always p = true

-- The scanner is silent from the start; checks after 30 and 40 seconds.
abbrev silent : List (ℕ × Event)
silent = (30_000_000_000, timer always) ∷ (40_000_000_000, timer always) ∷ []

kills_cooldown_example :
    Spaced
      (CooldownGap {F = Micro} (dec 30 0))
      (run silent (start "real" (dec 20 0) (dec 30 0) 0)).kills
kills_cooldown_example = kills_cooldown "real" (dec 20 0) (dec 30 0) 0 silent tt

-- The clock of the simulation goes back.
abbrev reset : List (ℕ × Event)
reset =
    (30_000_000_000, clock always (pos 50) 0) ∷ (31_000_000_000, clock always (pos 0) 0) ∷ silent

kills-Spaced_example :
    Spaced (JumpGap {F = Micro} (dec 30 0)) (run reset (start "sim" (dec 20 0) (dec 30 0) 0)).kills
kills-Spaced_example = kills-Spaced "sim" (dec 20 0) (dec 30 0) 0 reset

abbrev scan : WatchEntry Micro
scan = entry "/scan" 3 "rplidar_node"

abbrev watched : TopicWatchdog Micro
watched = record {
  startup_grace = dec 20 0;
  cooldown = dec 30 0;
  start_time = 0;
  last_sim_sec = dec 0 0;
  topics = scan ∷ [];
  last_msg_time = λ _. 0;
  last_kill_time = λ _. none;
  kills = [];
}

scan-IsDue : IsDue 30_000_000_000 scan watched
unfolding is_recent
scan-IsDue = record { stale = refl; cooled = refl }

check_kills_example : Served 30_000_000_000 scan (check always 30_000_000_000 watched)
check_kills_example =
    check_kills always 30_000_000_000 scan watched refl (Memᴰ.head refl) (inr refl, tt) scan-IsDue
      refl

-- The watchdog itself, whose command line names the pattern, and the process that is meant.
abbrev candidates : List Process
candidates =
    (record { pid = 7; exe = none; cmdline = some "topic_watchdog rplidar_node" })
    ∷ (record { pid = 9; exe = some "/opt/rplidar_node"; cmdline = none })
    ∷ []
