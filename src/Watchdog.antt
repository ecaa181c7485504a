-- ===== src/Watchdog.antt =====
-- class TopicWatchdog of physicar_bringup/src/topic_watchdog_node.cpp. Times are ticks of the steady
-- clock in nanoseconds. Whether `kill_process` finds a process to signal depends on the system and
-- is an argument, `killable`; the kills are logged.
pub mod Spacing
pub mod Restart
pub mod Jump
pub mod Process
mod Tests
use Prim.Native.String.{String}
use text.Mathlib.Text.{◌==◌ as str_eq}
use physicar_ros.Base.{
  ℕ, ◌≡◌, Bool, true, false, ◌&&◌, ◌||◌, not, Option, none, some, List, [], ◌∷◌, if◌then◌else◌,
}
use physicar_ros.Base.Int.{ℤ, pos, ◌-ℤ◌}
use physicar_ros.Double.{Double}

pub record WatchEntry {ℓ} (F : Type ℓ) : Type ℓ where
  pub topic : String
  pub timeout : F
  pub kill_pattern : String

-- The members, with the kills done so far: pattern and time, newest first.
pub record TopicWatchdog {ℓ} (F : Type ℓ) : Type ℓ where
  pub startup_grace : F
  pub cooldown : F
  pub start_time : ℕ
  pub last_sim_sec : F
  pub topics : List (WatchEntry F)
  pub last_msg_time : String → ℕ
  pub last_kill_time : String → Option ℕ
  pub kills : List (String × ℕ)

abbrev pub update {ℓ} : {A : Type ℓ} → (String → A) → String → A → String → A
update m k v j = if str_eq j k then v else m j

abbrev pub contains : String → List String → Bool
contains p [] = false
contains p (q ∷ qs) = if str_eq q p then true else contains p qs

module _ {ℓ} {F : Type ℓ} ⦃d : Double F⦄ where
  open d use {literal, of_ℤ, lt, le, add, mul, div}

  abbrev pub entry : String → ℕ → String → WatchEntry F
  entry topic seconds pattern = record {
    topic = topic;
    timeout = literal seconds 0;
    kill_pattern = pattern;
  }

  unfoldable pub real_watch_topics : List (WatchEntry F)
  real_watch_topics =
      entry "/camera/camera_info" 5 "physicar_camera/lib/physicar_camera/camera_node"
      ∷ entry "/scan" 3 "rplidar_node"
      ∷ entry "/scan_filtered" 3 "scan_filter_node"
      ∷ entry "/odom" 3 "ekf_filter_node"
      ∷ entry "/battery_state" 15 "physicar_driver_node"
      ∷ entry "/imu" 5 "physicar_driver_node"
      ∷ []

  unfoldable pub sim_watch_topics : List (WatchEntry F)
  sim_watch_topics =
      entry "/odom/laser" 5 "laser_odom_node" ∷ entry "/odom" 15 "ekf_filter_node" ∷ []

  -- The constructor, with `enabled` set: every topic counts as seen at the start.
  unfoldable pub start : String → F → F → ℕ → TopicWatchdog F
  start mode grace cooldown now = record {
    startup_grace = grace;
    cooldown = cooldown;
    start_time = now;
    last_sim_sec = literal 0 0;
    topics = if str_eq mode "sim" then sim_watch_topics else real_watch_topics;
    last_msg_time = λ _. now;
    last_kill_time = λ _. none;
    kills = [];
  }

  -- `duration<double>(now - then).count()`
  abbrev pub elapsed : ℕ → ℕ → F
  elapsed now then' = div (of_ℤ (pos now -ℤ pos then')) (literal 1_000_000_000 0)

  -- The callback of a subscription.
  unfoldable pub on_message : ℕ → String → TopicWatchdog F → TopicWatchdog F
  on_message now topic w = record w { last_msg_time = update w.last_msg_time topic now }

  -- There was a kill of the pattern, and it is not yet `limit` seconds old.
  unfoldable pub is_recent : ℕ → F → Option ℕ → Bool
  is_recent now limit none = false
  is_recent now limit (some killed) = lt (elapsed now killed) limit

  abbrev pub record_kill : ℕ → String → TopicWatchdog F → TopicWatchdog F
  record_kill now pattern w = record w {
    last_kill_time = update w.last_kill_time pattern (some now);
    kills = (pattern, now) ∷ w.kills;
  }

  -- The topics that the killed process serves count as seen.
  unfoldable pub refresh : ℕ → String → List (WatchEntry F) → (String → ℕ) → String → ℕ
  refresh now pattern [] m = m
  refresh now pattern (t ∷ ts) m =
      refresh now pattern ts (if str_eq t.kill_pattern pattern then update m t.topic now else m)

  -- The body of the loop of `check`.
  unfoldable pub check_entry :
      (String → Bool) → ℕ → WatchEntry F → TopicWatchdog F → TopicWatchdog F
  check_entry killable now e w =
      if lt (elapsed now (w.last_msg_time e.topic)) e.timeout
      then w
      else if is_recent now w.cooldown (w.last_kill_time e.kill_pattern)
      then w
      else if killable e.kill_pattern
      then record (record_kill now e.kill_pattern w) {
        last_msg_time = refresh now e.kill_pattern w.topics w.last_msg_time;
      }
      else w

  unfoldable pub check_entries :
      (String → Bool) → ℕ → List (WatchEntry F) → TopicWatchdog F → TopicWatchdog F
  check_entries killable now [] w = w
  check_entries killable now (e ∷ es) w =
      check_entries killable now es (check_entry killable now e w)

  unfoldable pub check : (String → Bool) → ℕ → TopicWatchdog F → TopicWatchdog F
  check killable now w =
      if lt (elapsed now w.start_time) w.startup_grace
      then w
      else check_entries killable now w.topics w

  -- The body of the first loop of `on_clock`; `killed` are the patterns killed in this call.
  unfoldable pub jump_entry :
      (String → Bool)
      → ℕ
      → WatchEntry F
      → List String × TopicWatchdog F
      → List String × TopicWatchdog F
  jump_entry killable now e (killed, w) =
      if contains e.kill_pattern killed
      then (killed, w)
      else if is_recent now (literal 1 0) (w.last_kill_time e.kill_pattern)
      then (killed, w)
      else if killable e.kill_pattern
      then (e.kill_pattern ∷ killed, record_kill now e.kill_pattern w)
      else (killed, w)

  unfoldable pub jump_entries :
      (String → Bool)
      → ℕ
      → List (WatchEntry F)
      → List String × TopicWatchdog F
      → List String × TopicWatchdog F
  jump_entries killable now [] k = k
  jump_entries killable now (e ∷ es) k = jump_entries killable now es (jump_entry killable now e k)

  unfoldable pub refresh_all : ℕ → List (WatchEntry F) → (String → ℕ) → String → ℕ
  refresh_all now [] m = m
  refresh_all now (t ∷ ts) m = refresh_all now ts (update m t.topic now)

  unfoldable pub restart_all : (String → Bool) → ℕ → TopicWatchdog F → TopicWatchdog F
  restart_all killable now w =
      let w' = (jump_entries killable now w.topics ([], w)).1 in
      record w' { last_msg_time = refresh_all now w'.topics w'.last_msg_time }

  -- A message of /clock: seconds and nanoseconds.
  unfoldable pub on_clock : (String → Bool) → ℕ → ℤ → ℕ → TopicWatchdog F → TopicWatchdog F
  on_clock killable now sec nanosec w =
      let t = add (of_ℤ sec) (mul (of_ℤ (pos nanosec)) (literal 1 9)) in
      let w' = record w { last_sim_sec = t } in
      if lt w.last_sim_sec (literal 1 0) || le w.last_sim_sec t
      then w'
      else restart_all killable now w'

-- What the node reacts to, with the answers that `kill_process` gets.
pub data Event : Type 0 where
  message : String → Event
  timer : (String → Bool) → Event
  clock : (String → Bool) → ℤ → ℕ → Event

module _ {ℓ} {F : Type ℓ} ⦃d : Double F⦄ where
  unfoldable pub step : ℕ → Event → TopicWatchdog F → TopicWatchdog F
  step now (message topic) w = on_message now topic w
  step now (timer killable) w = check killable now w
  step now (clock killable sec nanosec) w = on_clock killable now sec nanosec w

  unfoldable pub run : List (ℕ × Event) → TopicWatchdog F → TopicWatchdog F
  run [] w = w
  run ((now, e) ∷ es) w = run es (step now e w)
