-- ===== src/Watchdog/Process.antt =====
-- TopicWatchdog::exe_matches and kill_process. What `pgrep` and /proc say is an argument.
use Prim.Native.String.{String, find, len}
use physicar_ros.Base.{
  ℕ, ◌≡◌, refl, ◌⊎◌, inl, inr, Bool, true, false, not, ◌&&◌, Option, none, some, List, [], ◌∷◌,
  if◌then◌else◌, All, leb, ◌==◌, if-case, arith,
}

-- A candidate of `pgrep`: its number, the target of the link /proc/PID/exe, and the text of
-- /proc/PID/cmdline, where they can be read.
pub record Process : Type 0 where
  pub pid : ℕ
  pub exe : Option String
  pub cmdline : Option String

-- `find(pattern) != npos`
abbrev pub has_text : String → Option String → Bool
has_text pattern none = false
has_text pattern (some s) = leb (find s pattern) (len s)

unfoldable pub exe_matches : String → Process → Bool
exe_matches pattern p = if has_text pattern p.exe then true else has_text pattern p.cmdline

-- The test of the loop over the lines of `pgrep`.
unfoldable pub is_target : ℕ → String → Process → Bool
is_target my_pid pattern p = not (p.pid == 0) && not (p.pid == my_pid) && exe_matches pattern p

unfoldable pub targets : ℕ → String → List Process → List ℕ
targets my_pid pattern [] = []
targets my_pid pattern (p ∷ ps) =
    let rest = targets my_pid pattern ps in
    if is_target my_pid pattern p then p.pid ∷ rest else rest

abbrev is_empty : List ℕ → Bool
is_empty [] = true
is_empty (p ∷ ps) = false

-- The processes that get SIGTERM, and the result. `none` is a `pgrep` that could not be started.
unfoldable pub kill_process : ℕ → String → Option (List Process) → List ℕ × Bool
kill_process my_pid pattern none = ([], false)
kill_process my_pid pattern (some ps) =
    let pids = targets my_pid pattern ps in (pids, not (is_empty pids))

-- A candidate has that number, and its program or its command line has the pattern.
abbrev pub IsNamed : String → List Process → ℕ → Type 0
IsNamed pattern [] pid = ⊥
IsNamed pattern (p ∷ ps) pid =
    ((p.pid ≡ pid) × (exe_matches pattern p ≡ true)) ⊎ IsNamed pattern ps pid

abbrev pub IsRight : ℕ → String → List Process → ℕ → Type 0
IsRight my_pid pattern ps pid = ((pid == my_pid) ≡ false) × IsNamed pattern ps pid

IsRight-tail :
    (my_pid : ℕ) (pattern : String) (p : Process) (ps : List Process) (pids : List ℕ)
    → All (IsRight my_pid pattern ps) pids
    → All (IsRight my_pid pattern (p ∷ ps)) pids
IsRight-tail my_pid pattern p ps [] h = tt
IsRight-tail my_pid pattern p ps (q ∷ qs) ((n, m), h) =
    ((n, inr m), IsRight-tail my_pid pattern p ps qs h)

targets-IsRight :
    (my_pid : ℕ) (pattern : String) (ps : List Process)
    → All (IsRight my_pid pattern ps) (targets my_pid pattern ps)
unfolding targets is_target
targets-IsRight my_pid pattern [] = tt
targets-IsRight my_pid pattern (p ∷ ps) =
    let rest =
      IsRight-tail my_pid pattern p ps (targets my_pid pattern ps)
        (targets-IsRight my_pid pattern ps) in
    if-case (All (IsRight my_pid pattern (p ∷ ps)))
      (not (p.pid == 0) && not (p.pid == my_pid) && exe_matches pattern p) _ _
      (λ e. ((ground arith, inl (ground arith)), rest)) (λ e. rest)

-- Whatever `pgrep` answers, a kill signals only candidates whose program or command line has the
-- pattern, and never the watchdog itself; it reports success exactly when it signals some process.
pub kill_process-IsRight :
    (my_pid : ℕ) (pattern : String) (ps : List Process)
    → All (IsRight my_pid pattern ps) (kill_process my_pid pattern (some ps)).0
      × ((((kill_process my_pid pattern (some ps)).0 ≡ [])
            × ((kill_process my_pid pattern (some ps)).1 ≡ false))
          ⊎ ((kill_process my_pid pattern (some ps)).1 ≡ true))
unfolding kill_process
kill_process-IsRight my_pid pattern ps =
    (targets-IsRight my_pid pattern ps, reports (targets my_pid pattern ps))
  where
    reports :
        (pids : List ℕ)
        → ((pids ≡ []) × (not (is_empty pids) ≡ false)) ⊎ (not (is_empty pids) ≡ true)
    reports [] = inl (refl, refl)
    reports (p ∷ ps) = inr refl
