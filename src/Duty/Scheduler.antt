-- ===== src/Duty/Scheduler.antt =====
-- duty/mod.rs: the scheduler: `run_one`, `resolve`, `due`, `next_wake` and a round of `run_loop`.
pub mod Wake
pub mod Rounds
use kitaebot.Common.{
  ℕ, ◌-◌, ◌≡◌, refl, Bool, true, false, ◌&&◌, ◌||◌, not, List, [], ◌∷◌, ◌++◌, map, Option, none,
  some, Text, codes, ◌=?◌, list_key, nat_key, if◌then◌else◌, leb, ltb, length, find, keep_if, min,
  max, Result, ok, err, decimal,
}
use kitaebot.Duty.Schedule.{Schedule, next_due}
use kitaebot.Duty.State.{DutyState, last_run, record_run, cursor, set_cursor}
use kitaebot.Duty.World.{
  Gate, new_commits, Action, dispatches, self_analysis, warm, Duty, Probe, open_with, Effect, sent,
  journaled, saved, Git, Github, World,
}
use kitaebot.Duty.Dispatch.{dispatch}
use kitaebot.Duty.Analysis.{run_self_analysis}
use kitaebot.Duty.Warm.{run_warm}

unfoldable pub act : World → Duty → Action → DutyState → DutyState × List Effect
act w d (dispatches input hint) s = dispatch w d input hint s
act w d (self_analysis repo min_delta) s = run_self_analysis w d w.github repo min_delta s
act w d warm s = let (s', outcome) = run_warm w.git s in (s', journaled d.name outcome ∷ [])

-- The run of one duty: its action, then the time of the run is recorded and the state is saved.
unfoldable pub run_one : World → Duty → DutyState → DutyState × List Effect
run_one w d s =
    let (s', effects) = act w d d.action s in
    let done = record_run s' d.name w.clock in (done, effects ++ saved done ∷ [])

-- `none` is an unknown name; the message is not modelled.
unfoldable pub resolve : List Duty → Option Text → Option (List Duty)
resolve duties none = some duties
resolve duties (some n) = elim (find (λ d. d.name =? n) duties) [
  | none ↦ none
  | some d ↦ some (d ∷ [])
]

unfoldable pub is_due : DutyState → ℕ → Duty → Bool
is_due s now d = leb (next_due d.schedule (last_run s d.name) now) now

-- In declaration order.
unfoldable pub due : List Duty → DutyState → ℕ → List Duty
due duties s now = keep_if (is_due s now) duties

abbrev pub max_sleep_secs : ℕ
max_sleep_secs = 600

-- `Iterator::min`.
least : List ℕ → Option ℕ
least [] = none
least (x ∷ xs) = elim (least xs) [ none ↦ some x | some m ↦ some (min x m) ]

-- `saturating_sub` is the truncated `-`.
wait : DutyState → ℕ → Duty → ℕ
wait s now d = next_due d.schedule (last_run s d.name) now - now

-- `clamp(1, MAX_SLEEP_SECS)` of a wait.
clamped : Option ℕ → ℕ
clamped none = max_sleep_secs
clamped (some m) = min max_sleep_secs (max 1 m)

unfoldable pub next_wake : List Duty → DutyState → ℕ → ℕ
unfolding least wait clamped
next_wake duties s now = clamped (least (map (wait s now) duties))

-- Each run has a world of its own: the list of them is the environment's choice.
unfoldable pub run_all : List (World × Duty) → DutyState → DutyState × List Effect
run_all [] s = (s, [])
run_all ((w, d) ∷ rest) s =
    let (s', effects) = run_one w d s in let (s'', more) = run_all rest s' in (s'', effects ++ more)

-- The first half of a round of the loop: every duty that is due at `now` is run.
unfoldable pub run_due : (Duty → World) → List Duty → ℕ → DutyState → DutyState × List Effect
unfolding run_all due
run_due worlds duties now s = run_all (map (λ d. (worlds d, d)) (due duties s now)) s

-- An operator's trigger: the named duties are run, whatever their schedules say.
unfoldable pub run_trigger :
    (Duty → World) → List Duty → Option Text → DutyState → DutyState × List Effect
unfolding run_all resolve
run_trigger worlds duties name s = elim (resolve duties name) [
  | none ↦ (s, [])
  | some named ↦ run_all (map (λ d. (worlds d, d)) named) s
]
