-- ===== src/Duty/Warm.antt =====
-- duty/mod.rs: `run_warm`, one repository after the other.
pub mod Cursors
use kitaebot.Common.{
  ℕ, ◌-◌, ◌≡◌, refl, Bool, true, false, ◌&&◌, ◌||◌, not, List, [], ◌∷◌, ◌++◌, map, Option, none,
  some, Text, codes, ◌=?◌, list_key, nat_key, if◌then◌else◌, leb, ltb, length, find, keep_if, min,
  max, Result, ok, err, decimal,
}
use kitaebot.Duty.State.{DutyState, last_run, record_run, cursor, set_cursor}
use kitaebot.Duty.World.{
  Gate, new_commits, Action, dispatches, self_analysis, warm, Duty, Probe, open_with, Effect, sent,
  journaled, saved, Git, Github, World,
}

pub warm_cursor_key : Text → Text
warm_cursor_key nwo = codes "warm/" ++ nwo

abbrev pub warm_status : Text
warm_status = codes "warm"

-- Due when there is no cursor, no checkout, or the head moved.
warm_due : Option Text → Bool → Text → Bool
warm_due none exists head = true
warm_due (some c) exists head = not exists || not (c =? head)

status_line : Text → Text → Text
status_line nwo status = nwo ++ codes ": " ++ status

warm_status_of : Git → Text → Text → DutyState → DutyState × Text
unfolding status_line
warm_status_of g nwo head s =
    let status = g.prepare_and_warm nwo in
    (
      if status =? warm_status then set_cursor s (warm_cursor_key nwo) head else s,
      status_line nwo status,
    )

-- One repository of the loop: the state and its line of the summary.
unfoldable pub warm_one : Git → Text → DutyState → DutyState × Text
unfolding warm_due warm_status_of
warm_one g nwo s = elim (g.remote_head nwo) [
  | none ↦ (s, status_line nwo (codes "skipped (ls-remote failed)"))
  | some head ↦
      if warm_due (cursor s (warm_cursor_key nwo)) (g.checkout_exists nwo) head
      then warm_status_of g nwo head s
      else (s, status_line nwo (codes "skipped (no new commits)"))
]

unfoldable pub warm_all : Git → List Text → DutyState → DutyState × List Text
warm_all g [] s = (s, [])
warm_all g (nwo ∷ repos) s =
    let (s', line) = warm_one g nwo s in
    let (s'', lines) = warm_all g repos s' in (s'', line ∷ lines)

join : Text → List Text → Text
join sep [] = []
join sep (x ∷ []) = x
join sep (x ∷ y ∷ xs) = x ++ sep ++ join sep (y ∷ xs)

unfoldable pub run_warm : Option Git → DutyState → DutyState × Text
unfolding join
run_warm none s = (s, codes "skipped: no GitCli")
run_warm (some g) s = elim g.warm_repos [
  | [] ↦ (s, codes "no warm commands configured")
  | nwo ∷ repos ↦ let (s', lines) = warm_all g (nwo ∷ repos) s in (s', join (codes "; ") lines)
]
