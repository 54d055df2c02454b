-- ===== src/Duty/Dispatch.antt =====
-- duty/mod.rs: `new_commits_decision`, `probe_new_commits`, `checkout_note` and `dispatch`.
pub mod Gates
use kitaebot.Common.{
  ℕ, ◌-◌, ◌≡◌, refl, Bool, true, false, ◌&&◌, ◌||◌, not, List, [], ◌∷◌, ◌++◌, map, Option, none,
  some, Text, codes, ◌=?◌, list_key, nat_key, if◌then◌else◌, leb, ltb, length, find, keep_if, min,
  max, Result, ok, err, decimal,
}
use kitaebot.Duty.State.{DutyState, last_run, record_run, cursor, set_cursor}
use kitaebot.Duty.World.{
  Gate, new_commits, Action, dispatches, self_analysis, warm, Duty, Probe, open_with, Effect, sent,
  journaled, saved, Git, Github, World,
}

pub data NewCommits : Type 0 where
  prime closed : NewCommits
  open_from : Text → NewCommits

unfoldable pub new_commits_decision : Option Text → Text → NewCommits
new_commits_decision none head = NewCommits.prime
new_commits_decision (some c) head = if c =? head then NewCommits.closed else open_from c

abbrev pub clone_yourself : Text
clone_yourself = codes "Clone or update the repo yourself before branching."

-- The input with the range of commits behind it.
unfoldable pub with_range : Text → Text → Text → Text
with_range input from head =
    input ++ codes "\n\n[new commits: " ++ from ++ codes ".." ++ head ++ codes "]"

unfoldable pub with_note : Text → Text → Text
with_note input note = input ++ codes "\n\n" ++ note

-- The dispatch input with the cursor to advance, or nothing to run; and the state.
probe_decided :
    Duty → Text → Text → DutyState → NewCommits → Option (Text × Option Text) × DutyState
probe_decided d input head s NewCommits.prime = (none, set_cursor s d.name head)
probe_decided d input head s NewCommits.closed = (none, s)
probe_decided d input head s (open_from c) = (some (with_range input c head, some head), s)

probe_head : Duty → Text → Option Text → DutyState → Option (Text × Option Text) × DutyState
unfolding probe_decided new_commits_decision
probe_head d input none s = (none, s)
probe_head d input (some head) s =
    probe_decided d input head s (new_commits_decision (cursor s d.name) head)

unfoldable pub probe_new_commits :
    Duty → Text → Text → Option Git → DutyState → Option (Text × Option Text) × DutyState
unfolding probe_head
probe_new_commits d input repo none s = (none, s)
probe_new_commits d input repo (some g) s = probe_head d input (g.remote_head repo) s

gated : Duty → Text → Option Gate → Option Git → DutyState → Option (Text × Option Text) × DutyState
unfolding probe_new_commits
gated d input none git s = (some (input, none), s)
gated d input (some (new_commits repo)) git s = probe_new_commits d input repo git s

checkout_note : Option Git → Text → Text
checkout_note none repo = clone_yourself
checkout_note (some g) repo = elim (g.prepare repo) [ none ↦ clone_yourself | some note ↦ note ]

prepared : Option Git → Text → Option Text → Text
unfolding checkout_note
prepared git input none = input
prepared git input (some repo) = with_note input (checkout_note git repo)

advanced : Text → Option Text → DutyState → DutyState
advanced name none s = s
advanced name (some head) s = set_cursor s name head

-- The cursor moves only when the actor answered.
send :
    World → Duty → Option Text → Option (Text × Option Text) × DutyState → DutyState × List Effect
unfolding advanced prepared
send w d hint (none, s) = (s, [])
send w d hint (some (input, new_cursor), s) =
    let text = prepared w.git input hint in
    (if w.replies d.name text then advanced d.name new_cursor s else s, sent d.name text hint ∷ [])

unfoldable pub dispatch : World → Duty → Text → Option Text → DutyState → DutyState × List Effect
unfolding gated send
dispatch w d input hint s = send w d hint (gated d input d.gate w.git s)
