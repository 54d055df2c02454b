-- ===== src/Duty/Analysis.antt =====
-- duty/mod.rs: `run_self_analysis` behind its probe, its queries and the proposal cap.
use kitaebot.Common.{
  ℕ, List, [], ◌∷◌, ◌++◌, Option, none, some, Text, codes, list_key, nat_key, if◌then◌else◌, leb,
  decimal,
}
use kitaebot.Duty.State.{DutyState, cursor, set_cursor}
use kitaebot.Duty.World.{Duty, Probe, open_with, Effect, sent, journaled, Github, World}

abbrev pub proposal_cap : ℕ
proposal_cap = 3

unfoldable pub cap_note : ℕ → Text → Text
cap_note count repo =
    codes "skipped: proposal cap reached ("
    ++ decimal count
    ++ codes " bot-authored on "
    ++ repo
    ++ codes ")"

-- The analysis turn; its cursor moves only when the actor answered.
analyse : World → Duty → Text → Text → Text → List Text → DutyState → DutyState × List Effect
analyse w d repo delta next proposals s =
    let prompt = w.format_prompt repo delta proposals in
    (
      if w.replies d.name prompt then set_cursor s d.name next else s,
      sent d.name prompt (some repo) ∷ [],
    )

capped : World → Duty → Text → Text → Text → List Text → ℕ → DutyState → DutyState × List Effect
unfolding analyse
capped w d repo delta next proposals bot_count s =
    if leb proposal_cap bot_count
    then (s, journaled d.name (cap_note bot_count repo) ∷ [])
    else analyse w d repo delta next proposals s

counted :
    World
    → Duty
    → Github
    → Text
    → Text
    → Text
    → Option (List Text)
    → Option ℕ
    → DutyState
    → DutyState × List Effect
unfolding capped
counted w d client repo delta next none bot_count s = (s, [])
counted w d client repo delta next (some proposals) none s = (s, [])
counted w d client repo delta next (some proposals) (some n) s =
    capped w d repo delta next proposals n s

probed : World → Duty → Github → Text → Option Probe → DutyState → DutyState × List Effect
unfolding counted
probed w d client repo none s = (s, [])
probed w d client repo (some (Probe.prime next)) s = (set_cursor s d.name next, [])
probed w d client repo (some Probe.closed) s = (s, [])
probed w d client repo (some (open_with delta next)) s =
    counted w d client repo delta next (client.open_proposals repo) (client.bot_proposal_count repo)
      s

unfoldable pub run_self_analysis :
    World → Duty → Option Github → Text → ℕ → DutyState → DutyState × List Effect
unfolding probed
run_self_analysis w d none repo min_delta s = (s, [])
run_self_analysis w d (some client) repo min_delta s =
    probed w d client repo (w.probe (cursor s d.name) min_delta) s
