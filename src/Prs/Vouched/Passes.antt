-- ===== src/Prs/Vouched/Passes.antt =====
-- Whom the turns of channel/github/prs.rs answer: the passes.
use kitaebot.Common.{◌≡◌, All, Text, list_key, nat_key}
use kitaebot.Trust.{Trust}
use kitaebot.Prs.Reviews.{ReviewDispatch}
use kitaebot.Prs.State.{PollState, reviewer, sent, Poll, session_for}
use kitaebot.Prs.Poll.{Outside}
use kitaebot.Prs.Passes.{watch}
use kitaebot.Prs.Vouched.{recorded, watched, Vouched}

module _ (o : Outside) (bot : Text) (trust : Trust) (start : PollState) where
  -- The cursor is that of the start, the state is as recorded, and every turn is vouched for.
  record Kept (p : Poll) : Type 0 where
    pub same : watch o bot trust p ≡ watched o bot trust start
    pub ledger : recorded start.reviewed p.events ≡ p.state.reviewed
    pub vouched : All (Vouched o bot trust start) p.events

  -- A review turn that is vouched for.
  Reviewable : ReviewDispatch → Type 0
  Reviewable d =
      Vouched o bot trust start
        (sent reviewer d.pr_number d.repo (session_for reviewer d.repo d.pr_number) d.message)
