-- ===== src/Prs/Passes.antt =====
-- channel/github/prs.rs: the four passes of a poll, one poll, and the loop.
use kitaebot.Common.{
  ℕ, ◌+◌, Bool, true, false, ◌&&◌, List, [], ◌∷◌, ◌++◌, length, Text, codes, Option, none, some,
  if◌then◌else◌,
}
use kitaebot.Trust.{Trust}
use kitaebot.Prs.Wire.{
  SearchIssue, nwo, rel_path, checkout_rel_path, tracking_key, parse_tracking_key,
}
use kitaebot.Prs.Briefs.{TrackedSnapshot}
use kitaebot.Prs.Feedback.{Watch, FeedbackSnapshot, filter_map, decide_feedback, decide_contributed}
use kitaebot.Prs.Reviews.{
  Reviewed, ReviewCandidate, ReviewDispatch, contains_key, decide_review_requests, decide_tracked,
}
use kitaebot.Prs.State.{
  PollState, author, contributor, Event, Poll, save_state, roll_back_in_flight, InFlight,
}
use kitaebot.Prs.Poll.{
  Outside, snapshot_of, candidate_of, view_of, tracked_snapshot, is_sha, is_base, is_some,
  review_turn, send_all, corrupt_keys, pruned,
}

-- The feedback on a pull request, unless a fetch fails.
unfoldable pub fetch_feedback : Outside → List Event → Text → SearchIssue → Option FeedbackSnapshot
unfolding snapshot_of
fetch_feedback o t repo pr =
    snapshot_of repo pr (o.pull_reviews t repo pr.number) (o.issue_comments t repo pr.number)
      (o.pull_comments t repo pr.number)

unfoldable pub own_snapshot : Outside → List Event → SearchIssue → Option FeedbackSnapshot
unfolding fetch_feedback nwo
own_snapshot o t pr = elim (nwo pr) [ none ↦ none | some repo ↦ fetch_feedback o t repo pr ]

unfoldable pub contributed_snapshot :
    Outside → List Event → Reviewed → SearchIssue → Option FeedbackSnapshot
unfolding fetch_feedback nwo contains_key
contributed_snapshot o t reviewed pr = elim (nwo pr) [
  | none ↦ none
  | some repo ↦
      if contains_key (tracking_key repo pr.number) reviewed
      then none
      else fetch_feedback o t repo pr
]

unfoldable pub candidate : Outside → List Event → SearchIssue → Option ReviewCandidate
unfolding candidate_of nwo
candidate o t pr = elim (nwo pr) [
  | none ↦ none
  | some repo ↦
      candidate_of repo pr (o.pull t repo pr.number) (o.pull_commits t repo pr.number)
        (o.pull_files t repo pr.number)
]

unfoldable pub tracked_entry : Outside → List Event → Text × Text → Option TrackedSnapshot
unfolding tracked_snapshot view_of parse_tracking_key
tracked_entry o t (key, prev_sha) = elim (parse_tracking_key key) [
  | none ↦ none
  | some (repo, number) ↦
      tracked_snapshot key (repo, number)
        (view_of (o.pull t repo number) (o.issue_comments t repo number)
          (o.pull_reviews t repo number))
        (o.pull_comments t repo number) (o.pr_findings t repo prev_sha)
]

-- `review_checkout::prepare`: the names, the checks of the head and the base, and what git does.
unfoldable pub prepare : Outside → List Event → ReviewDispatch → Bool
unfolding is_some checkout_rel_path rel_path is_sha is_base
prepare o t d =
    is_some (checkout_rel_path d.repo)
    && is_some (rel_path (codes "projects") d.repo)
    && is_sha d.head_sha
    && is_base d.base
    && o.checkout t d

-- A dispatch whose checkout fails is skipped.
unfoldable pub review_all : Outside → List ReviewDispatch → Poll → Poll × ℕ
unfolding prepare review_turn
review_all o [] p = (p, 0)
review_all o (d ∷ ds) p = elim (prepare o p.events d) [
  | true ↦ let (p', count) = review_all o ds (review_turn d p) in (p', count + 1)
  | false ↦ review_all o ds p
]

-- The number of turns, or none after an error.
unfoldable pub with_count : Poll × ℕ → Poll × Option ℕ
with_count (p, count) = (p, some count)

unfoldable pub plus : ℕ → Poll × Option ℕ → Poll × Option ℕ
plus n (p, none) = (p, none)
plus n (p, some m) = (p, some (n + m))

unfoldable pub then_pass : Poll × Option ℕ → (Poll → Poll × Option ℕ) → Poll × Option ℕ
unfolding plus
then_pass (p, none) pass = (p, none)
then_pass (p, some n) pass = plus n (pass p)

module _ (o : Outside) (bot : Text) (trust : Trust) where
  unfoldable pub watch : Poll → Watch
  watch p = record { bot_login = bot; trust = trust; last_poll = p.state.last_poll }

  unfoldable pub feedback_pass : Poll → Poll × Option ℕ
  unfolding watch filter_map own_snapshot send_all decide_feedback
  feedback_pass p = elim (o.search_issues p.events (codes "is:pr is:open author:" ++ bot)) [
    | none ↦ (p, none)
    | some prs ↦
        let ds = decide_feedback (watch p) (filter_map (own_snapshot o p.events) prs) in
        (send_all author ds p, some (length ds))
  ]

  unfoldable pub review_request_pass : Poll → Poll × Option ℕ
  unfolding watch filter_map candidate review_all decide_review_requests with_count
  review_request_pass p =
      elim (o.search_issues p.events (codes "is:pr is:open review-requested:" ++ bot)) [
        | none ↦ (p, none)
        | some prs ↦ with_count (
            review_all o
              (decide_review_requests (watch p) (filter_map (candidate o p.events) prs)
                p.state.reviewed)
              p)
      ]

  unfoldable pub tracked_pass : Poll → Poll × ℕ
  unfolding watch filter_map tracked_entry review_all decide_tracked corrupt_keys pruned
  tracked_pass p =
      let (ds, prunes) =
        decide_tracked (watch p) (filter_map (tracked_entry o p.events) p.state.reviewed)
          p.state.reviewed in
      review_all o ds (pruned (corrupt_keys p.state.reviewed ++ prunes) p)

  unfoldable pub contributed_query : Text
  contributed_query =
      codes "is:pr is:open commenter:"
      ++ bot
      ++ codes " -author:"
      ++ bot
      ++ codes " -review-requested:"
      ++ bot

  unfoldable pub contributed_pass : Poll → Poll × Option ℕ
  unfolding watch filter_map contributed_snapshot send_all decide_contributed contributed_query
  contributed_pass p = elim (o.search_issues p.events contributed_query) [
    | none ↦ (p, none)
    | some prs ↦
        let ds =
          decide_contributed (watch p)
            (filter_map (contributed_snapshot o p.events p.state.reviewed) prs) in
        (send_all contributor ds p, some (length ds))
  ]

  unfoldable pub poll_once : Poll → Poll × Option ℕ
  unfolding then_pass feedback_pass review_request_pass with_count tracked_pass contributed_pass
  poll_once p = then_pass (feedback_pass p) λ p1.
      then_pass (review_request_pass p1)
        λ p2. then_pass (with_count (tracked_pass p2)) contributed_pass

  -- The cursor moves to the start of the tick, unless the poll fails.
  unfoldable pub ticked : Text → Poll × Option ℕ → Poll
  unfolding save_state
  ticked start (p, none) = p
  ticked start (p, some count) =
      let s = p.state in save_state (record p { state = record s { last_poll = start } })

  unfoldable pub tick : Text → Poll → Poll
  unfolding poll_once ticked
  tick start p = ticked start (poll_once p)

-- A turn that a crash has interrupted is rolled back before the first tick.
unfoldable pub booted : PollState × Option InFlight → Poll
unfolding save_state
booted (s, none) = record { state = s; events = [] }
booted (s, some turn) = save_state (record { state = s; events = [] })

-- The loop, over the answers and the start of each tick.
unfoldable pub ticks : Text → Trust → List (Outside × Text) → Poll → Poll
unfolding tick
ticks bot trust [] p = p
ticks bot trust ((o, start) ∷ rest) p = ticks bot trust rest (tick o bot trust start p)

unfoldable pub poll_loop : Text → Trust → List (Outside × Text) → PollState → Poll
unfolding ticks booted roll_back_in_flight
poll_loop bot trust rounds stored = ticks bot trust rounds (booted (roll_back_in_flight stored))
