-- ===== src/Prs/Poll.antt =====
-- channel/github/prs.rs: the four passes of a poll, and the loop; channel/github/review_checkout.rs:
-- the checks of `prepare`.
use kitaebot.Common.{
  ℕ, Bool, true, false, not, ◌&&◌, ◌||◌, List, [], ◌∷◌, any, length, Text, Option, none, some, get,
  leb, ◌==◌, list_key, nat_key,
}
use kitaebot.Prs.Wire.{
  PrReview, IssueComment, DiffComment, SearchIssue, PrCommit, PrFile, PrFinding, parse_tracking_key,
}
use kitaebot.Prs.Briefs.{TrackedPrView, TrackedSnapshot}
use kitaebot.Prs.Feedback.{FeedbackSnapshot, FeedbackDispatch}
use kitaebot.Prs.Reviews.{Reviewed, ReviewCandidate, ReviewDispatch}
use kitaebot.Prs.State.{Role, reviewer, Event, Poll, save_state, send, insert_key, remove_key}

pub record Pull : Type 0 where
  pub state : Text
  pub title : Text
  pub head_sha : Text
  pub base_ref : Text

-- GitHub, the ledger and git, where `none` is an error. Their answers may change with every event.
pub record Outside : Type 0 where
  pub search_issues : List Event → Text → Option (List SearchIssue)
  pub pull : List Event → Text → ℕ → Option Pull
  pub pull_reviews : List Event → Text → ℕ → Option (List PrReview)
  pub issue_comments : List Event → Text → ℕ → Option (List IssueComment)
  pub pull_comments : List Event → Text → ℕ → Option (List DiffComment)
  pub pull_commits : List Event → Text → ℕ → Option (List PrCommit)
  pub pull_files : List Event → Text → ℕ → Option (List PrFile)
  pub pr_findings : List Event → Text → Text → Option (List PrFinding)
  pub checkout : List Event → ReviewDispatch → Bool

unfoldable pub snapshot_of :
    Text
    → SearchIssue
    → Option (List PrReview)
    → Option (List IssueComment)
    → Option (List DiffComment)
    → Option FeedbackSnapshot
snapshot_of repo pr (some rs) (some cs) (some ds) =
    some (record { repo = repo; pr = pr; reviews = rs; comments = cs; diff_comments = ds })
snapshot_of repo pr (some rs) (some cs) none = none
snapshot_of repo pr (some rs) none ds = none
snapshot_of repo pr none cs ds = none

unfoldable pub candidate_of :
    Text
    → SearchIssue
    → Option Pull
    → Option (List PrCommit)
    → Option (List PrFile)
    → Option ReviewCandidate
candidate_of repo pr (some pull) (some commits) (some files) = some (record {
  pr = pr;
  repo = repo;
  view = record {
    head_sha = pull.head_sha;
    base_ref = pull.base_ref;
    commits = commits;
    files = files;
  };
})
candidate_of repo pr (some pull) (some commits) none = none
candidate_of repo pr (some pull) none files = none
candidate_of repo pr none commits files = none

unfoldable pub view_of :
    Option Pull → Option (List IssueComment) → Option (List PrReview) → Option TrackedPrView
view_of (some pull) (some comments) (some reviews) = some (record {
  state = pull.state;
  title = pull.title;
  head_sha = pull.head_sha;
  base_ref = pull.base_ref;
  comments = comments;
  reviews = reviews;
})
view_of (some pull) (some comments) none = none
view_of (some pull) none reviews = none
view_of none comments reviews = none

unfoldable pub or_no_findings : Option (List PrFinding) → List PrFinding
or_no_findings none = []
or_no_findings (some fs) = fs

unfoldable pub tracked_snapshot :
    Text
    → Text × ℕ
    → Option TrackedPrView
    → Option (List DiffComment)
    → Option (List PrFinding)
    → Option TrackedSnapshot
unfolding or_no_findings
tracked_snapshot key (repo, number) (some view) (some ds) findings = some (record {
  key = key;
  repo = repo;
  pr_number = number;
  view = view;
  diff_comments = ds;
  prior_findings = or_no_findings findings;
})
tracked_snapshot key name (some view) none findings = none
tracked_snapshot key name none ds findings = none

unfoldable pub is_hex : ℕ → Bool
is_hex c = (leb b'0' c && leb c b'9') || (leb b'a' c && leb c b'f') || (leb b'A' c && leb c b'F')

unfoldable pub is_sha : Text → Bool
unfolding is_hex
is_sha sha = (length sha == 40) && not (any (λ c. not (is_hex c)) sha)

unfoldable pub is_base : Text → Bool
is_base [] = false
is_base (c ∷ s) = not (c == b'-')

unfoldable pub is_some {ℓ} : {A : Type ℓ} → Option A → Bool
is_some none = false
is_some (some a) = true

unfoldable pub remove_all : List Text → Reviewed → Reviewed
unfolding remove_key
remove_all [] m = m
remove_all (k ∷ ks) m = remove_all ks (remove_key k m)

-- The turn of a dispatch is in flight between its two saves.
unfoldable pub reviewing : ReviewDispatch → Poll → Poll
unfolding get insert_key save_state
reviewing d p =
    let s = p.state in
    save_state (record p {
      state = record s {
        reviewed = insert_key d.key d.head_sha s.reviewed;
        in_flight = some (record { key = d.key; prev_sha = get d.key s.reviewed });
      };
    })

unfoldable pub landed : Poll → Poll
unfolding save_state
landed p = let s = p.state in save_state (record p { state = record s { in_flight = none } })

unfoldable pub review_turn : ReviewDispatch → Poll → Poll
unfolding reviewing send landed
review_turn d p = landed (send reviewer d.pr_number d.repo d.message (reviewing d p))

unfoldable pub send_all : Role → List FeedbackDispatch → Poll → Poll
unfolding send
send_all role [] p = p
send_all role (d ∷ ds) p = send_all role ds (send role d.pr_number d.repo d.message p)

unfoldable pub corrupt_keys : Reviewed → List Text
unfolding parse_tracking_key
corrupt_keys [] = []
corrupt_keys ((key, sha) ∷ m) = elim (parse_tracking_key key) [
  | none ↦ key ∷ corrupt_keys m
  | some name ↦ corrupt_keys m
]

unfoldable pub pruned : List Text → Poll → Poll
unfolding remove_all save_state
pruned [] p = p
pruned (k ∷ ks) p =
    let s = p.state in
    save_state (record p { state = record s { reviewed = remove_all (k ∷ ks) s.reviewed } })
