-- ===== src/Prs/Reviews.antt =====
-- channel/github/prs.rs: the turns on pull requests whose review is requested, and on those that are
-- tracked since.
use kitaebot.Common.{
  ℕ, Bool, true, false, not, ◌&&◌, List, [], ◌∷◌, ◌++◌, map, keep_if, any, Text, codes, Option,
  none, some, get, ◌=?◌, list_key, nat_key, if◌then◌else◌,
}
use kitaebot.Trust.{allows}
use kitaebot.Prs.Wire.{PrReview, SearchIssue, PrFinding, tracking_key, checkout_rel_path}
use kitaebot.Prs.Messages.{brief_comment, brief_diff_comment}
use kitaebot.Prs.Briefs.{ReviewPrView, TrackedSnapshot, format_review_request, format_tracked_turn}
use kitaebot.Prs.Feedback.{Watch, text_leb, filter_map, wants_comment, wants_diff_comment}

pub record ReviewCandidate : Type 0 where
  pub pr : SearchIssue
  pub repo : Text
  pub view : ReviewPrView

pub record ReviewDispatch : Type 0 where
  pub key : Text
  pub head_sha : Text
  pub pr_number : ℕ
  pub repo : Text
  pub base : Text
  pub message : Text

-- `BTreeMap<String, String>`, in the order of its keys.
abbrev pub Reviewed : Type 0
Reviewed = List (Text × Text)

unfoldable pub contains_key : Text → Reviewed → Bool
unfolding get
contains_key key reviewed = elim (get key reviewed) [ none ↦ false | some sha ↦ true ]

unfoldable pub requested_at : ReviewCandidate → Option Text → Option ReviewDispatch
requested_at c none = none
requested_at c (some checkout) = some (record {
  key = tracking_key c.repo c.pr.number;
  head_sha = c.view.head_sha;
  pr_number = c.pr.number;
  repo = c.repo;
  base = c.view.base_ref;
  message = format_review_request c.pr c.repo c.view checkout;
})

-- The bot's reviews that were submitted: their times and states.
unfoldable pub submitted : Text → PrReview → Option (Text × Text)
submitted bot r = elim r.submitted_at [
  | none ↦ none
  | some time ↦ if r.user =? bot then some (time, r.state) else none
]

-- `max_by_key`, which takes the last of the latest.
unfoldable pub latest_review : List (Text × Text) → Option (Text × Text)
unfolding text_leb
latest_review [] = none
latest_review (x ∷ xs) = elim (latest_review xs) [
  | none ↦ some x
  | some y ↦ if text_leb x.0 y.0 then some y else some x
]

unfoldable pub latest_bot_review_state : List PrReview → Text → Option Text
unfolding latest_review filter_map submitted
latest_bot_review_state reviews bot = elim (latest_review (filter_map (submitted bot) reviews)) [
  | none ↦ none
  | some (time, state) ↦ some state
]

unfoldable pub is_text : Text → Option Text → Bool
is_text t none = false
is_text t (some s) = s =? t

-- Pending, and worse than a nit.
unfoldable pub is_pending : PrFinding → Bool
unfolding is_text
is_pending f = elim f.disposition [ none ↦ not (is_text (codes "nit") f.severity) | some d ↦ false ]

unfoldable pub quiet_path_eligible : TrackedSnapshot → Text → Bool
unfolding is_text is_pending
quiet_path_eligible s bot =
    is_text (codes "APPROVED") (latest_bot_review_state s.view.reviews bot)
    && not (any is_pending s.prior_findings)

unfoldable pub is_open : TrackedSnapshot → Bool
is_open s = s.view.state =? codes "open"

module _ (w : Watch) where
  unfoldable pub review_request : Reviewed → ReviewCandidate → Option ReviewDispatch
  unfolding requested_at
  review_request reviewed c =
      if c.pr.user =? w.bot_login
      then none
      else if allows w.trust c.pr.user
      then if contains_key (tracking_key c.repo c.pr.number) reviewed
        then none
        else requested_at c (checkout_rel_path c.repo)
      else none

  unfoldable pub decide_review_requests : List ReviewCandidate → Reviewed → List ReviewDispatch
  unfolding filter_map review_request
  decide_review_requests candidates reviewed = filter_map (review_request reviewed) candidates

  unfoldable pub tracked_comments : TrackedSnapshot → List Text
  tracked_comments s =
      map brief_comment (keep_if (wants_comment w) s.view.comments)
      ++ map brief_diff_comment (keep_if (wants_diff_comment w s.view.reviews) s.diff_comments)

  unfoldable pub dispatch_at :
      TrackedSnapshot → Option Text → List Text → Option Text → Option ReviewDispatch
  dispatch_at s pushed comments none = none
  dispatch_at s pushed comments (some checkout) = some (record {
    key = s.key;
    head_sha = s.view.head_sha;
    pr_number = s.pr_number;
    repo = s.repo;
    base = s.view.base_ref;
    message = format_tracked_turn s pushed comments checkout (quiet_path_eligible s w.bot_login);
  })

  -- `pushed` is the previous head, where the head is another one now.
  unfoldable pub turn_on : TrackedSnapshot → Option Text → List Text → Option ReviewDispatch
  unfolding dispatch_at
  turn_on s none [] = none
  turn_on s none (c ∷ comments) = dispatch_at s none (c ∷ comments) (checkout_rel_path s.repo)
  turn_on s (some prev) comments = dispatch_at s (some prev) comments (checkout_rel_path s.repo)

  unfoldable pub pushed_from : TrackedSnapshot → Text → Option Text
  pushed_from s prev = if s.view.head_sha =? prev then none else some prev

  unfoldable pub tracked_from : TrackedSnapshot → Option Text → Option ReviewDispatch
  unfolding turn_on pushed_from tracked_comments
  tracked_from s none = none
  tracked_from s (some prev) = turn_on s (pushed_from s prev) (tracked_comments s)

  unfoldable pub tracked_turn : Reviewed → TrackedSnapshot → Option ReviewDispatch
  unfolding tracked_from is_open get
  tracked_turn reviewed s = if is_open s then tracked_from s (get s.key reviewed) else none

  -- The turns, and the keys to prune.
  unfoldable pub decide_tracked : List TrackedSnapshot → Reviewed → List ReviewDispatch × List Text
  unfolding filter_map tracked_turn is_open
  decide_tracked ss reviewed =
      (filter_map (tracked_turn reviewed) ss, map (λ s. s.key) (keep_if (λ s. not (is_open s)) ss))
