-- ===== src/Prs/Feedback.antt =====
-- channel/github/prs.rs: what of a pull request's feedback is news, and the turns on the bot's own
-- pull requests and on those it has commented on. What is skipped is only logged.
use kitaebot.Common.{
  ℕ, Bool, true, false, not, ◌&&◌, List, [], ◌∷◌, ◌++◌, map, keep_if, find, Text, codes, Option,
  none, some, ltb, ◌==◌, ◌=?◌, list_key, nat_key, if◌then◌else◌,
}
use kitaebot.Trust.{Trust, allows}
use kitaebot.Prs.Wire.{PrReview, IssueComment, DiffComment, SearchIssue}
use kitaebot.Prs.Messages.{
  trim, text_or_empty, format_review, format_comment, format_diff_comment, brief_review,
  brief_comment, brief_diff_comment, format_feedback_turn, format_contributed_turn,
}

-- The arguments that all decisions share.
pub record Watch : Type 0 where
  pub bot_login : Text
  pub trust : Trust
  pub last_poll : Text

-- A pull request, its reviews and its comments, fetched together.
pub record FeedbackSnapshot : Type 0 where
  pub repo : Text
  pub pr : SearchIssue
  pub reviews : List PrReview
  pub comments : List IssueComment
  pub diff_comments : List DiffComment

pub record FeedbackDispatch : Type 0 where
  pub pr_number : ℕ
  pub repo : Text
  pub message : Text

-- `<=` of two `str`, which compares bytes.
unfoldable pub text_leb : Text → Text → Bool
text_leb [] t = true
text_leb (c ∷ s) [] = false
text_leb (c ∷ s) (d ∷ t) = let rest = text_leb s t in if c == d then rest else ltb c d

unfoldable pub filter_map {ℓ κ} : {A : Type ℓ} {B : Type κ} → (A → Option B) → List A → List B
filter_map f [] = []
filter_map f (x ∷ xs) = elim (f x) [ none ↦ filter_map f xs | some y ↦ y ∷ filter_map f xs ]

unfoldable pub review_is_actionable : PrReview → Bool
unfolding trim text_or_empty
review_is_actionable r = not ((r.state =? codes "APPROVED") && (trim (text_or_empty r.body) =? []))

unfoldable pub parent_review : Option ℕ → List PrReview → Option PrReview
parent_review none reviews = none
parent_review (some id) reviews = find (λ r. r.id == id) reviews

unfoldable pub diff_comment_at : DiffComment → List PrReview → Option Text
unfolding parent_review
diff_comment_at dc reviews = elim (parent_review dc.pull_request_review_id reviews) [
  | none ↦ some dc.created_at
  | some r ↦ r.submitted_at
]

module _ (w : Watch) where
  unfoldable pub is_news : Text → Text → Bool
  is_news user time =
      not (user =? w.bot_login) && not (text_leb time w.last_poll) && allows w.trust user

  unfoldable pub is_news_at : Text → Option Text → Bool
  unfolding is_news
  is_news_at user none = false
  is_news_at user (some time) = is_news user time

  unfoldable pub wants_review : PrReview → Bool
  unfolding is_news_at
  wants_review r = is_news_at r.user r.submitted_at && review_is_actionable r

  unfoldable pub wants_comment : IssueComment → Bool
  unfolding is_news
  wants_comment c = is_news c.user c.created_at

  unfoldable pub wants_diff_comment : List PrReview → DiffComment → Bool
  unfolding is_news_at
  wants_diff_comment reviews dc = is_news_at dc.user (diff_comment_at dc reviews)

  unfoldable pub feedback_items : FeedbackSnapshot → List Text
  unfolding wants_review wants_comment wants_diff_comment
  feedback_items s =
      map (format_review s.pr s.repo) (keep_if wants_review s.reviews)
      ++ (map (format_comment s.pr s.repo) (keep_if wants_comment s.comments)
          ++ map (format_diff_comment s.pr s.repo)
              (keep_if (wants_diff_comment s.reviews) s.diff_comments))

  unfoldable pub contributed_items : FeedbackSnapshot → List Text
  unfolding wants_review wants_comment wants_diff_comment
  contributed_items s =
      map brief_review (keep_if wants_review s.reviews)
      ++ (map brief_comment (keep_if wants_comment s.comments)
          ++ map brief_diff_comment (keep_if (wants_diff_comment s.reviews) s.diff_comments))

  -- All items of a pull request make one turn, and none makes none.
  unfoldable pub folded_turn :
      (SearchIssue → Text → List Text → Text)
      → FeedbackSnapshot
      → List Text
      → Option FeedbackDispatch
  folded_turn format s [] = none
  folded_turn format s (i ∷ items) =
      some (record {
        pr_number = s.pr.number;
        repo = s.repo;
        message = format s.pr s.repo (i ∷ items);
      })

  unfoldable pub decide_feedback : List FeedbackSnapshot → List FeedbackDispatch
  unfolding filter_map folded_turn
  decide_feedback ss = filter_map (λ s. folded_turn format_feedback_turn s (feedback_items s)) ss

  unfoldable pub decide_contributed : List FeedbackSnapshot → List FeedbackDispatch
  unfolding filter_map folded_turn
  decide_contributed ss =
      filter_map (λ s. folded_turn format_contributed_turn s (contributed_items s)) ss
