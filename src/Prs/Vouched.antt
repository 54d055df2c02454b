-- ===== src/Prs/Vouched.antt =====
-- Whom the turns of channel/github/prs.rs answer.
pub mod Decisions
pub mod Fetched
pub mod Passes
use kitaebot.Common.{
  ℕ, ◌≡◌, ◌≢◌, refl, sym, subst, ◌⊎◌, inl, inr, Bool, true, false, List, [], ◌∷◌, ◌++◌, map,
  keep_if, All, In, Text, codes, Option, none, some, Bool-cases, Option-cases, list_key, nat_key,
  get,
}
use kitaebot.Trust.{Trust, allows}
use kitaebot.Prs.Wire.{
  PrReview, IssueComment, DiffComment, SearchIssue, tracking_key, parse_tracking_key,
}
use kitaebot.Prs.Messages.{
  trim, format_review, format_comment, format_diff_comment, brief_review, brief_comment,
  brief_diff_comment, format_feedback_turn, format_contributed_turn,
}
use kitaebot.Prs.Briefs.{TrackedSnapshot, format_review_request, format_tracked_turn}
use kitaebot.Prs.Feedback.{Watch, FeedbackSnapshot, text_leb, filter_map}
use kitaebot.Prs.Reviews.{Reviewed, ReviewCandidate}
use kitaebot.Prs.State.{PollState, Role, author, contributor, reviewer, Event, saved, sent}
use kitaebot.Prs.Poll.{Outside, Pull}

-- From a trusted user who is not the bot, and later than the cursor.
pub record News (w : Watch) (user time : Text) : Type 0 where
  pub other : user ≢ w.bot_login
  pub late : text_leb time w.last_poll ≡ false
  pub trusted : allows w.trust user ≡ true

-- The time of an inline comment: that of its review, or its own where the review is not among them.
unfoldable pub Dated : DiffComment → List PrReview → Text → Type 0
Dated d all time =
    ((r : PrReview) × In r all
      × (d.pull_request_review_id ≡ some r.id)
      × (r.submitted_at ≡ some time))
    ⊎ ((time ≡ d.created_at) × All (λ r. d.pull_request_review_id ≢ some r.id) all)

-- An approval has a text.
unfoldable pub Actionable : PrReview → Type 0
Actionable r =
    (r.state ≢ codes "APPROVED") ⊎ ((body : Text) × (r.body ≡ some body) × (trim body ≢ []))

-- The items are those of reviews `rs`, comments `cs` and inline comments `ds` that are news, where
-- the reviews `all` date the inline comments.
pub record Heard (w : Watch) (f : PrReview → Text) (g : IssueComment → Text)
    (h : DiffComment → Text) (rs all : List PrReview) (cs : List IssueComment)
    (ds : List DiffComment) (items : List Text) : Type 0 where
  pub reviews : List PrReview
  pub comments : List IssueComment
  pub inlined : List DiffComment
  pub shown : items ≡ map f reviews ++ (map g comments ++ map h inlined)
  pub new_reviews :
      All
        (λ r.
          In r rs
          × ((time : Text) × (r.submitted_at ≡ some time) × News w r.user time)
          × Actionable r)
        reviews
  pub new_comments : All (λ c. In c cs × News w c.user c.created_at) comments
  pub new_inlined :
      All (λ d. In d ds × ((time : Text) × Dated d all time × News w d.user time)) inlined

-- A turn on a pull request that answers news of it, and some.
pub record Answers (w : Watch) (format : SearchIssue → Text → List Text → Text)
    (f : SearchIssue → Text → PrReview → Text) (g : SearchIssue → Text → IssueComment → Text)
    (h : SearchIssue → Text → DiffComment → Text) (s : FeedbackSnapshot) (number : ℕ)
    (repo message : Text) : Type 0 where
  pub items : List Text
  pub about : number ≡ s.pr.number
  pub place : repo ≡ s.repo
  pub worded : message ≡ format s.pr s.repo items
  pub heard :
      Heard w
        (f s.pr s.repo)
        (g s.pr s.repo)
        (h s.pr s.repo)
        s.reviews
        s.reviews
        s.comments
        s.diff_comments
        items
  pub some_items : items ≢ []

-- A review that was requested, of a trusted author's pull request that is not tracked yet.
pub record Requested (w : Watch) (m : Reviewed) (c : ReviewCandidate) (number : ℕ)
    (repo message : Text) : Type 0 where
  pub checkout : Text
  pub about : number ≡ c.pr.number
  pub place : repo ≡ c.repo
  pub worded : message ≡ format_review_request c.pr c.repo c.view checkout
  pub other : c.pr.user ≢ w.bot_login
  pub trusted : allows w.trust c.pr.user ≡ true
  pub untracked : get (tracking_key c.repo c.pr.number) m ≡ none

-- A turn on a tracked pull request that is open, whose head is not the one that was seen last, or
-- for comments that are news.
pub record Followed (w : Watch) (m : Reviewed) (s : TrackedSnapshot) (number : ℕ)
    (repo message : Text) : Type 0 where
  pub pushed : Option Text
  pub comments : List Text
  pub checkout : Text
  pub quiet : Bool
  pub seen : Text
  pub about : number ≡ s.pr_number
  pub place : repo ≡ s.repo
  pub worded : message ≡ format_tracked_turn s pushed comments checkout quiet
  pub opened : s.view.state ≡ codes "open"
  pub heard :
      Heard w brief_review brief_comment brief_diff_comment [] s.view.reviews s.view.comments
        s.diff_comments comments
  pub tracked : get s.key m ≡ some seen
  pub caused :
      ((pushed ≡ some seen) × (seen ≢ s.view.head_sha)) ⊎ ((pushed ≡ none) × (comments ≢ []))

-- What GitHub answered: the pull request, and its feedback.
pub record Found (o : Outside) (query : Text) (t : List Event) (s : FeedbackSnapshot) : Type 0 where
  pub prs : List SearchIssue
  pub found : o.search_issues t query ≡ some prs
  pub listed : In s.pr prs
  pub reviews : o.pull_reviews t s.repo s.pr.number ≡ some s.reviews
  pub comments : o.issue_comments t s.repo s.pr.number ≡ some s.comments
  pub diff_comments : o.pull_comments t s.repo s.pr.number ≡ some s.diff_comments

-- What GitHub answered: the pull request, and what there is to review.
pub record Offered (o : Outside) (query : Text) (t : List Event) (c : ReviewCandidate)
    : Type 0 where
  pub prs : List SearchIssue
  pub pull : Pull
  pub found : o.search_issues t query ≡ some prs
  pub listed : In c.pr prs
  pub answered : o.pull t c.repo c.pr.number ≡ some pull
  pub head : c.view.head_sha ≡ pull.head_sha
  pub base : c.view.base_ref ≡ pull.base_ref
  pub commits : o.pull_commits t c.repo c.pr.number ≡ some c.view.commits
  pub files : o.pull_files t c.repo c.pr.number ≡ some c.view.files

-- What GitHub answered on the pull request that the key names.
pub record Shown (o : Outside) (t : List Event) (s : TrackedSnapshot) : Type 0 where
  pub pull : Pull
  pub named : parse_tracking_key s.key ≡ some (s.repo, s.pr_number)
  pub answered : o.pull t s.repo s.pr_number ≡ some pull
  pub state : s.view.state ≡ pull.state
  pub head : s.view.head_sha ≡ pull.head_sha
  pub reviews : o.pull_reviews t s.repo s.pr_number ≡ some s.view.reviews
  pub comments : o.issue_comments t s.repo s.pr_number ≡ some s.view.comments
  pub diff_comments : o.pull_comments t s.repo s.pr_number ≡ some s.diff_comments

-- The heads that the last save has recorded.
unfoldable pub recorded : Reviewed → List Event → Reviewed
recorded m [] = m
recorded m (saved s ∷ es) = recorded s.reviewed es
recorded m (sent role number repo session message ∷ es) = recorded m es

module _ (o : Outside) (bot : Text) (trust : Trust) (start : PollState) where
  abbrev pub watched : Watch
  watched = record { bot_login = bot; trust = trust; last_poll = start.last_poll }

  -- What a turn of each role answers.
  unfoldable pub Vouched : Event → Type 0
  Vouched (saved s) = Unit
  Vouched (sent author number repo session message) =
      (t : List Event) × (s : FeedbackSnapshot) × Found o (codes "is:pr is:open author:" ++ bot) t s
      × Answers watched format_feedback_turn format_review format_comment format_diff_comment s
          number repo message
  Vouched (sent contributor number repo session message) =
      (t : List Event) × (s : FeedbackSnapshot) × Found o
        (codes "is:pr is:open commenter:"
          ++ bot
          ++ codes " -author:"
          ++ bot
          ++ codes " -review-requested:"
          ++ bot)
        t s
      × (get (tracking_key s.repo s.pr.number) (recorded start.reviewed t) ≡ none)
      × Answers watched format_contributed_turn (λ pr repo. brief_review) (λ pr repo. brief_comment)
          (λ pr repo. brief_diff_comment) s number repo message
  Vouched (sent reviewer number repo session message) =
      ((t : List Event) × (c : ReviewCandidate) × Offered o
          (codes "is:pr is:open review-requested:" ++ bot) t c
        × Requested watched (recorded start.reviewed t) c number repo message)
      ⊎ ((t : List Event) × (s : TrackedSnapshot) × Shown o t s
          × Followed watched (recorded start.reviewed t) s number repo message)

pub keep_if-All :
    {A : Type 0} (P : A → Type 0) (p : A → Bool) (xs : List A)
    → ((a : A) → In a xs → p a ≡ true → P a)
    → All P (keep_if p xs)
keep_if-All P p [] f = tt
keep_if-All P p (x ∷ xs) f = elim (Bool-cases (p x)) [
  | inl e ↦ rw e (f x (inl refl) e, keep_if-All P p xs (λ a i. f a (inr i)))
  | inr e ↦ rw e (keep_if-All P p xs (λ a i. f a (inr i)))
]

pub filter_map-All :
    {A B : Type 0} (P : B → Type 0) (f : A → Option B) (xs : List A)
    → ((a : A) (b : B) → In a xs → f a ≡ some b → P b)
    → All P (filter_map f xs)
unfolding filter_map
filter_map-All P f [] k = tt
filter_map-All P f (x ∷ xs) k = elim (Option-cases (f x)) [
  | inl e ↦ rw (e, filter_map) (filter_map-All P f xs (λ a b i. k a b (inr i)))
  | inr (b, e) ↦
      rw (e, filter_map) (k x b (inl refl) e, filter_map-All P f xs (λ a b i. k a b (inr i)))
]
