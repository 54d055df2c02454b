-- ===== src/Prs/Vouched/Fetched.antt =====
-- What the passes of channel/github/prs.rs decide on is what GitHub answered.
use kitaebot.Common.{
  ℕ, ◌≡◌, refl, sym, subst, ap, ◌∙◌, ◌⊎◌, inl, inr, List, [], ◌∷◌, In, Text, Option, none, some,
  Bool-cases, Option-cases, get, list_key, nat_key,
}
use kitaebot.Prs.Wire.{
  PrReview, IssueComment, DiffComment, PrCommit, PrFile, SearchIssue, nwo, tracking_key,
  parse_tracking_key,
}
use kitaebot.Prs.Briefs.{TrackedSnapshot}
use kitaebot.Prs.Feedback.{FeedbackSnapshot, filter_map}
use kitaebot.Prs.Reviews.{Reviewed, ReviewCandidate, contains_key}
use kitaebot.Prs.State.{Event}
use kitaebot.Prs.Poll.{Outside, Pull, snapshot_of, candidate_of, view_of, tracked_snapshot}
use kitaebot.Prs.Passes.{
  fetch_feedback, own_snapshot, contributed_snapshot, candidate, tracked_entry,
}
use kitaebot.Prs.Vouched.{Found, Offered, Shown}
use kitaebot.Prs.Vouched.Decisions.{some_injective, contains_key-false}

-- The elements that a list is made of.
pub In-filter_map :
    {A B : Type 0} (f : A → Option B) (b : B) (xs : List A)
    → In b (filter_map f xs)
    → (a : A) × In a xs × (f a ≡ some b)
unfolding filter_map
In-filter_map f b [] i = elim i [ ]
In-filter_map f b (x ∷ xs) i = elim (Option-cases (f x)) [
  | inl e ↦
      let skipped : filter_map f (x ∷ xs) ≡ filter_map f xs = rw (filter_map, e) refl in
      let (a, j, k) = In-filter_map f b xs (subst (In b) skipped i) in (a, inr j, k)
  | inr (y, e) ↦
      let kept : filter_map f (x ∷ xs) ≡ y ∷ filter_map f xs = rw (filter_map, e) refl in
      let j : (b ≡ y) ⊎ In b (filter_map f xs) = subst (In b) kept i in
      elim j [
        | inl same ↦ (x, inl refl, e ∙ ap some (sym same))
        | inr later ↦ let (a, l, k) = In-filter_map f b xs later in (a, inr l, k)
      ]
]

module _ (o : Outside) (t : List Event) where
  snapshot-Found :
      (query repo : Text) (prs : List SearchIssue) (pr : SearchIssue) (s : FeedbackSnapshot)
      → o.search_issues t query ≡ some prs
      → In pr prs
      → fetch_feedback o t repo pr ≡ some s
      → Found o query t s
  unfolding fetch_feedback snapshot_of
  snapshot-Found query repo prs pr s found listed e =
      go (o.pull_reviews t repo pr.number) (o.issue_comments t repo pr.number)
        (o.pull_comments t repo pr.number) refl refl refl e
    where
      go :
          (a : Option (List PrReview)) (b : Option (List IssueComment))
          (c : Option (List DiffComment))
          → o.pull_reviews t repo pr.number ≡ a
          → o.issue_comments t repo pr.number ≡ b
          → o.pull_comments t repo pr.number ≡ c
          → snapshot_of repo pr a b c ≡ some s
          → Found o query t s
      go (some rs) (some cs) (some ds) i j k e =
          subst (Found o query t) (some_injective e) (record {
            prs = prs;
            found = found;
            listed = listed;
            reviews = i;
            comments = j;
            diff_comments = k;
          })
      go (some rs) (some cs) none i j k e = absurd (cc)
      go (some rs) none c i j k e = absurd (cc)
      go none b c i j k e = absurd (cc)

  -- The snapshot is of the pull request and the repository that were asked for.
  fetch_feedback-names :
      (repo : Text) (pr : SearchIssue) (s : FeedbackSnapshot)
      → fetch_feedback o t repo pr ≡ some s
      → (s.repo ≡ repo) × (s.pr ≡ pr)
  unfolding fetch_feedback
  fetch_feedback-names repo pr s e =
      go (o.pull_reviews t repo pr.number) (o.issue_comments t repo pr.number)
        (o.pull_comments t repo pr.number) e
    where
      go :
          (a : Option (List PrReview)) (b : Option (List IssueComment))
          (c : Option (List DiffComment))
          → snapshot_of repo pr a b c ≡ some s
          → (s.repo ≡ repo) × (s.pr ≡ pr)
      go (some rs) (some cs) (some ds) e =
          unfold snapshot_of in
          (
            ap (λ (s : FeedbackSnapshot). s.repo) (sym (some_injective e)),
            ap (λ (s : FeedbackSnapshot). s.pr) (sym (some_injective e)),
          )
      go (some rs) (some cs) none e = absurd (unfold snapshot_of in cc)
      go (some rs) none c e = absurd (unfold snapshot_of in cc)
      go none b c e = absurd (unfold snapshot_of in cc)

  pub own_snapshot-Found :
      (query : Text) (prs : List SearchIssue) (pr : SearchIssue) (s : FeedbackSnapshot)
      → o.search_issues t query ≡ some prs
      → In pr prs
      → own_snapshot o t pr ≡ some s
      → Found o query t s
  unfolding own_snapshot
  own_snapshot-Found query prs pr s found listed e = elim (Option-cases (nwo pr)) [
    | inl k ↦ absurd (cc (rw (own_snapshot, k) at e))
    | inr (repo, k) ↦
        snapshot-Found query repo prs pr s found listed (sym (rw (own_snapshot, k) refl) ∙ e)
  ]

  pub contributed_snapshot-Found :
      (m : Reviewed) (query : Text) (prs : List SearchIssue) (pr : SearchIssue)
      (s : FeedbackSnapshot)
      → o.search_issues t query ≡ some prs
      → In pr prs
      → contributed_snapshot o t m pr ≡ some s
      → Found o query t s × (get (tracking_key s.repo s.pr.number) m ≡ none)
  unfolding contributed_snapshot
  contributed_snapshot-Found m query prs pr s found listed e = elim (Option-cases (nwo pr)) [
    | inl k ↦ absurd (cc (rw (contributed_snapshot, k) at e))
    | inr (repo, k) ↦ elim (Bool-cases (contains_key (tracking_key repo pr.number) m)) [
      | inl tracked ↦ absurd (cc (rw (contributed_snapshot, k, tracked) at e))
      | inr new ↦
          let fetched : fetch_feedback o t repo pr ≡ some s =
            sym (rw (contributed_snapshot, k, new) refl) ∙ e in
          let (at_repo, of_pr) = fetch_feedback-names repo pr s fetched in
          (
            snapshot-Found query repo prs pr s found listed fetched,
            contains_key-false _ m (rw (at_repo, of_pr) new),
          )
    ]
  ]

  pub candidate-Offered :
      (query : Text) (prs : List SearchIssue) (pr : SearchIssue) (c : ReviewCandidate)
      → o.search_issues t query ≡ some prs
      → In pr prs
      → candidate o t pr ≡ some c
      → Offered o query t c
  unfolding candidate candidate_of
  candidate-Offered query prs pr c found listed e = elim (Option-cases (nwo pr)) [
    | inl k ↦ absurd (cc (rw (candidate, k) at e))
    | inr (repo, k) ↦
        go repo (o.pull t repo pr.number) (o.pull_commits t repo pr.number)
          (o.pull_files t repo pr.number) refl refl refl (sym (rw (candidate, k) refl) ∙ e)
  ]
    where
      go :
          (repo : Text) (a : Option Pull) (b : Option (List PrCommit)) (f : Option (List PrFile))
          → o.pull t repo pr.number ≡ a
          → o.pull_commits t repo pr.number ≡ b
          → o.pull_files t repo pr.number ≡ f
          → candidate_of repo pr a b f ≡ some c
          → Offered o query t c
      go repo (some pull) (some commits) (some files) i j k e =
          subst (Offered o query t) (some_injective e) (record {
            prs = prs;
            pull = pull;
            found = found;
            listed = listed;
            answered = i;
            head = refl;
            base = refl;
            commits = j;
            files = k;
          })
      go repo (some pull) (some commits) none i j k e = absurd (cc)
      go repo (some pull) none f i j k e = absurd (cc)
      go repo none b f i j k e = absurd (cc)

  pub tracked_entry-Shown :
      (entry : Text × Text) (s : TrackedSnapshot) → tracked_entry o t entry ≡ some s → Shown o t s
  unfolding tracked_entry tracked_snapshot view_of
  tracked_entry-Shown (key, sha) s e = elim (Option-cases (parse_tracking_key key)) [
    | inl k ↦ absurd (cc (rw (tracked_entry, k) at e))
    | inr ((repo, number), k) ↦
        go repo number k (o.pull t repo number) (o.issue_comments t repo number)
          (o.pull_reviews t repo number) (o.pull_comments t repo number) refl refl refl refl
          (sym (rw (tracked_entry, k) refl) ∙ e)
  ]
    where
      go :
          (repo : Text) (number : ℕ)
          → parse_tracking_key key ≡ some (repo, number)
          → (a : Option Pull) (b : Option (List IssueComment)) (c : Option (List PrReview))
            (d : Option (List DiffComment))
          → o.pull t repo number ≡ a
          → o.issue_comments t repo number ≡ b
          → o.pull_reviews t repo number ≡ c
          → o.pull_comments t repo number ≡ d
          → tracked_snapshot key (repo, number) (view_of a b c) d (o.pr_findings t repo sha)
            ≡ some s
          → Shown o t s
      go repo number named (some pull) (some cs) (some rs) (some ds) i j k l e =
          subst (Shown o t) (some_injective e) (record {
            pull = pull;
            named = named;
            answered = i;
            state = refl;
            head = refl;
            reviews = k;
            comments = j;
            diff_comments = l;
          })
      go repo number named (some pull) (some cs) (some rs) none i j k l e = absurd (cc)
      go repo number named (some pull) (some cs) none d i j k l e = absurd (cc)
      go repo number named (some pull) none c d i j k l e = absurd (cc)
      go repo number named none b c d i j k l e = absurd (cc)
