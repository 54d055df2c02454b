-- ===== src/Prs/Vouched/Decisions.antt =====
-- Whom the turns of channel/github/prs.rs answer: the decisions.
use kitaebot.Common.{
  ◌≡◌, ◌≢◌, refl, ap, ◌∙◌, ℕ, ◌==◌, In, find, Option-cases, sym, subst, ◌⊎◌, inl, inr, Bool, true,
  false, List, [], ◌∷◌, ◌++◌, map, keep_if, All, Text, codes, Option, none, some, Bool-cases, ◌=?◌,
  list_key, nat_key, same_list_iff, get, if◌then◌else◌, arith,
}
use kitaebot.Trust.{allows}
use kitaebot.Prs.Wire.{
  PrReview, IssueComment, DiffComment, SearchIssue, checkout_rel_path, tracking_key,
}
use kitaebot.Prs.Messages.{
  text_or_empty, format_review, format_comment, format_diff_comment, brief_review, brief_comment,
  brief_diff_comment, format_feedback_turn, format_contributed_turn,
}
use kitaebot.Prs.Briefs.{TrackedSnapshot}
use kitaebot.Prs.Feedback.{
  Watch, FeedbackSnapshot, FeedbackDispatch, is_news, is_news_at, wants_review, wants_comment,
  wants_diff_comment, feedback_items, contributed_items, folded_turn, decide_feedback,
  decide_contributed, diff_comment_at, parent_review, review_is_actionable,
}
use kitaebot.Prs.Reviews.{
  Reviewed, ReviewCandidate, ReviewDispatch, review_request, requested_at, contains_key,
  decide_review_requests, tracked_comments, dispatch_at, turn_on, pushed_from, tracked_from,
  tracked_turn, decide_tracked, is_open, quiet_path_eligible,
}
use kitaebot.Prs.Vouched.{
  News, Dated, Actionable, Heard, Answers, Requested, Followed, keep_if-All, filter_map-All,
}

pub some_injective : {A : Type 0} {a b : A} → ◌≡◌ {A = Option A} (some a) (some b) → a ≡ b
some_injective e = cc

pub contains_key-false : (key : Text) (m : Reviewed) → contains_key key m ≡ false → get key m ≡ none
unfolding contains_key
contains_key-false key m h = elim (Option-cases (get key m)) [
  | inl e ↦ e
  | inr (sha, e) ↦ absurd (cc (rw (contains_key, e) at h))
]

find-none : {A : Type 0} (p : A → Bool) (xs : List A) → find p xs ≡ none → All (λ a. p a ≡ false) xs
find-none p [] h = tt
find-none p (x ∷ xs) h = elim (Bool-cases (p x)) [
  | inl e ↦ absurd (cc (rw e at h))
  | inr e ↦ (e, find-none p xs (rw e at h))
]

find-some :
    {A : Type 0} (p : A → Bool) (xs : List A) (a : A) → find p xs ≡ some a → In a xs × (p a ≡ true)
find-some p [] a h = absurd (cc)
find-some p (x ∷ xs) a h = elim (Bool-cases (p x)) [
  | inl e ↦
      let same : x ≡ a = some_injective (rw e at h) in
      (inl (sym same), subst (λ b. p b ≡ true) same e)
  | inr e ↦ let (i, k) = find-some p xs a (rw e at h) in (inr i, k)
]

every : {A : Type 0} {P : A → Type 0} (f : (a : A) → P a) (xs : List A) → All P xs
every f [] = tt
every f (x ∷ xs) = (f x, every f xs)

-- None of the reviews is the one of the comment.
others :
    {o : Option ℕ} (id : ℕ)
    → o ≡ some id
    → (all : List PrReview) → All (λ r. (r.id == id) ≡ false) all
    → All (λ r. o ≢ some r.id) all
others id e [] h = tt
others id e (r ∷ all) (k, h) = (
  λ same. ground (arith, nat_key.same_iff r.id id, some_injective (sym e ∙ same), k),
  others id e all h,
)

module _ (w : Watch) where
  is_news-News : (user time : Text) → is_news w user time ≡ true → News w user time
  unfolding is_news
  is_news-News user time h = record {
    other = λ e. ground (arith, same_list_iff user w.bot_login, e, h);
    late = ground (arith, h);
    trusted = ground (arith, h);
  }

  is_news_at-News :
      (user : Text) (time : Option Text)
      → is_news_at w user time ≡ true
      → (t : Text) × (time ≡ some t) × News w user t
  unfolding is_news_at
  is_news_at-News user none h = cc
  is_news_at-News user (some time) h = (time, refl, is_news-News user time h)

  -- The time of an inline comment is one of the dates that it may have.
  diff_comment_at-Dated :
      (d : DiffComment) (all : List PrReview) (time : Text)
      → diff_comment_at d all ≡ some time
      → Dated d all time
  unfolding diff_comment_at parent_review Dated
  diff_comment_at-Dated d all time h = elim (Option-cases d.pull_request_review_id) [
    | inl e ↦
        inr (
          some_injective (sym (rw (diff_comment_at, e) refl ∙ h)),
          every (λ r k. cc (rw e at k)) all,
        )
    | inr (id, e) ↦ elim (Option-cases (find (λ r. r.id == id) all)) [
      | inl f ↦ inr (
        some_injective (sym h ∙ rw (diff_comment_at, e, f) refl),
        others id e all (find-none _ all f),
      )
      | inr (r, f) ↦
          let (i, same) = find-some _ all r f in
          inl (
            r,
            i,
            e ∙ ap some (sym ((nat_key.same_iff r.id id).0 same)),
            sym (rw (diff_comment_at, e, f) refl) ∙ h,
          )
    ]
  ]

  review_is_actionable-Actionable : (r : PrReview) → review_is_actionable r ≡ true → Actionable r
  unfolding review_is_actionable Actionable text_or_empty
  review_is_actionable-Actionable r h = elim (Bool-cases (r.state =? codes "APPROVED")) [
    | inr e ↦ inl (λ k. ground (arith, same_list_iff r.state (codes "APPROVED"), k, e))
    | inl e ↦ elim (Option-cases r.body) [
      | inl none_given ↦ absurd (cc (rw (e, none_given) at h))
      | inr (body, given) ↦ inr (body, given, λ k. absurd (cc (rw (e, given, k) at h)))
    ]
  ]

  -- What is kept of reviews, comments and inline comments is news.
  kept-Heard :
      (f : PrReview → Text) (g : IssueComment → Text) (h : DiffComment → Text)
      (rs all : List PrReview) (cs : List IssueComment) (ds : List DiffComment)
      → Heard w f g h rs all cs ds (
          map f (keep_if (wants_review w) rs)
          ++ (map g (keep_if (wants_comment w) cs)
              ++ map h (keep_if (wants_diff_comment w all) ds)))
  unfolding wants_review wants_comment wants_diff_comment
  kept-Heard f g h rs all cs ds = record {
    reviews = keep_if (wants_review w) rs;
    comments = keep_if (wants_comment w) cs;
    inlined = keep_if (wants_diff_comment w all) ds;
    shown = refl;
    new_reviews = keep_if-All _ (wants_review w) rs (λ r i k. (
      i,
      is_news_at-News r.user r.submitted_at (ground (arith, k)),
      review_is_actionable-Actionable r (ground (arith, k)),
    ));
    new_comments =
        keep_if-All _ (wants_comment w) cs (λ c i k. (i, is_news-News c.user c.created_at k));
    new_inlined = keep_if-All _ (wants_diff_comment w all) ds (λ d i k.
        let (time, at, news) = is_news_at-News d.user (diff_comment_at d all) k in
        (i, (time, diff_comment_at-Dated d all time at, news)));
  }

  folded_turn-Answers :
      (format : SearchIssue → Text → List Text → Text) (f : SearchIssue → Text → PrReview → Text)
      (g : SearchIssue → Text → IssueComment → Text) (h : SearchIssue → Text → DiffComment → Text)
      (s : FeedbackSnapshot) (items : List Text) (d : FeedbackDispatch)
      → Heard w
          (f s.pr s.repo)
          (g s.pr s.repo)
          (h s.pr s.repo)
          s.reviews
          s.reviews
          s.comments
          s.diff_comments
          items
      → folded_turn w format s items ≡ some d
      → Answers w format f g h s d.pr_number d.repo d.message
  unfolding folded_turn
  folded_turn-Answers format f g h s [] d heard e = cc
  folded_turn-Answers format f g h s (i ∷ items) d heard e =
      subst (λ d. Answers w format f g h s d.pr_number d.repo d.message) (some_injective e)
        (record {
          items = i ∷ items;
          about = refl;
          place = refl;
          worded = refl;
          heard = heard;
          some_items = λ k. cc;
        })

  pub decide_feedback-Answers :
      (ss : List FeedbackSnapshot)
      → All
          (λ d.
            (s : FeedbackSnapshot) × In s ss
            × Answers w format_feedback_turn format_review format_comment format_diff_comment s
                d.pr_number d.repo d.message)
          (decide_feedback w ss)
  unfolding decide_feedback feedback_items
  decide_feedback-Answers ss = filter_map-All _ _ ss λ s d i e. (
    s,
    i,
    folded_turn-Answers format_feedback_turn format_review format_comment format_diff_comment s
        (feedback_items w s) d
        (kept-Heard (format_review s.pr s.repo) (format_comment s.pr s.repo)
          (format_diff_comment s.pr s.repo) s.reviews s.reviews s.comments s.diff_comments)
        e,
  )

  pub decide_contributed-Answers :
      (ss : List FeedbackSnapshot)
      → All
          (λ d.
            (s : FeedbackSnapshot) × In s ss
            × Answers w format_contributed_turn
                (λ pr repo. brief_review)
                (λ pr repo. brief_comment)
                (λ pr repo. brief_diff_comment)
                s
                d.pr_number
                d.repo
                d.message)
          (decide_contributed w ss)
  unfolding decide_contributed contributed_items
  decide_contributed-Answers ss = filter_map-All _ _ ss λ s d i e. (
    s,
    i,
    folded_turn-Answers format_contributed_turn (λ pr repo. brief_review) (λ pr repo. brief_comment)
        (λ pr repo. brief_diff_comment) s (contributed_items w s) d
        (kept-Heard brief_review brief_comment brief_diff_comment s.reviews s.reviews s.comments
          s.diff_comments)
        e,
  )

  requested_at-Requested :
      (m : Reviewed) (c : ReviewCandidate) (checkout : Option Text) (d : ReviewDispatch)
      → get (tracking_key c.repo c.pr.number) m ≡ none
      → c.pr.user ≢ w.bot_login
      → allows w.trust c.pr.user ≡ true
      → requested_at c checkout ≡ some d
      → Requested w m c d.pr_number d.repo d.message
  unfolding requested_at
  requested_at-Requested m c none d untracked other trusted e = cc
  requested_at-Requested m c (some checkout) d untracked other trusted e =
      subst (λ d. Requested w m c d.pr_number d.repo d.message) (some_injective e)
        (record {
          checkout = checkout;
          about = refl;
          place = refl;
          worded = refl;
          other = other;
          trusted = trusted;
          untracked = untracked;
        })

  -- The guards that a request has passed.
  guarded :
      (a b k : Bool) (x : Option ReviewDispatch) (d : ReviewDispatch)
      → (if a then none else if b then if k then none else x else none) ≡ some d
      → (a ≡ false) × (b ≡ true) × (k ≡ false) × (x ≡ some d)
  guarded true b k x d e = cc
  guarded false true true x d e = cc
  guarded false true false x d e = (refl, refl, refl, e)
  guarded false false k x d e = cc

  pub decide_review_requests-Requested :
      (cs : List ReviewCandidate) (reviewed : Reviewed)
      → All
          (λ d.
            (c : ReviewCandidate) × In c cs × Requested w reviewed c d.pr_number d.repo d.message)
          (decide_review_requests w cs reviewed)
  unfolding decide_review_requests review_request
  decide_review_requests-Requested cs reviewed = filter_map-All _ _ cs λ c d i e.
      let (other, trusted, unknown, made) =
        guarded (c.pr.user =? w.bot_login) (allows w.trust c.pr.user)
          (contains_key (tracking_key c.repo c.pr.number) reviewed)
          (requested_at c (checkout_rel_path c.repo)) d e in
      (
        c,
        i,
        requested_at-Requested reviewed c (checkout_rel_path c.repo) d
            (contains_key-false (tracking_key c.repo c.pr.number) reviewed unknown)
            (λ k. ground (arith, same_list_iff c.pr.user w.bot_login, k, other)) trusted made,
      )

  module _ (m : Reviewed) (s : TrackedSnapshot) (opened : s.view.state ≡ codes "open") (seen : Text)
      (tracked : get s.key m ≡ some seen) where
    dispatch_at-Followed :
        (pushed : Option Text) (checkout : Option Text) (d : ReviewDispatch)
        → ((pushed ≡ some seen) × (seen ≢ s.view.head_sha))
          ⊎ ((pushed ≡ none) × (tracked_comments w s ≢ []))
        → dispatch_at w s pushed (tracked_comments w s) checkout ≡ some d
        → Followed w m s d.pr_number d.repo d.message
    unfolding dispatch_at tracked_comments
    dispatch_at-Followed pushed none d caused e = cc
    dispatch_at-Followed pushed (some checkout) d caused e =
        subst (λ d. Followed w m s d.pr_number d.repo d.message) (some_injective e)
          (record {
            pushed = pushed;
            comments = tracked_comments w s;
            checkout = checkout;
            quiet = quiet_path_eligible s w.bot_login;
            seen = seen;
            tracked = tracked;
            about = refl;
            place = refl;
            worded = refl;
            opened = opened;
            heard =
                kept-Heard brief_review brief_comment brief_diff_comment [] s.view.reviews
                  s.view.comments s.diff_comments;
            caused = caused;
          })

    turn_on-Followed :
        (pushed : Option Text) (comments : List Text) (d : ReviewDispatch)
        → comments ≡ tracked_comments w s
        → (pushed ≡ none) ⊎ ((pushed ≡ some seen) × (seen ≢ s.view.head_sha))
        → turn_on w s pushed comments ≡ some d
        → Followed w m s d.pr_number d.repo d.message
    unfolding turn_on
    turn_on-Followed none [] d h k e = cc
    turn_on-Followed none (c ∷ cs) d h k e =
        dispatch_at-Followed none (checkout_rel_path s.repo) d (inr (refl, λ k. cc)) (rw (sym h) e)
    turn_on-Followed (some prev) cs d h (inl k) e = cc
    turn_on-Followed (some prev) cs d h (inr k) e =
        dispatch_at-Followed (some prev) (checkout_rel_path s.repo) d (inl k) (rw (sym h) e)

    pushed_from-seen :
        (pushed_from w s seen ≡ none)
        ⊎ ((pushed_from w s seen ≡ some seen) × (seen ≢ s.view.head_sha))
    unfolding pushed_from
    pushed_from-seen = elim (Bool-cases (s.view.head_sha =? seen)) [
      | inl e ↦ inl (rw e refl)
      | inr e ↦ inr (rw e refl, λ k. ground (arith, same_list_iff s.view.head_sha seen, sym k, e))
    ]

    tracked_from-Followed :
        (d : ReviewDispatch)
        → tracked_from w s (some seen) ≡ some d
        → Followed w m s d.pr_number d.repo d.message
    unfolding tracked_from
    tracked_from-Followed d e =
        turn_on-Followed (pushed_from w s seen) (tracked_comments w s) d refl pushed_from-seen e

  pub decide_tracked-Followed :
      (ss : List TrackedSnapshot) (reviewed : Reviewed)
      → All
          (λ d.
            (s : TrackedSnapshot) × In s ss × Followed w reviewed s d.pr_number d.repo d.message)
          (decide_tracked w ss reviewed).0
  unfolding decide_tracked tracked_turn is_open tracked_from
  decide_tracked-Followed ss reviewed = filter_map-All _ _ ss λ s d i e.
      elim (Bool-cases (s.view.state =? codes "open")) [
        | inl o ↦
            let opened : s.view.state ≡ codes "open" =
              ground (arith, same_list_iff s.view.state (codes "open"), o) in
            elim (Option-cases (get s.key reviewed)) [
              | inl k ↦ absurd (cc (rw (o, k) at e))
              | inr (seen, k) ↦
                  (s, i, tracked_from-Followed reviewed s opened seen k d (rw (o, k) at e))
            ]
        | inr o ↦ absurd (cc (rw o at e))
      ]
