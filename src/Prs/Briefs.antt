-- ===== src/Prs/Briefs.antt =====
-- channel/github/prs.rs: the messages of the turns on a pull request that is under review.
use kitaebot.Common.{
  ℕ, Bool, true, false, List, [], ◌∷◌, ◌++◌, map, concat, Text, codes, Option, none, some,
}
use kitaebot.FileEdit.Lines.{join}
use kitaebot.Prs.Wire.{
  PrReview, IssueComment, DiffComment, SearchIssue, PrCommit, PrFile, PrFinding,
}
use kitaebot.Prs.Messages.{line, text_or_empty, if_nonempty, named, format_file, format_commit}

pub record ReviewPrView : Type 0 where
  pub head_sha : Text
  pub base_ref : Text
  pub commits : List PrCommit
  pub files : List PrFile

pub record TrackedPrView : Type 0 where
  pub state : Text
  pub title : Text
  pub head_sha : Text
  pub base_ref : Text
  pub comments : List IssueComment
  pub reviews : List PrReview

pub record TrackedSnapshot : Type 0 where
  pub key : Text
  pub repo : Text
  pub pr_number : ℕ
  pub view : TrackedPrView
  pub diff_comments : List DiffComment
  pub prior_findings : List PrFinding

-- What a section adds, unless its list is empty.
unfoldable pub if_any {ℓ} : {A : Type ℓ} → List A → Text → Text
if_any [] section = []
if_any (x ∷ xs) section = section

unfoldable pub format_review_request : SearchIssue → Text → ReviewPrView → Text → Text
unfolding named text_or_empty if_nonempty if_any format_file format_commit
format_review_request pr repo view checkout =
    line (
      codes "Your review was requested on "
      ++ named pr.number pr.title repo
      ++ codes " by author @"
      ++ pr.user
      ++ codes ".")
    ++ if_nonempty (text_or_empty pr.body)
        (line (codes "\nPR description:\n" ++ text_or_empty pr.body))
    ++ line (codes "\nBase branch: " ++ view.base_ref)
    ++ if_any view.files (line (codes "\nChanged files:") ++ concat (map format_file view.files))
    ++ if_any view.commits (line (codes "\nCommits:") ++ concat (map format_commit view.commits))
    ++ codes "\nReview this PR per the Review Protocol.\nReview checkout: `"
    ++ checkout
    ++ codes "`, detached at "
    ++ view.head_sha
    ++ codes ", base branch origin/"
    ++ view.base_ref
    ++ codes " fetched."

unfoldable pub severity_part : PrFinding → Text
severity_part f = elim f.severity [
  | some sev ↦ codes " [" ++ sev ++ codes ", " ++ f.category ++ codes "]"
  | none ↦ codes " [" ++ f.category ++ codes "]"
]

unfoldable pub file_part : PrFinding → Text
file_part f = elim f.file [
  | none ↦ []
  | some file ↦ elim f.line [
    | some l ↦ codes " " ++ file ++ codes ":" ++ l
    | none ↦ codes " " ++ file
  ]
]

unfoldable pub disposition_part : PrFinding → Text
disposition_part f = elim f.disposition [
  | none ↦ codes " (pending)"
  | some d ↦ elim f.disposition_note [
    | some note ↦ codes " (" ++ d ++ codes ": " ++ note ++ codes ")"
    | none ↦ codes " (" ++ d ++ codes ")"
  ]
]

-- The bytes of the dash are written out.
unfoldable pub format_prior_finding : PrFinding → Text
unfolding severity_part file_part disposition_part
format_prior_finding f =
    codes "- finding #"
    ++ f.id
    ++ severity_part f
    ++ file_part f
    ++ 32 ∷ 226 ∷ 128 ∷ 148 ∷ 32 ∷ f.note
    ++ disposition_part f

unfoldable pub opening : TrackedSnapshot → Option Text → Text
unfolding named
opening s (some prev) = line (
    named s.pr_number s.view.title s.repo
    ++ codes ", which you reviewed at "
    ++ prev
    ++ codes ", has new commits (head is now "
    ++ s.view.head_sha
    ++ codes ").")
opening s none = line (
    codes "New comments on "
    ++ named s.pr_number s.view.title s.repo
    ++ codes ", which you reviewed.")

abbrev pub pack_findings : Text
pack_findings =
    codes
      "\nPack the ledger findings above into the reviewer dispatch as the outstanding feedback, and record a disposition by id for each pending one once the verdict is in."

abbrev pub quiet_path : Text
quiet_path =
    codes
      "\nYour latest published review is an APPROVE and nothing pending on it is worse than a nit, so the quiet path applies (Review Protocol, re-reviews): a clean delta that stays within that feedback's scope publishes nothing."

abbrev pub order_unknown : Text
order_unknown =
    codes
      "\n\nThe comments above arrived alongside the push; the order is unknown. A comment may already be answered by the new commits, so read the delta first and address the comments as part of the review."

unfoldable pub when : Bool → Text → Text
when true s = s
when false s = []

-- What only a push brings.
unfoldable pub push_part : TrackedSnapshot → Option Text → List Text → Text → Bool → Text
unfolding if_any when
push_part s none comments checkout quiet_eligible = []
push_part s (some prev) comments checkout quiet_eligible =
    codes "\nRe-review the delta per the Review Protocol.\nReview checkout: `"
    ++ checkout
    ++ codes "`, detached at "
    ++ s.view.head_sha
    ++ codes "; previously reviewed SHA: "
    ++ prev
    ++ codes "."
    ++ if_any s.prior_findings pack_findings
    ++ when quiet_eligible quiet_path
    ++ if_any comments order_unknown

unfoldable pub format_tracked_turn : TrackedSnapshot → Option Text → List Text → Text → Bool → Text
unfolding opening if_any format_prior_finding join push_part
format_tracked_turn s prev comments checkout quiet_eligible =
    opening s prev
    ++ if_any s.prior_findings (
        line (codes "\nYour prior review's findings, from the ledger:")
        ++ concat (map (λ f. line (format_prior_finding f)) s.prior_findings))
    ++ if_any comments (line (codes "\n" ++ join (codes "\n\n") comments))
    ++ push_part s prev comments checkout quiet_eligible
    ++ if_any comments (
        codes
          "\n\nRespond to each comment per the Review Protocol (comment follow-ups). Review checkout: `"
        ++ checkout
        ++ codes "`, detached at "
        ++ s.view.head_sha
        ++ codes ".")
