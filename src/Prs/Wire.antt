-- ===== src/Prs/Wire.antt =====
-- What channel/github/prs.rs reads of clients/github.rs and review.rs, and the names that it makes of
-- it: tools/git/checkout.rs, tools/git/url.rs. Of a user the login is kept.
use kitaebot.Common.{
  ℕ, Bool, false, not, ◌&&◌, ◌||◌, List, [], ◌∷◌, ◌++◌, any, Text, codes, decimal, Option, none,
  some, ◌==◌, ◌=?◌, list_key, nat_key, if◌then◌else◌,
}
use kitaebot.Duty.Schedule.{parse_uint}
use kitaebot.FileEdit.Lines.{onto_line}

-- A review that is pending has no time of submission.
pub record PrReview : Type 0 where
  pub id : ℕ
  pub user : Text
  pub body : Option Text
  pub state : Text
  pub submitted_at : Option Text

pub record IssueComment : Type 0 where
  pub user : Text
  pub body : Text
  pub created_at : Text

pub record DiffComment : Type 0 where
  pub id : ℕ
  pub pull_request_review_id : Option ℕ
  pub path : Text
  pub line : Option ℕ
  pub body : Text
  pub user : Text
  pub created_at : Text

pub record SearchIssue : Type 0 where
  pub number : ℕ
  pub title : Text
  pub body : Option Text
  pub user : Text
  pub repository_url : Text

pub record PrCommit : Type 0 where
  pub sha : Text
  pub message : Text

pub record PrFile : Type 0 where
  pub filename : Text
  pub additions : ℕ
  pub deletions : ℕ

-- The numbers as they are printed.
pub record PrFinding : Type 0 where
  pub id : Text
  pub severity : Option Text
  pub category : Text
  pub file : Option Text
  pub line : Option Text
  pub note : Text
  pub disposition : Option Text
  pub disposition_note : Option Text

-- `str::split` at a character.
unfoldable pub split_at : ℕ → Text → List Text
unfolding onto_line
split_at c [] = [] ∷ []
split_at c (d ∷ s) = let rest = split_at c s in if d == c then [] ∷ rest else onto_line d rest

unfoldable pub last_two : List Text → Option (Text × Text)
last_two [] = none
last_two (x ∷ []) = none
last_two (x ∷ y ∷ []) = some (x, y)
last_two (x ∷ y ∷ z ∷ xs) = last_two (y ∷ z ∷ xs)

unfoldable pub owner_repo : Option (Text × Text) → Option Text
owner_repo none = none
owner_repo (some (owner, repo)) =
    if (owner =? []) || (repo =? []) then none else some (owner ++ b'/' ∷ repo)

-- `SearchIssue::nwo`: `owner/repo`.
unfoldable pub nwo : SearchIssue → Option Text
unfolding owner_repo split_at last_two
nwo pr = owner_repo (last_two (split_at b'/' pr.repository_url))

unfoldable pub split_once : ℕ → Text → Option (Text × Text)
split_once c [] = none
split_once c (d ∷ s) =
    let rest = split_once c s in
    if d == c
    then some ([], s)
    else elim rest [ none ↦ none | some (front, back) ↦ some (d ∷ front, back) ]

unfoldable pub rsplit_once : ℕ → Text → Option (Text × Text)
rsplit_once c [] = none
rsplit_once c (d ∷ s) = elim (rsplit_once c s) [
  | none ↦ if d == c then some ([], s) else none
  | some (front, back) ↦ some (d ∷ front, back)
]

unfoldable pub tracking_key : Text → ℕ → Text
tracking_key repo number = repo ++ b'#' ∷ decimal number

unfoldable pub numbered : Option (Text × Text) → Option (Text × ℕ)
numbered none = none
numbered (some (repo, number)) = elim (parse_uint 4294967296 number) [
  | none ↦ none
  | some n ↦ some (repo, n)
]

unfoldable pub parse_tracking_key : Text → Option (Text × ℕ)
unfolding rsplit_once numbered
parse_tracking_key key = numbered (rsplit_once b'#' key)

unfoldable pub starts_with_one : Text → Text → Bool
starts_with_one cs [] = false
starts_with_one cs (d ∷ s) = any (λ c. d == c) cs

unfoldable pub has_dots : Text → Bool
unfolding starts_with_one
has_dots [] = false
has_dots (c ∷ s) = (c == b'.' && starts_with_one (codes ".") s) || has_dots s

unfoldable pub is_valid_name : Text → Bool
unfolding starts_with_one has_dots
is_valid_name name = not (
    (name =? [])
    || any (λ c. c == b'/' || c == b'\\') name
    || has_dots name
    || starts_with_one (codes ".-") name)

-- `rel_path`; an error's text is only logged.
unfoldable pub under_root : Text → Option (Text × Text) → Option Text
unfolding is_valid_name
under_root root none = none
under_root root (some (owner, repo)) =
    if is_valid_name owner && is_valid_name repo
    then some (root ++ (b'/' ∷ (owner ++ b'/' ∷ repo)))
    else none

unfoldable pub rel_path : Text → Text → Option Text
unfolding under_root split_once
rel_path root repo = under_root root (split_once b'/' repo)

unfoldable pub checkout_rel_path : Text → Option Text
unfolding rel_path
checkout_rel_path repo = rel_path (codes "reviews") repo
