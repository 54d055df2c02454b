-- ===== src/Prs/Tests.antt =====
-- A review that is requested, a comment of the owner, and a crash.
use kitaebot.Common.{decimal, ◌≡◌, refl, [], ◌∷◌, Text, codes, none, some, true, list_key, nat_key}
use kitaebot.Duty.Schedule.{parse_uint}
use kitaebot.Trust.{Trust, allows, lower}
use kitaebot.Prs.Feedback.{feedback_items}
use kitaebot.Prs.Wire.{tracking_key, SearchIssue, nwo, parse_tracking_key, checkout_rel_path}
use kitaebot.Prs.State.{PollState, roll_back_in_flight}
use kitaebot.Prs.Poll.{Outside}
use kitaebot.Prs.Passes.{poll_once, poll_loop}
use kitaebot.Prs.Recovery.{Durable, recovered}
use kitaebot.Prs.Recovery.Loop.{poll_loop-Durable}
use kitaebot.Prs.Vouched.{Vouched}

abbrev bot : Text
bot = codes "kitaebot"

abbrev owner_only : Trust
owner_only = record { owner = codes "alice"; users = []; bots = [] }

abbrev pull_7 : SearchIssue
pull_7 = record {
  number = 7;
  title = codes "Fix";
  body = none;
  user = codes "alice";
  repository_url = codes "https://api.github.com/repos/o/r";
}

abbrev head : Text
head = codes "0123456789abcdef0123456789abcdef01234567"

-- Every search finds the pull request, which has one comment of the owner.
abbrev github : Outside
github = record {
  search_issues = λ t query. some (pull_7 ∷ []);
  pull = λ t repo number. some (record {
    state = codes "open";
    title = codes "Fix";
    head_sha = head;
    base_ref = codes "main";
  });
  pull_reviews = λ t repo number. some [];
  issue_comments = λ t repo number. some (
      record {
        user = codes "alice";
        body = codes "Rebase";
        created_at = codes "2026-01-02T00:00:00Z";
      }
      ∷ []);
  pull_comments = λ t repo number. some [];
  pull_commits = λ t repo number. some [];
  pull_files = λ t repo number. some [];
  pr_findings = λ t repo sha. none;
  checkout = λ t d. true;
}

abbrev idle : PollState
idle = record { last_poll = codes "2026-01-01T00:00:00Z"; reviewed = []; in_flight = none }

-- A crash in the first review of the pull request.
abbrev crashed : PollState
crashed = record {
  last_poll = codes "2026-01-01T00:00:00Z";
  reviewed = (codes "o/r#7", head) ∷ [];
  in_flight = some (record { key = codes "o/r#7"; prev_sha = none });
}

crashed_again : (roll_back_in_flight crashed).0 ≡ idle
unfolding roll_back_in_flight
crashed_again = refl

nwo_of_url : nwo pull_7 ≡ some (codes "o/r")
unfolding nwo
nwo_of_url = refl

key_of_pull : parse_tracking_key (codes "o/r#7") ≡ some (codes "o/r", 7)
unfolding parse_tracking_key parse_uint
key_of_pull = refl

traversal : checkout_rel_path (codes "o/..") ≡ none
unfolding checkout_rel_path
traversal = refl

-- The comment is answered on the bot's own pull request, the review is requested, and the comment is
-- answered on the pull request that is tracked since, which no contributed turn takes then.
three_turns : (poll_once github bot owner_only (record { state = idle; events = [] })).1 ≡ some 3
unfolding poll_once feedback_items allows lower tracking_key decimal parse_uint
three_turns = refl

poll_loop-Durable_example :
    Durable
      (crashed, recovered crashed)
      (poll_loop bot owner_only ((github, codes "2026-01-03T00:00:00Z") ∷ []) crashed).events
poll_loop-Durable_example =
    poll_loop-Durable bot owner_only ((github, codes "2026-01-03T00:00:00Z") ∷ []) crashed
