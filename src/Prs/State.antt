-- ===== src/Prs/State.antt =====
-- channel/github/prs.rs: the state of the polls and its store (state_db.rs, where it is one document).
use kitaebot.Common.{
  ℕ, not, List, [], ◌∷◌, ◌++◌, keep_if, Text, codes, decimal, Option, none, some, ◌=?◌, list_key,
  nat_key, if◌then◌else◌,
}
use kitaebot.Prs.Feedback.{text_leb}
use kitaebot.Prs.Reviews.{Reviewed}

-- `prev_sha` is what the entry was before the turn.
pub record InFlight : Type 0 where
  pub key : Text
  pub prev_sha : Option Text

pub record PollState : Type 0 where
  pub last_poll : Text
  pub reviewed : Reviewed
  pub in_flight : Option InFlight

unfoldable pub insert_key : Text → Text → Reviewed → Reviewed
unfolding text_leb
insert_key key sha [] = (key, sha) ∷ []
insert_key key sha ((k, s) ∷ m) =
    let rest = insert_key key sha m in
    if k =? key
    then (key, sha) ∷ m
    else if text_leb key k
    then (key, sha) ∷ (k, s) ∷ m
    else (k, s) ∷ rest

unfoldable pub remove_key : Text → Reviewed → Reviewed
remove_key key m = keep_if (λ e. not (e.0 =? key)) m

unfoldable pub starting_at : Text → PollState
starting_at now = record { last_poll = now; reviewed = []; in_flight = none }

unfoldable pub restored : InFlight → Reviewed → Reviewed
unfolding insert_key remove_key
restored turn m = elim turn.prev_sha [
  | none ↦ remove_key turn.key m
  | some sha ↦ insert_key turn.key sha m
]

-- The state without the turn, and the turn.
unfoldable pub roll_back_in_flight : PollState → PollState × Option InFlight
unfolding restored
roll_back_in_flight s = elim s.in_flight [
  | none ↦ (s, none)
  | some turn ↦ (record s { reviewed = restored turn s.reviewed; in_flight = none }, some turn)
]

pub data Role : Type 0 where
  author contributor reviewer : Role

unfoldable pub session_for : Role → Text → ℕ → Text
session_for author repo number = repo
session_for contributor repo number = repo
session_for reviewer repo number = codes "review:" ++ repo ++ b'#' ∷ decimal number

-- What a poll does: it saves its state, and it sends a turn, which has a role, the number of its pull
-- request, a repository, a session and a message. The actor runs the turn until the next event.
pub data Event : Type 0 where
  saved : PollState → Event
  sent : Role → ℕ → Text → Text → Text → Event

pub record Poll : Type 0 where
  pub state : PollState
  pub events : List Event

unfoldable pub record_event : Event → Poll → Poll
record_event e p = record p { events = p.events ++ e ∷ [] }

-- Every save is taken as stored: a write that fails is only logged.
unfoldable pub save_state : Poll → Poll
unfolding record_event
save_state p = record_event (saved p.state) p

unfoldable pub send : Role → ℕ → Text → Text → Poll → Poll
unfolding record_event session_for
send role number repo message p =
    record_event (sent role number repo (session_for role repo number) message) p
