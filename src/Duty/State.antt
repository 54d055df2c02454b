-- ===== src/Duty/State.antt =====
-- duty/state.rs: the persisted state of the duties, each table a map from the duty's name.
use kitaebot.Common.{
  ℕ, ◌≡◌, refl, List, [], Option, none, some, Text, ◌=?◌, list_key, nat_key, get, insert,
  get-insert, if◌then◌else◌,
}

pub record DutyState : Type 0 where
  pub last_run : List (Text × ℕ)
  pub cursors : List (Text × Text)

-- The stored document as serde reads it back; a missing or corrupt one starts fresh.
unfoldable pub load : Option DutyState → DutyState
load none = record { last_run = []; cursors = [] }
load (some s) = s

unfoldable pub last_run : DutyState → Text → Option ℕ
last_run s duty = get duty s.last_run

unfoldable pub record_run : DutyState → Text → ℕ → DutyState
record_run s duty epoch = record s { last_run = insert duty epoch s.last_run }

unfoldable pub cursor : DutyState → Text → Option Text
cursor s duty = get duty s.cursors

unfoldable pub set_cursor : DutyState → Text → Text → DutyState
set_cursor s duty value = record s { cursors = insert duty value s.cursors }

pub last_run-record_run :
    (s : DutyState) (duty other : Text) (epoch : ℕ)
    → last_run (record_run s duty epoch) other
      ≡ (if duty =? other then some epoch else last_run s other)
unfolding last_run record_run
last_run-record_run s duty other epoch = get-insert duty other epoch s.last_run

pub cursor-record_run :
    (s : DutyState) (duty other : Text) (epoch : ℕ)
    → cursor (record_run s duty epoch) other ≡ cursor s other
unfolding cursor record_run
cursor-record_run s duty other epoch = refl

pub cursor-set_cursor :
    (s : DutyState) (duty other value : Text)
    → cursor (set_cursor s duty value) other
      ≡ (if duty =? other then some value else cursor s other)
unfolding cursor set_cursor
cursor-set_cursor s duty other value = get-insert duty other value s.cursors

pub last_run-set_cursor :
    (s : DutyState) (duty other value : Text)
    → last_run (set_cursor s duty value) other ≡ last_run s other
unfolding last_run set_cursor
last_run-set_cursor s duty other value = refl

pub ruleset duty_state =
    (last_run-record_run, cursor-record_run, cursor-set_cursor, last_run-set_cursor)
