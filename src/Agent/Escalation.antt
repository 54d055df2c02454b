-- ===== src/Agent/Escalation.antt =====
-- agent/escalation.rs: which provider a root turn gets after turns that ran into their cap.
pub mod Streaks
use kitaebot.Common.{
  Bool, true, false, not, List, [], ◌∷◌, ◌++◌, Text, ◌=?◌, list_key, nat_key, any, keep_if,
  if◌then◌else◌,
}

pub data ProviderTier : Type 0 where
  default retry : ProviderTier

pub data Transition : Type 0 where
  armed cleared exhausted : Transition

-- The tasks of the table `execution_escalations`.
abbrev pub Escalations : Type 0
Escalations = List Text

unfoldable pub has_row : Text → Escalations → Bool
has_row task rows = any (λ t. t =? task) rows

unfoldable pub tier : Text → Escalations → ProviderTier
unfolding has_row
tier task rows = if has_row task rows then retry else default

-- `INSERT … ON CONFLICT DO NOTHING`.
unfoldable pub insert_row : Text → Escalations → Escalations
unfolding has_row
insert_row task rows = if has_row task rows then rows else rows ++ task ∷ []

unfoldable pub delete_row : Text → Escalations → Escalations
delete_row task rows = keep_if (λ t. not (t =? task)) rows

unfoldable pub record_turn : Text → ProviderTier → Bool → Escalations → Escalations × Transition
unfolding insert_row delete_row
record_turn task default true rows = (insert_row task rows, armed)
record_turn task retry true rows = (delete_row task rows, exhausted)
record_turn task tier false rows = (delete_row task rows, cleared)
