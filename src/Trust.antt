-- ===== src/Trust.antt =====
-- channel/github/trust.rs: whose events the GitHub channels act on. A login is the list of its
-- bytes.
pub mod Spellings
mod Tests
use kitaebot.Common.{
  ℕ, ◌+◌, Bool, true, false, ◌&&◌, ◌||◌, List, [], ◌∷◌, any, Option, none, some, Text, codes, ◌=?◌,
  list_key, nat_key, leb, if◌then◌else◌,
}

pub record Trust : Type 0 where
  pub owner : Text
  pub users : List Text
  pub bots : List Text

unfoldable pub to_lower : ℕ → ℕ
to_lower c = if leb b'A' c && leb c b'Z' then c + 32 else c

unfoldable pub lower : Text → Text
unfolding to_lower
lower [] = []
lower (c ∷ s) = to_lower c ∷ lower s

-- `eq_ignore_ascii_case`.
unfoldable pub same_login : Text → Text → Bool
same_login a b = lower a =? lower b

-- `strip_suffix`.
unfoldable pub strip_suffix : Text → Text → Option Text
strip_suffix suffix [] = if [] =? suffix then some [] else none
strip_suffix suffix (c ∷ s) =
    if (c ∷ s) =? suffix
    then some []
    else elim (strip_suffix suffix s) [ none ↦ none | some front ↦ some (c ∷ front) ]

unfoldable pub bot_login : Text → Text
unfolding strip_suffix
bot_login login = elim (strip_suffix (codes "[bot]") login) [ none ↦ login | some bot ↦ bot ]

unfoldable pub allows : Trust → Text → Bool
unfolding same_login bot_login
allows t login =
    if same_login login t.owner
    then true
    else if any (λ u. same_login u login) t.users
    then true
    else any (λ b. same_login b (bot_login login)) t.bots
