-- ===== src/Trust/Tests.antt =====
-- The trust in concrete logins.
use kitaebot.Common.{◌≡◌, refl, true, [], ◌∷◌, codes}
use kitaebot.Trust.{Trust, allows}

abbrev team : Trust
team = record { owner = codes "alice"; users = codes "bob" ∷ []; bots = codes "helper" ∷ [] }

allows_listed_bot : allows team (codes "Helper[bot]") ≡ true
unfolding allows kitaebot.Trust.lower
allows_listed_bot = refl
