-- ===== src/Prs/Chain.antt =====
-- What a chain of passes of channel/github/prs.rs keeps.
use kitaebot.Common.{ℕ, ◌≡◌, refl, sym, subst, Option, none, some}
use kitaebot.Prs.State.{Poll}
use kitaebot.Prs.Passes.{then_pass, plus}

plus-fst : (n : ℕ) (r : Poll × Option ℕ) → (plus n r).0 ≡ r.0
unfolding plus
plus-fst n (p, none) = refl
plus-fst n (p, some m) = refl

pub then_pass-kept :
    (P : Poll → Type 0) (r : Poll × Option ℕ) (pass : Poll → Poll × Option ℕ)
    → P r.0
    → ((p : Poll) → P p → P (pass p).0)
    → P (then_pass r pass).0
unfolding then_pass
then_pass-kept P (p, none) pass h f = h
then_pass-kept P (p, some n) pass h f = subst P (sym (plus-fst n (pass p))) (f p h)
