-- ===== src/Duty/Warm/Cursors.antt =====
-- The cursors of the warm duty: what a pass over the repositories leaves for the next one.
use kitaebot.Common.{
  ◌≡◌, refl, ◌∙◌, ◌⊎◌, inl, inr, true, false, List, [], ◌∷◌, Option, none, some, arith, Text, ◌=?◌,
  list_key, nat_key, same_list_iff, Option-cases, Bool-cases, All,
}
use kitaebot.Duty.World.{Git}
use kitaebot.Duty.State.{DutyState, cursor, set_cursor, cursor-set_cursor}
use kitaebot.Duty.Warm.{warm_cursor_key, warm_due, warm_status, warm_status_of, warm_one, warm_all}

-- The cursor of the repository stands at the head, and its checkout is there.
abbrev pub Settled : Git → DutyState → Text → Type 0
Settled g s nwo =
    (head : Text) × (g.remote_head nwo ≡ some head)
    × (g.checkout_exists nwo ≡ true)
    × (cursor s (warm_cursor_key nwo) ≡ some head)

same_refl : (a : Text) → (a =? a) ≡ true
same_refl a = (same_list_iff a a).1 refl

warm_one-Settled :
    (g : Git) (s : DutyState) (nwo : Text) → Settled g s nwo → (warm_one g nwo s).0 ≡ s
unfolding warm_one warm_due
warm_one-Settled g s nwo (head, seen, exists, at) =
    rw (seen, warm_one, exists, at, warm_due, same_refl head)

-- The head is known, the checkout stands and the warm command succeeds.
abbrev pub Warms : Git → Text → Type 0
Warms g nwo =
    (head : Text) × (g.remote_head nwo ≡ some head)
    × (g.checkout_exists nwo ≡ true)
    × (g.prepare_and_warm nwo ≡ warm_status)

warm_due-false : (o : Option Text) (head : Text) → warm_due o true head ≡ false → o ≡ some head
unfolding warm_due
warm_due-false none head h = cc
warm_due-false (some c) head h = ground (arith, same_list_iff c head)

set_cursor_at :
    (s : DutyState) (key value : Text) → cursor (set_cursor s key value) key ≡ some value
set_cursor_at s key value = rw (cursor-set_cursor, same_refl key)

warm_one_settles :
    (g : Git) (nwo : Text) (s : DutyState) → Warms g nwo → Settled g (warm_one g nwo s).0 nwo
unfolding warm_one warm_status_of
warm_one_settles g nwo s (head, seen, exists, warms) = (
  head,
  seen,
  exists,
  elim (Bool-cases (warm_due (cursor s (warm_cursor_key nwo)) true head)) [
    | inl is_due ↦
        rw (seen, warm_one, exists, is_due, warms) (set_cursor_at s (warm_cursor_key nwo) head)
    | inr not_due ↦ rw (seen, warm_one, exists, not_due) (warm_due-false _ head not_due)
  ],
)

warm_one_other :
    (g : Git) (m : Text) (key : Text) (s : DutyState)
    → (warm_cursor_key m =? key) ≡ false
    → cursor (warm_one g m s).0 key ≡ cursor s key
unfolding warm_one warm_status_of
warm_one_other g m key s apart = elim (Option-cases (g.remote_head m)) [
  | inl e ↦ rw (e, warm_one)
  | inr (head, e) ↦
      rw (e, warm_one) (ground (arith, cursor-set_cursor s (warm_cursor_key m) key head))
]

keys-same : (m n : Text) → (warm_cursor_key m =? warm_cursor_key n) ≡ true → m ≡ n
unfolding warm_cursor_key
keys-same m n h = ground (arith, same_list_iff (warm_cursor_key m) (warm_cursor_key n))

-- Another repository's turn leaves a settled one settled.
warm_one-keeps :
    (g : Git) (m n : Text) (s : DutyState) → Settled g s n → Settled g (warm_one g m s).0 n
warm_one-keeps g m n s (head, seen, exists, at) =
    elim (Bool-cases (warm_cursor_key m =? warm_cursor_key n)) [
      | inl e ↦
          rw (keys-same m n e, warm_one-Settled g s n (head, seen, exists, at))
            (head, seen, exists, at)
      | inr e ↦ (head, seen, exists, warm_one_other g m (warm_cursor_key n) s e ∙ at)
    ]

warm_all-keeps :
    (g : Git) (repos : List Text) (n : Text) (s : DutyState)
    → Settled g s n
    → Settled g (warm_all g repos s).0 n
unfolding warm_all
warm_all-keeps g [] n s h = h
warm_all-keeps g (m ∷ repos) n s h =
    warm_all-keeps g repos n (warm_one g m s).0 (warm_one-keeps g m n s h)

warm_all-settles :
    (g : Git) (repos : List Text) (s : DutyState)
    → All (Warms g) repos
    → All (Settled g (warm_all g repos s).0) repos
unfolding warm_all
warm_all-settles g [] s h = tt
warm_all-settles g (m ∷ repos) s (h, hs) = (
  warm_all-keeps g repos m (warm_one g m s).0 (warm_one_settles g m s h),
  warm_all-settles g repos (warm_one g m s).0 hs,
)

warm_all-Settled :
    (g : Git) (repos : List Text) (s : DutyState)
    → All (Settled g s) repos
    → (warm_all g repos s).0 ≡ s
unfolding warm_all
warm_all-Settled g [] s h = refl
warm_all-Settled g (m ∷ repos) s (h, hs) =
    rw (warm_one-Settled g s m h) (warm_all-Settled g repos s hs)

-- When every repository's head is known, its checkout stands and its warm command succeeds, one
-- pass leaves every cursor at its head, and a second pass over the same heads moves no cursor.
pub warm_all-twice :
    (g : Git) (repos : List Text) (s : DutyState)
    → All (Warms g) repos
    → All (Settled g (warm_all g repos s).0) repos
      × ((warm_all g repos (warm_all g repos s).0).0 ≡ (warm_all g repos s).0)
warm_all-twice g repos s h =
    let settled = warm_all-settles g repos s h in
    (settled, warm_all-Settled g repos (warm_all g repos s).0 settled)

-- A repository whose head cannot be read, or whose warm command does not report success, keeps
-- the whole state, so its next pass tries again.
pub warm_one_failed :
    (g : Git) (nwo : Text) (s : DutyState)
    → (g.remote_head nwo ≡ none) ⊎ ((g.prepare_and_warm nwo =? warm_status) ≡ false)
    → (warm_one g nwo s).0 ≡ s
unfolding warm_one warm_status_of
warm_one_failed g nwo s h = ground arith
