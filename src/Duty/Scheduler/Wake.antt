-- ===== src/Duty/Scheduler/Wake.antt =====
-- How long the scheduler sleeps: `next_wake`.
use kitaebot.Common.{
  ℕ, ◌-◌, ◌≤◌, ◌≡◌, refl, ◌⊎◌, inl, inr, List, [], ◌∷◌, map, Option, none, some, arith, list_key,
  nat_key, min, max, In, In-map, In-of_map, Option-cases,
}
use kitaebot.Duty.Schedule.{next_due}
use kitaebot.Duty.World.{Duty}
use kitaebot.Duty.State.{DutyState, last_run}
use kitaebot.Duty.Scheduler.{least, wait, clamped, next_wake}

min_cases : (a b : ℕ) → (min a b ≡ a) ⊎ (min a b ≡ b)
min_cases a b = ground arith

least-In : (xs : List ℕ) (m : ℕ) → least xs ≡ some m → In m xs
unfolding least
least-In [] m h = cc
least-In (x ∷ xs) m h = elim (Option-cases (least xs)) [
  | inl e ↦ inl (ground arith)
  | inr (k, e) ↦ elim (min_cases x k) [
    | inl f ↦ inl (ground arith)
    | inr f ↦ inr (least-In xs m (ground arith))
  ]
]

least-none-In : (xs : List ℕ) (x : ℕ) → least xs ≡ none → ¬ In x xs
unfolding least
least-none-In [] x h i = i
least-none-In (y ∷ xs) x h i = elim (Option-cases (least xs)) [
  | inl e ↦ ground arith
  | inr (k, e) ↦ ground arith
]

least-le : (xs : List ℕ) (m x : ℕ) → least xs ≡ some m → In x xs → m ≤ x
unfolding least
least-le [] m x h i = elim i [ ]
least-le (y ∷ xs) m x h (inl e) = ground arith
least-le (y ∷ xs) m x h (inr i) = elim (Option-cases (least xs)) [
  | inl e ↦ absurd (least-none-In xs x e i)
  | inr (k, e) ↦ ground (arith, least-le xs k x e i)
]

-- The bounds of a clamped wait, from what is known of the least one.
clamped_bounds : (m k : ℕ) → m ≤ k → (clamped (some m) ≤ max 1 k)
unfolding clamped
clamped_bounds m k h = omega arith

clamped_range : (o : Option ℕ) → (1 ≤ clamped o) × (clamped o ≤ 600)
unfolding clamped
clamped_range none = omega arith
clamped_range (some m) = omega arith

clamped_exact : (m : ℕ) → (clamped (some m) ≡ 600) ⊎ (clamped (some m) ≡ max 1 m)
unfolding clamped
clamped_exact m = ground arith

-- The scheduler sleeps one to six hundred seconds, and past no duty's due time by more than the
-- least sleep of one second; it sleeps less than the cap only for a duty that is due then.
pub next_wake_bounds :
    (duties : List Duty) (s : DutyState) (now : ℕ)
    → (1 ≤ next_wake duties s now)
      × (next_wake duties s now ≤ 600)
      × ((d : Duty)
          → In d duties
          → next_wake duties s now ≤ max 1 (next_due d.schedule (last_run s d.name) now - now))
      × ((next_wake duties s now ≡ 600)
          ⊎ ((d : Duty) × In d duties
              × (next_wake duties s now
                  ≡ max 1 (next_due d.schedule (last_run s d.name) now - now))))
unfolding next_wake wait clamped
next_wake_bounds duties s now =
    let (low, high) = clamped_range (least (map (wait s now) duties)) in
    (low, high, under, reached (least (map (wait s now) duties)) refl)
  where
    under :
        (d : Duty)
        → In d duties
        → next_wake duties s now ≤ max 1 (next_due d.schedule (last_run s d.name) now - now)
    under d i = elim (Option-cases (least (map (wait s now) duties))) [
      | inl e ↦ absurd (least-none-In _ _ e (In-map (wait s now) d duties i))
      | inr (m, e) ↦
          rw (e, next_wake) (clamped_bounds m _ (least-le _ m _ e (In-map (wait s now) d duties i)))
    ]

    reached :
        (o : Option ℕ)
        → least (map (wait s now) duties) ≡ o
        → (clamped o ≡ 600)
          ⊎ ((d : Duty) × In d duties
              × (clamped o ≡ max 1 (next_due d.schedule (last_run s d.name) now - now)))
    reached none e = inl refl
    reached (some m) e = elim (clamped_exact m) [
      | inl full ↦ inl full
      | inr exact ↦
          let (d, i, same) = In-of_map (wait s now) m duties (least-In _ m e) in
          inr (d, i, rw (← same) exact)
    ]
