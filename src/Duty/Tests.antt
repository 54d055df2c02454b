-- ===== src/Duty/Tests.antt =====
-- The theorems on the duties at work on concrete schedules, repositories and states.
use mathlib.Core.List.{cons-ne-nil}
use kitaebot.Common.{
  ℕ, ◌+◌, ◌*◌, ◌-◌, ◌%◌, ◌≤◌, ◌<◌, ◌≡◌, refl, ◌⊎◌, inl, inr, Bool, true, false, List, [], ◌∷◌, none,
  some, Text, codes, ok, err, arith, All, In, ◌=?◌, list_key, nat_key, if◌then◌else◌, max, get,
  ◌++◌, subst, sym,
}
use kitaebot.Duty.Schedule.{every, daily, next_due, parse_every, parse_daily, panics, day}
use kitaebot.Duty.Schedule.Bounds.{next_due-daily}
use kitaebot.Duty.Schedule.Parse.{
  parse_every_complete, parse_every_sound, parse_daily_bound, parse_daily-print, ReadsAs,
  two_digits,
}
use kitaebot.Duty.State.{DutyState, last_run, cursor}
use kitaebot.Duty.World.{Duty, dispatches, new_commits, Git, Probe, World}
use kitaebot.Duty.Dispatch.Gates.{runs, Chain, runs-Chain}
use kitaebot.Duty.Warm.{warm_all}
use kitaebot.Duty.Warm.Cursors.{Settled, warm_all-twice}
use kitaebot.Duty.Scheduler.{run_one, next_wake, run_due}
use kitaebot.Duty.Scheduler.Wake.{next_wake_bounds}
use kitaebot.Duty.Scheduler.Rounds.{IsRegular, Fits, Overdue, last_run-run_one, due-run_due}

next_due-daily_example :
    (100000 < next_due (daily 21600) (some 100000) 200000)
    × (next_due (daily 21600) (some 100000) 200000 ≤ 100000 + day)
    × (next_due (daily 21600) (some 100000) 200000 % day ≡ 21600)
next_due-daily_example = next_due-daily 21600 100000 200000 (omega arith) (omega arith)

parse_every_complete_example : parse_every (codes "90m") ≡ ok 5400
parse_every_complete_example =
    parse_every_complete (codes "90") b'm' 60 (cons-ne-nil _ _)
      ((omega arith, omega arith), ((omega arith, omega arith), tt)) (inr (inl (refl, refl)))
      (omega arith) (omega arith)

parse_every_sound_example :
    (digits : List ℕ) × (u : ℕ) × (codes "2h" ≡ digits ++ u ∷ [])
    × ((scale : ℕ) × ReadsAs digits u scale 7200)
unfolding parse_every
parse_every_sound_example = parse_every_sound (codes "2h") 7200 refl

-- The product of the number and the unit wraps at 64 bits.
parse_every_wraps : parse_every (codes "307445734561825861m") ≡ ok 44
unfolding parse_every
parse_every_wraps = refl

-- A text that ends inside a character of several bytes stops the process.
parse_every_panics : parse_every (b'5' ∷ 194 ∷ 181 ∷ []) ≡ err panics
unfolding parse_every
parse_every_panics = refl

-- A sign is read where the notation is `HH:MM`.
parse_daily_sign : parse_daily (codes "+6:+5") ≡ ok 21900
unfolding parse_daily
parse_daily_sign = refl

parse_daily_bound_example : 21900 < day
parse_daily_bound_example = parse_daily_bound (codes "+6:+5") 21900 parse_daily_sign

parse_daily-print_example :
    parse_daily (two_digits 6 ++ b':' ∷ two_digits 30) ≡ ok (6 * 3600 + 30 * 60)
parse_daily-print_example = parse_daily-print 6 30 (omega arith) (omega arith)

abbrev repo : Text
repo = codes "o/r"

abbrev git_at : Text → Git
git_at head = record {
  remote_head = λ _. some head;
  checkout_exists = λ _. true;
  prepare = λ _. some (codes "ready");
  prepare_and_warm = λ _. codes "warm";
  warm_repos = repo ∷ [];
}

abbrev world : Text → Bool → ℕ → World
world head answers clock = record {
  git = some (git_at head);
  github = none;
  probe = λ _ _. some Probe.closed;
  format_prompt = λ _ delta _. delta;
  replies = λ _ _. answers;
  clock = clock;
}

abbrev review : Duty
review = record {
  name = codes "review";
  action = dispatches (codes "Review.") (some repo);
  schedule = every 300;
  gate = some (new_commits repo);
}

abbrev reviewed : DutyState
reviewed = record {
  last_run = (codes "review", 1000) ∷ [];
  cursors = (codes "review", codes "a") ∷ [];
}

-- The second run's turn fails, and the third covers its commits.
abbrev heads : List World
heads =
    world (codes "b") true 2000 ∷ world (codes "c") false 3000 ∷ world (codes "d") true 4000 ∷ []

runs-Chain_example :
    (to : Text) × (cursor
        (runs review (codes "Review.") (some repo) heads reviewed).1
        (codes "review")
      ≡ some to)
    × Chain repo
        (codes "Review.")
        (codes "a")
        (runs review (codes "Review.") (some repo) heads reviewed).0
        to
unfolding cursor get
runs-Chain_example =
    runs-Chain review repo (codes "Review.") (some repo) heads reviewed (codes "a") refl refl

abbrev fresh : DutyState
fresh = record { last_run = []; cursors = [] }

warm_all-twice_example :
    All
      (Settled (git_at (codes "b")) (warm_all (git_at (codes "b")) (repo ∷ []) fresh).0)
      (repo ∷ [])
    × ((warm_all
          (git_at (codes "b"))
          (repo ∷ [])
          (warm_all (git_at (codes "b")) (repo ∷ []) fresh).0).0
        ≡ (warm_all (git_at (codes "b")) (repo ∷ []) fresh).0)
warm_all-twice_example =
    warm_all-twice (git_at (codes "b")) (repo ∷ []) fresh ((codes "b", refl, refl, refl), tt)

abbrev offline : Git
offline = record {
  remote_head = λ _. none;
  checkout_exists = λ _. true;
  prepare = λ _. none;
  prepare_and_warm = λ _. codes "failed";
  warm_repos = repo ∷ [];
}

last_run-run_one_example :
    last_run (run_one (world (codes "b") true 2000) review reviewed).0 (codes "review")
    ≡ (if codes "review" =? codes "review" then some 2000 else last_run reviewed (codes "review"))
last_run-run_one_example =
    last_run-run_one (world (codes "b") true 2000) review reviewed (codes "review")

next_wake_bounds_example :
    (1 ≤ next_wake (review ∷ []) reviewed 1100)
    × (next_wake (review ∷ []) reviewed 1100 ≤ 600)
    × ((d : Duty)
        → In d (review ∷ [])
        → next_wake (review ∷ []) reviewed 1100
          ≤ max 1 (next_due d.schedule (last_run reviewed d.name) 1100 - 1100))
    × ((next_wake (review ∷ []) reviewed 1100 ≡ 600)
        ⊎ ((d : Duty) × In d (review ∷ [])
            × (next_wake (review ∷ []) reviewed 1100
                ≡ max 1 (next_due d.schedule (last_run reviewed d.name) 1100 - 1100))))
next_wake_bounds_example = next_wake_bounds (review ∷ []) reviewed 1100

only : (P : Duty → Type 0) → P review → (d : Duty) → In d (review ∷ []) → P d
only P p d (inl e) = subst P (sym e) p
only P p d (inr i) = elim i [ ]

due-run_due_example :
    ¬ Overdue review.schedule
      (last_run
        (run_due (λ _. world (codes "b") true 2000) (review ∷ []) 2000 reviewed).0
        review.name)
      2000
due-run_due_example =
    due-run_due (λ _. world (codes "b") true 2000) (review ∷ []) reviewed 2000
      (only (λ d. IsRegular d.schedule) (omega arith))
      (λ d e i. only (λ d. (2000 ≤ 2000) × Fits d.schedule 2000) (omega arith, omega arith) d i)
      review (inl refl)
