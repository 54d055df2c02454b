-- ===== src/Duty/Scheduler/Rounds.antt =====
-- What the runs of a round leave behind: `run_one`, `run_all` and `run_due`.
use kitaebot.Common.{
  ◌∙◌, sym, ap, ℕ, ◌+◌, ◌*◌, ◌≤◌, ◌<◌, ◌≡◌, refl, ◌⊎◌, inl, inr, true, false, List, [], ◌∷◌, map,
  Option, none, some, arith, Text, ◌=?◌, list_key, nat_key, same_list_iff, if◌then◌else◌, keep_if,
  All, In, In-keep_if, Bool-cases, ◌%◌, leb,
}
use kitaebot.Duty.Schedule.{Schedule, every, daily, next_due, day, u64_mod}
use kitaebot.Duty.World.{Duty, Action, dispatches, self_analysis, warm, Git, Github, World}
use kitaebot.Duty.State.{DutyState, last_run, set_cursor, last_run-record_run}
use kitaebot.Duty.Dispatch.{dispatch}
use kitaebot.Duty.Analysis.{run_self_analysis}
use kitaebot.Duty.Warm.{run_warm, warm_all, warm_one}
use kitaebot.Duty.Scheduler.{act, run_one, is_due, due, run_all, run_due}

-- A schedule that the configuration can give: a positive interval, or a time of day.
abbrev pub IsRegular : Schedule → Type 0
IsRegular (every period) = 0 < period
IsRegular (daily time_of_day) = time_of_day < day

-- The next run after a run at `t` does not pass 64 bits.
abbrev pub Fits : Schedule → ℕ → Type 0
Fits (every period) t = t + period < u64_mod
Fits (daily time_of_day) t = t + 2 * day < u64_mod

next_due_later :
    (sc : Schedule) (t now : ℕ) → IsRegular sc → Fits sc t → t < next_due sc (some t) now
unfolding next_due
next_due_later (every period) t now h f = ground arith
next_due_later (daily time_of_day) t now h f = ground arith

warm_one-last_run :
    (g : Git) (nwo : Text) (s : DutyState) (n : Text)
    → last_run (warm_one g nwo s).0 n ≡ last_run s n
unfolding warm_one last_run set_cursor
warm_one-last_run g nwo s n = ground arith

warm_all-last_run :
    (g : Git) (repos : List Text) (s : DutyState) (n : Text)
    → last_run (warm_all g repos s).0 n ≡ last_run s n
unfolding warm_all
warm_all-last_run g [] s n = refl
warm_all-last_run g (nwo ∷ repos) s n =
    warm_all-last_run g repos (warm_one g nwo s).0 n ∙ warm_one-last_run g nwo s n

run_warm-last_run :
    (git : Option Git) (s : DutyState) (n : Text) → last_run (run_warm git s).0 n ≡ last_run s n
unfolding run_warm
run_warm-last_run none s n = refl
run_warm-last_run (some g) s n = ground (arith, warm_all-last_run g g.warm_repos s n)

dispatch-last_run :
    (w : World) (d : Duty) (input : Text) (hint : Option Text) (s : DutyState) (n : Text)
    → last_run (dispatch w d input hint s).0 n ≡ last_run s n
unfolding dispatch last_run set_cursor
dispatch-last_run w d input hint s n = ground arith

analysis-last_run :
    (w : World) (d : Duty) (github : Option Github) (repo : Text) (k : ℕ) (s : DutyState) (n : Text)
    → last_run (run_self_analysis w d github repo k s).0 n ≡ last_run s n
unfolding run_self_analysis last_run set_cursor
analysis-last_run w d github repo k s n = ground arith

act-last_run :
    (w : World) (d : Duty) (a : Action) (s : DutyState) (n : Text)
    → last_run (act w d a s).0 n ≡ last_run s n
unfolding act
act-last_run w d (dispatches input hint) s n = dispatch-last_run w d input hint s n
act-last_run w d (self_analysis repo k) s n = analysis-last_run w d w.github repo k s n
act-last_run w d warm s n = run_warm-last_run w.git s n

-- Whatever the duty does and however it ends, its run is recorded at the clock's time, and no
-- other duty's run is.
pub last_run-run_one :
    (w : World) (d : Duty) (s : DutyState) (n : Text)
    → last_run (run_one w d s).0 n ≡ (if d.name =? n then some w.clock else last_run s n)
unfolding run_one
last_run-run_one w d s n =
    last_run-record_run (act w d d.action s).0 d.name n w.clock
    ∙ ap (λ o. if d.name =? n then some w.clock else o) (act-last_run w d d.action s n)

name_refl : (d e : Duty) → e ≡ d → (e.name =? d.name) ≡ true
name_refl d e p = (same_list_iff e.name d.name).1 (ap (λ (x : Duty). x.name) p)

-- A run of this duty puts its next run behind `now`, and a run of another leaves it alone.
not_due-run_one :
    (w : World) (e d : Duty) (s : DutyState) (now : ℕ)
    → IsRegular d.schedule
    → Fits d.schedule w.clock
    → now ≤ w.clock
    → (is_due s now d ≡ false) ⊎ (e ≡ d)
    → is_due (run_one w e s).0 now d ≡ false
unfolding is_due
not_due-run_one w e d s now reg fits later h = elim (Bool-cases (e.name =? d.name)) [
  | inl same ↦
      let ran : last_run (run_one w e s).0 d.name ≡ some w.clock =
        rw (last_run-run_one w e s d.name, same) in
      rw (ran, is_due) (ground (arith, next_due_later d.schedule w.clock now reg fits))
  | inr apart ↦
      let kept : last_run (run_one w e s).0 d.name ≡ last_run s d.name =
        rw (last_run-run_one w e s d.name, apart) in
      rw (kept, is_due) (ground (arith, name_refl d e))
]

-- The clocks of the runs do not go back behind `now`, and the duty's next runs fit 64 bits.
abbrev pub Timely : ℕ → Duty → World × Duty → Type 0
Timely now d (w, e) = (now ≤ w.clock) × Fits d.schedule w.clock

abbrev second : World × Duty → Duty
second x = x.1

not_due-run_all :
    (xs : List (World × Duty)) (d : Duty) (s : DutyState) (now : ℕ)
    → IsRegular d.schedule
    → All (Timely now d) xs
    → (is_due s now d ≡ false) ⊎ In d (map second xs)
    → is_due (run_all xs s).0 now d ≡ false
unfolding run_all
not_due-run_all [] d s now reg timely (inl h) = h
not_due-run_all [] d s now reg timely (inr i) = elim i [ ]
not_due-run_all ((w, e) ∷ xs) d s now reg (t, ts) h =
    not_due-run_all xs d (run_one w e s).0 now reg ts (step h)
  where
    step :
        (is_due s now d ≡ false) ⊎ In d (e ∷ map second xs)
        → (is_due (run_one w e s).0 now d ≡ false) ⊎ In d (map second xs)
    step (inl f) = inl (not_due-run_one w e d s now reg t.1 t.0 (inl f))
    step (inr (inl p)) = inl (not_due-run_one w e d s now reg t.1 t.0 (inr (sym p)))
    step (inr (inr i)) = inr i

map-second :
    (worlds : Duty → World) (ds : List Duty) → map second (map (λ d. (worlds d, d)) ds) ≡ ds
map-second worlds [] = refl
map-second worlds (d ∷ ds) = ap (λ r. d ∷ r) (map-second worlds ds)

Timely-map :
    (worlds : Duty → World) (now : ℕ) (d : Duty) (ds : List Duty)
    → ((e : Duty) → Timely now d (worlds e, e))
    → All (Timely now d) (map (λ e. (worlds e, e)) ds)
Timely-map worlds now d [] h = tt
Timely-map worlds now d (e ∷ ds) h = (h e, Timely-map worlds now d ds h)

-- A duty is overdue when it has never run, when its interval has passed since its last run, or when
-- its time of day has come since then.
abbrev pub Overdue : Schedule → Option ℕ → ℕ → Type 0
Overdue sc none now = Unit {0}
Overdue (every period) (some last) now = last + period ≤ now
Overdue (daily time_of_day) (some last) now =
    (k : ℕ) × (last < k) × (k ≤ now) × (k % day ≡ time_of_day)

not_due-Overdue :
    (s : DutyState) (now : ℕ) (d : Duty)
    → IsRegular d.schedule
    → is_due s now d ≡ false
    → Overdue d.schedule (last_run s d.name) now
    → ⊥
unfolding is_due
not_due-Overdue s now d reg h = late d.schedule (last_run s d.name) reg h
  where
    late :
        (sc : Schedule) (last : Option ℕ)
        → IsRegular sc
        → leb (next_due sc last now) now ≡ false
        → Overdue sc last now
        → ⊥
    late sc none r e over = unfold next_due in ground arith
    late (every period) (some last) r e over = unfold next_due in ground arith
    late (daily time_of_day) (some last) r e (k, after, before, at) =
        unfold next_due in ground arith

-- However long the duties were overdue at `now`, one round leaves none of them overdue at `now`:
-- with schedules that the configuration allows, clocks that do not run backwards during the round
-- and times that fit 64 bits. Overdue is a duty that has never run, or whose interval has passed or
-- whose time of day has come since its last run.
pub due-run_due :
    (worlds : Duty → World) (duties : List Duty) (s : DutyState) (now : ℕ)
    → ((d : Duty) → In d duties → IsRegular d.schedule)
    → ((d e : Duty) → In d duties → (now ≤ (worlds e).clock) × Fits d.schedule (worlds e).clock)
    → (d : Duty) → In d duties
    → ¬ Overdue d.schedule (last_run (run_due worlds duties now s).0 d.name) now
unfolding run_due due
due-run_due worlds duties s now reg timely d i =
    not_due-Overdue (run_due worlds duties now s).0 now d (reg d i) (
      not_due-run_all (map (λ e. (worlds e, e)) (due duties s now)) d s now (reg d i)
        (Timely-map worlds now d (due duties s now) (λ e. timely d e i))
        (rw (map-second worlds (keep_if (is_due s now) duties)) was_due))
  where
    was_due : (is_due s now d ≡ false) ⊎ In d (keep_if (is_due s now) duties)
    was_due = elim (Bool-cases (is_due s now d)) [
      | inl yes_due ↦ inr (In-keep_if (is_due s now) d duties i yes_due)
      | inr not_due ↦ inl not_due
    ]
