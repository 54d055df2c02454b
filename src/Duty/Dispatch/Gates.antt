-- ===== src/Duty/Dispatch/Gates.antt =====
-- The new-commits gate over many runs of one duty.
use kitaebot.Common.{
  ◌≡◌, refl, sym, ap, subst, append_assoc, append-nil, codes, ◌⊎◌, inl, inr, true, List, [], ◌∷◌,
  ◌++◌, Option, none, some, Text, ◌=?◌, list_key, nat_key, same_list_iff, if◌then◌else◌, Bool-cases,
}
use kitaebot.Duty.World.{Duty, Gate, new_commits, Effect, sent, Git, World}
use kitaebot.Duty.State.{DutyState, cursor, cursor-set_cursor}
use kitaebot.Duty.Dispatch.{
  dispatch, prepared, with_range, with_note, checkout_note, send, gated, probe_head, probe_decided,
  new_commits_decision,
}

-- The text of a turn that was sent and answered, and the world it was sent in.
answered : World → List Effect → List (World × Text)
answered w (sent name text hint ∷ _) = if w.replies name text then (w, text) ∷ [] else []
answered w _ = []

pub head_of : Option Git → Text → Option Text
head_of none repo = none
head_of (some g) repo = g.remote_head repo

-- The text starts with the duty's input and the range of commits between the two.
abbrev pub Names : Text → Text → Text → Text → Type 0
Names input from head text =
    (note : Text) × (text
      ≡ input ++ codes "\n\n[new commits: " ++ from ++ codes ".." ++ head ++ codes "]" ++ note)

-- The ranges that the texts name follow one another: each begins where the one before it ended, and
-- ends at the head that the repository has then.
pub Chain : Text → Text → Text → List (World × Text) → Text → Type 0
unfolding head_of
Chain repo input from [] to = from ≡ to
Chain repo input from ((w, text) ∷ rest) to =
    (head : Text) × (head_of w.git repo ≡ some head)
    × Names input from head text
    × Chain repo input head rest to

-- The runs of one duty, each in the world that the environment gives it.
pub runs : Duty → Text → Option Text → List World → DutyState → List (World × Text) × DutyState
unfolding answered
runs d input hint [] s = ([], s)
runs d input hint (w ∷ ws) s =
    let (s', effects) = dispatch w d input hint s in
    let (turns, last) = runs d input hint ws s' in (answered w effects ++ turns, last)

-- One run of a primed duty has nothing answered and stays, or has the range up to the head answered
-- and moves there.
record Moved (w : World) (repo input c : Text) (turns : List (World × Text)) (o : Option Text)
    : Type 0 where
  head : Text
  text : Text
  seen : head_of w.git repo ≡ some head
  names : Names input c head text
  answer : turns ≡ (w, text) ∷ []
  at : o ≡ some head

abbrev Ran : World → Text → Text → Text → List (World × Text) → Option Text → Type 0
Ran w repo input c turns o = ((turns ≡ []) × (o ≡ some c)) ⊎ Moved w repo input c turns o

prepared-Names :
    (git : Option Git) (input c h : Text) (hint : Option Text)
    → Names input c h (prepared git (with_range input c h) hint)
unfolding prepared with_range with_note
prepared-Names git input c h none = ([], sym (append-nil (with_range input c h)))
prepared-Names git input c h (some repo) = (
  codes "\n\n" ++ checkout_note git repo,
  append_assoc (with_range input c h) (codes "\n\n") (checkout_note git repo),
)

send-Ran :
    (w : World) (d : Duty) (repo input : Text) (hint : Option Text) (s : DutyState) (c h : Text)
    → head_of w.git repo ≡ some h
    → cursor s d.name ≡ some c
    → Ran w repo input c
        (answered w (send w d hint (some (with_range input c h, some h), s)).1)
        (cursor (send w d hint (some (with_range input c h, some h), s)).0 d.name)
unfolding send answered
send-Ran w d repo input hint s c h seen at =
    let same : (d.name =? d.name) ≡ true = (same_list_iff d.name d.name).1 refl in
    let text = prepared w.git (with_range input c h) hint in
    elim (Bool-cases (w.replies d.name text)) [
      | inl e ↦
          rw (e, cursor-set_cursor, same)
            (inr (record {
              head = h;
              text = text;
              seen = seen;
              names = prepared-Names w.git input c h hint;
              answer = refl;
              at = refl;
            }))
      | inr e ↦ rw e (inl (refl, at))
    ]

decided-Ran :
    (w : World) (d : Duty) (repo input : Text) (hint : Option Text) (s : DutyState) (c h : Text)
    → head_of w.git repo ≡ some h
    → cursor s d.name ≡ some c
    → Ran w repo input c
        (answered w (send w d hint (probe_decided d input h s (new_commits_decision (some c) h))).1)
        (cursor
          (send w d hint (probe_decided d input h s (new_commits_decision (some c) h))).0
          d.name)
unfolding probe_decided new_commits_decision
decided-Ran w d repo input hint s c h seen at = elim (Bool-cases (c =? h)) [
  | inl e ↦ rw e (unfold send answered in inl (refl, at))
  | inr e ↦ rw e (send-Ran w d repo input hint s c h seen at)
]

headed-Ran :
    (w : World) (d : Duty) (repo input : Text) (hint : Option Text) (s : DutyState) (c : Text)
    → cursor s d.name ≡ some c
    → (head : Option Text) → head_of w.git repo ≡ head
    → Ran w repo input c
        (answered w (send w d hint (probe_head d input head s)).1)
        (cursor (send w d hint (probe_head d input head s)).0 d.name)
unfolding probe_head
headed-Ran w d repo input hint s c at none seen = unfold send answered in inl (refl, at)
headed-Ran w d repo input hint s c at (some h) seen =
    rw at (decided-Ran w d repo input hint s c h seen at)

gated-Ran :
    (w : World) (d : Duty) (repo input : Text) (hint : Option Text) (s : DutyState) (c : Text)
    → cursor s d.name ≡ some c
    → (git : Option Git) → w.git ≡ git
    → Ran w repo input c
        (answered w (send w d hint (gated d input (some (new_commits repo)) git s)).1)
        (cursor (send w d hint (gated d input (some (new_commits repo)) git s)).0 d.name)
unfolding gated head_of
gated-Ran w d repo input hint s c at none e = unfold send answered in inl (refl, at)
gated-Ran w d repo input hint s c at (some g) e =
    headed-Ran w d repo input hint s c at (g.remote_head repo) (ap (λ x. head_of x repo) e)

dispatch-Ran :
    (w : World) (d : Duty) (repo input : Text) (hint : Option Text) (s : DutyState) (c : Text)
    → d.gate ≡ some (new_commits repo)
    → cursor s d.name ≡ some c
    → Ran w repo input c
        (answered w (dispatch w d input hint s).1)
        (cursor (dispatch w d input hint s).0 d.name)
unfolding dispatch
dispatch-Ran w d repo input hint s c gate at =
    subst
      (λ (g : Option Gate).
        Ran w repo input c (answered w (send w d hint (gated d input g w.git s)).1)
          (cursor (send w d hint (gated d input g w.git s)).0 d.name))
      (sym gate) (gated-Ran w d repo input hint s c at w.git refl)

-- Over any number of runs, whatever heads are seen and whichever turns fail, the texts that were
-- answered name ranges of commits that follow one another from the first cursor to the last: the
-- first begins at the cursor, each next where the one before it ended, each ends at the head of its
-- run, and the cursor is left where the last one ended.
pub runs-Chain :
    (d : Duty) (repo input : Text) (hint : Option Text) (ws : List World) (s : DutyState) (c : Text)
    → d.gate ≡ some (new_commits repo)
    → cursor s d.name ≡ some c
    → (to : Text) × (cursor (runs d input hint ws s).1 d.name ≡ some to)
      × Chain repo input c (runs d input hint ws s).0 to
unfolding runs Chain
runs-Chain d repo input hint [] s c gate at = (c, at, refl)
runs-Chain d repo input hint (w ∷ ws) s c gate at =
    step (λ k e. runs-Chain d repo input hint ws (dispatch w d input hint s).0 k gate e)
      (dispatch-Ran w d repo input hint s c gate at)
  where
    later : DutyState
    later = (dispatch w d input hint s).0

    step :
        ((k : Text)
          → cursor later d.name ≡ some k
          → (to : Text) × (cursor (runs d input hint ws later).1 d.name ≡ some to)
            × Chain repo input k (runs d input hint ws later).0 to)
        → Ran w repo input c (answered w (dispatch w d input hint s).1) (cursor later d.name)
        → (to : Text) × (cursor (runs d input hint ws later).1 d.name ≡ some to)
          × Chain repo input c
              (answered w (dispatch w d input hint s).1 ++ (runs d input hint ws later).0)
              to
    step ih (inl (none_sent, stays)) = rw none_sent (ih c stays)
    step ih (inr m) =
        let (to, ends, chain) = ih m.head m.at in
        rw m.answer (to, ends, (m.head, m.seen, m.names, chain))
