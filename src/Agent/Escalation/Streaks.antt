-- ===== src/Agent/Escalation/Streaks.antt =====
-- agent/escalation.rs: the tier of a turn from the turns before it.
use kitaebot.Common.{
  ℕ, zero, suc, ◌≡◌, ◌↔◌, refl, ap, sym, subst, ◌∙◌, Bool, true, false, not, ◌||◌, List, [], ◌∷◌,
  ◌++◌, Text, ◌=?◌, list_key, nat_key, if◌then◌else◌, arith, Bool-cases, inl, inr,
}
use kitaebot.Agent.Escalation.{
  ProviderTier, default, retry, Escalations, has_row, tier, insert_row, delete_row, record_turn,
}

-- The table after root turns, newest first: each with its task and whether it ran into its cap.
unfoldable pub table_after : List (Text × Bool) → Escalations
table_after [] = []
table_after ((task, capped) ∷ earlier) =
    let rows = table_after earlier in (record_turn task (tier task rows) capped rows).0

-- The length of the newest run of capped turns of a task.
unfoldable pub streak : Text → List (Text × Bool) → ℕ
streak task [] = 0
streak task ((t, capped) ∷ earlier) =
    let rest = streak task earlier in if t =? task then (if capped then suc rest else 0) else rest

unfoldable pub odd : ℕ → Bool
odd zero = false
odd (suc n) = not (odd n)

same : (a b : Text) → ((a =? b) ≡ true) ↔ (a ≡ b)
same a b = (list_key {A = ℕ}).same_iff a b

has_row-delete_row :
    (task : Text) (rows : Escalations) → has_row task (delete_row task rows) ≡ false
unfolding has_row delete_row
has_row-delete_row task [] = refl
has_row-delete_row task (r ∷ rs) = let ih = has_row-delete_row task rs in ground arith

delete_row_other :
    (task other : Text) (rows : Escalations)
    → (other =? task) ≡ false
    → has_row task (delete_row other rows) ≡ has_row task rows
unfolding has_row delete_row
delete_row_other task other [] h = refl
delete_row_other task other (r ∷ rs) h =
    let ih = delete_row_other task other rs h in
    elim (Bool-cases (r =? other)) [
      | inl e ↦
          let same_task = (same r other).0 e in
          let off : (r =? task) ≡ false = subst (λ t. (t =? task) ≡ false) (sym same_task) h in
          rw (has_row, delete_row, e, off) ih
      | inr e ↦ rw (has_row, delete_row, e) (ap (λ b. (r =? task) || b) ih)
    ]

any-snoc :
    (task t : Text) (rows : Escalations)
    → has_row task (rows ++ t ∷ []) ≡ (has_row task rows || (t =? task))
unfolding has_row
any-snoc task t [] = ground arith
any-snoc task t (r ∷ rs) = let ih = any-snoc task t rs in ground arith

insert_row_other :
    (task other : Text) (rows : Escalations)
    → (other =? task) ≡ false
    → has_row task (insert_row other rows) ≡ has_row task rows
unfolding insert_row
insert_row_other task other rows h =
    let added = any-snoc task other rows in
    elim (Bool-cases (has_row other rows)) [
      | inl e ↦ rw (insert_row, e) refl
      | inr e ↦ rw (insert_row, e) (ground arith)
    ]

has_row-insert_row : (task : Text) (rows : Escalations) → has_row task (insert_row task rows) ≡ true
unfolding insert_row
has_row-insert_row task rows =
    let added = any-snoc task task rows in
    let self = (same task task).1 refl in
    elim (Bool-cases (has_row task rows)) [
      | inl e ↦ rw (insert_row, e) e
      | inr e ↦ rw (insert_row, e) (ground arith)
    ]

record_turn_other :
    (task other : Text) (t : ProviderTier) (capped : Bool) (rows : Escalations)
    → (other =? task) ≡ false
    → has_row task (record_turn other t capped rows).0 ≡ has_row task rows
unfolding record_turn
record_turn_other task other default true rows h = insert_row_other task other rows h
record_turn_other task other retry true rows h = delete_row_other task other rows h
record_turn_other task other t false rows h = delete_row_other task other rows h

-- A capped turn turns the row over, and any other turn deletes it.
record_turn_same :
    (task : Text) (capped : Bool) (rows : Escalations)
    → has_row task (record_turn task (tier task rows) capped rows).0
      ≡ (if capped then not (has_row task rows) else false)
unfolding record_turn tier
record_turn_same task false rows = has_row-delete_row task rows
record_turn_same task true rows = elim (Bool-cases (has_row task rows)) [
  | inl e ↦ rw (record_turn, tier, e) (has_row-delete_row task rows)
  | inr e ↦ rw (record_turn, tier, e) (has_row-insert_row task rows)
]

turned :
    (capped b : Bool) (n : ℕ)
    → b ≡ odd n
    → (if capped then not b else false) ≡ odd (if capped then suc n else 0)
unfolding odd
turned true b n h = ap not h
turned false b n h = refl

has_row-odd :
    (task : Text) (turns : List (Text × Bool))
    → has_row task (table_after turns) ≡ odd (streak task turns)
unfolding table_after streak odd has_row
has_row-odd task [] = refl
has_row-odd task ((t, capped) ∷ earlier) =
    let ih = has_row-odd task earlier in
    let rows = table_after earlier in
    elim (Bool-cases (t =? task)) [
      | inl e ↦
          rw (streak, e)
            (subst
              (λ u.
                has_row task (record_turn u (tier u rows) capped rows).0
                ≡ odd (if capped then suc (streak task earlier) else 0))
              (sym ((same t task).0 e))
              (record_turn_same task capped rows
                ∙ turned capped (has_row task rows) (streak task earlier) ih))
      | inr e ↦ rw (streak, e) (record_turn_other task t (tier t rows) capped rows e ∙ ih)
    ]

-- Over any series of root turns, each given the tier that the table asks for and recorded with
-- whether it ran into its cap, a turn is given the retry tier exactly when the newest run of capped
-- turns of its own task is of odd length.
pub tier-table_after :
    (task : Text) (turns : List (Text × Bool))
    → tier task (table_after turns) ≡ (if odd (streak task turns) then retry else default)
unfolding tier
tier-table_after task turns = rw (has_row-odd task turns) refl
