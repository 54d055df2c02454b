-- ===== src/FileEdit/History/Kept.antt =====
-- tools/file_edit.rs: the bounds of `EditHistory`.
use kitaebot.Common.{
  ℕ, ◌≤◌, ◌≡◌, refl, sym, ap, subst, ◌∙◌, true, false, not, List, [], ◌∷◌, ◌++◌, Text, length,
  length-append, keep_if, leb, arith, All, Bool-cases, inl, inr, ◌=?◌, list_key, nat_key, get,
  insert, if◌then◌else◌,
}
use kitaebot.FileEdit.History.{
  EditHistory, no_edits, remove, is_tracked, evict, tracked, ring_of, pushed_back, record_futile,
  clear,
}
use kitaebot.FileEdit.History.Keys.{
  keys, is_in, Distinct, Short, is_tracked-keys, keys-remove, keep_all, is_in-keep_if,
  Distinct-keep_if, length-keep_if, Distinct-snoc, Short-remove, Short-insert, Short-get,
  keys-insert_new, keys-insert_old, length-pushed_back,
}

-- At most 32 paths are tracked, in the order of their first record and each once, with at most 8
-- payloads each.
pub record Kept (h : EditHistory) : Type 0 where
  pub ordered : h.order ≡ keys h.by_path
  pub distinct : Distinct (keys h.by_path)
  pub few : length h.order ≤ 32
  pub short : All Short h.by_path

length-keys : (m : List (Text × List ℕ)) → length (keys m) ≡ length m
length-keys [] = refl
length-keys (e ∷ m) = omega (arith, length-keys m)

-- A table with room for one more path.
record Roomy (h : EditHistory) : Type 0 where
  pub ordered : h.order ≡ keys h.by_path
  pub distinct : Distinct (keys h.by_path)
  pub few : length h.order ≤ 31
  pub short : All Short h.by_path

-- Where the table is full, the oldest path goes.
evict-Roomy :
    (h : EditHistory) (order : List Text) → order ≡ h.order → Kept h → Roomy (evict h order)
unfolding evict
evict-Roomy h [] e k = record {
  ordered = k.ordered;
  distinct = k.distinct;
  few = omega (arith, ap length e);
  short = k.short;
}
evict-Roomy h (oldest ∷ order) e k =
    let same : keys h.by_path ≡ oldest ∷ order = sym k.ordered ∙ sym e in
    let parts : Distinct (oldest ∷ order) = subst Distinct same k.distinct in
    let left : keys (remove oldest h.by_path) ≡ order =
      keys-remove oldest h.by_path
      ∙ ap (keep_if (λ q. not (q =? oldest))) same
      ∙ gone oldest order parts.0 in
    record {
      ordered = sym left;
      distinct = subst Distinct (sym left) parts.1;
      few = omega (arith, ap length e, k.few);
      short = Short-remove oldest h.by_path k.short;
    }
  where
    gone :
        (oldest : Text) (order : List Text)
        → is_in oldest order ≡ false
        → keep_if (λ q. not (q =? oldest)) (oldest ∷ order) ≡ order
    gone oldest order n =
        ground (arith, keep_all oldest order, (list_key {A = ℕ}).same_iff oldest oldest)

-- The table that a new path is recorded in.
room_for : EditHistory → EditHistory
room_for h = if leb 32 (length h.by_path) then evict h h.order else h

room_for-Roomy : (h : EditHistory) → Kept h → Roomy (room_for h)
unfolding room_for
room_for-Roomy h k = elim (Bool-cases (leb 32 (length h.by_path))) [
  | inl full ↦ rw full (evict-Roomy h h.order refl k)
  | inr room ↦ rw room (record {
    ordered = k.ordered;
    distinct = k.distinct;
    few = ground (arith, ap length k.ordered, length-keys h.by_path);
    short = k.short;
  })
]

-- A path is new to the table with room, if it is new.
room_for-is_in :
    (p : Text) (h : EditHistory)
    → is_in p (keys h.by_path) ≡ false
    → is_in p (keys (room_for h).by_path) ≡ false
unfolding room_for
room_for-is_in p h n = elim (Bool-cases (leb 32 (length h.by_path))) [
  | inl full ↦ rw full (after_evict h.order)
  | inr room ↦ rw room n
]
  where
    after_evict : (order : List Text) → is_in p (keys (evict h order).by_path) ≡ false
    after_evict [] = unfold evict in n
    after_evict (oldest ∷ order) =
        unfold evict in
        subst (λ ks. is_in p ks ≡ false) (sym (keys-remove oldest h.by_path))
          (is_in-keep_if p oldest (keys h.by_path) n)

record_futile_new :
    (p : Text) (n : ℕ) (h : EditHistory)
    → is_tracked p h.by_path ≡ false
    → (record_futile p n h).0 ≡ record {
      by_path =
          insert p (pushed_back n (ring_of (get p (room_for h).by_path))) (room_for h).by_path;
      order = (room_for h).order ++ p ∷ [];
    }
unfolding record_futile tracked room_for
record_futile_new p n h e = rw e

record_futile_old :
    (p : Text) (n : ℕ) (h : EditHistory)
    → is_tracked p h.by_path ≡ true
    → (record_futile p n h).0
      ≡ record h { by_path = insert p (pushed_back n (ring_of (get p h.by_path))) h.by_path }
unfolding record_futile tracked
record_futile_old p n h e = rw e

record_futile-Kept : (p : Text) (n : ℕ) (h : EditHistory) → Kept h → Kept (record_futile p n h).0
record_futile-Kept p n h k = elim (Bool-cases (is_tracked p h.by_path)) [
  | inl e ↦
      let inside = sym (is_tracked-keys p h.by_path) ∙ e in
      let ring = pushed_back n (ring_of (get p h.by_path)) in
      let same = keys-insert_old p ring h.by_path inside in
      subst Kept (sym (record_futile_old p n h e)) (record {
        ordered = k.ordered ∙ sym same;
        distinct = subst Distinct (sym same) k.distinct;
        few = k.few;
        short =
            Short-insert p ring h.by_path
              (length-pushed_back n (ring_of (get p h.by_path)) (Short-get p h.by_path k.short))
              k.short;
      })
  | inr e ↦
      let r = room_for-Roomy h k in
      let outside = room_for-is_in p h (sym (is_tracked-keys p h.by_path) ∙ e) in
      let m = (room_for h).by_path in
      let ring = pushed_back n (ring_of (get p m)) in
      let same = keys-insert_new p ring m outside in
      subst Kept (sym (record_futile_new p n h e)) (record {
        ordered = ap (λ ps. ps ++ p ∷ []) r.ordered ∙ sym same;
        distinct = subst Distinct (sym same) (Distinct-snoc p (keys m) r.distinct outside);
        few = omega (arith, r.few, length-append (room_for h).order (p ∷ []));
        short =
            Short-insert p ring m (length-pushed_back n (ring_of (get p m)) (Short-get p m r.short))
              r.short;
      })
]

clear-Kept : (p : Text) (h : EditHistory) → Kept h → Kept (clear p h)
unfolding clear
clear-Kept p h k = elim (Bool-cases (is_tracked p h.by_path)) [
  | inl e ↦
      let same = keys-remove p h.by_path in
      rw e (record {
        ordered = ap (keep_if (λ q. not (q =? p))) k.ordered ∙ sym same;
        distinct = subst Distinct (sym same) (Distinct-keep_if p (keys h.by_path) k.distinct);
        few = omega (arith, k.few, length-keep_if p h.order);
        short = Short-remove p h.by_path k.short;
      })
  | inr e ↦ rw e k
]

pub data Op : Type 0 where
  attempted : Text → ℕ → Op
  changed : Text → Op

-- The history after operations, the newest first.
unfoldable pub history_after : List Op → EditHistory
history_after [] = no_edits
history_after (attempted p n ∷ ops) = (record_futile p n (history_after ops)).0
history_after (changed p ∷ ops) = clear p (history_after ops)

-- Whatever futile attempts are recorded and whichever paths are cleared, the history tracks at most
-- 32 paths, each once and in the order of their first record, with at most 8 payloads each.
pub history_after-Kept : (ops : List Op) → Kept (history_after ops)
unfolding history_after
history_after-Kept [] = record { ordered = refl; distinct = tt; few = omega arith; short = tt }
history_after-Kept (attempted p n ∷ ops) =
    record_futile-Kept p n (history_after ops) (history_after-Kept ops)
history_after-Kept (changed p ∷ ops) = clear-Kept p (history_after ops) (history_after-Kept ops)
