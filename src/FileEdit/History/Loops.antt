-- ===== src/FileEdit/History/Loops.antt =====
-- tools/file_edit.rs: repeated payloads are counted.
use kitaebot.Common.{
  ℕ, zero, suc, ◌+◌, ◌≤◌, ◌<◌, ◌≡◌, refl, sym, ap, subst, ◌∙◌, true, List, [], ◌∷◌, ◌++◌,
  append-nil, Text, some, length, leb, arith, list_key, nat_key, get, get-insert, Bool-cases, inl,
  inr, ==_iff,
}
use kitaebot.FileEdit.History.{
  EditHistory, is_tracked, tracked, ring_of, pushed_back, occurrences, record_futile,
}

abbrev times : ℕ → ℕ → List ℕ
times zero n = []
times (suc k) n = n ∷ times k n

-- The ring ends with a payload, so often.
record Ends (n k : ℕ) (ring : List ℕ) : Type 0 where
  pub pre : List ℕ
  pub parts : ring ≡ pre ++ times k n

times-snoc : (k n : ℕ) (xs : List ℕ) → (xs ++ times k n) ++ n ∷ [] ≡ xs ++ times (suc k) n
times-snoc k n (x ∷ xs) = ap (λ ys. x ∷ ys) (times-snoc k n xs)
times-snoc zero n [] = refl
times-snoc (suc k) n [] = ap (λ ys. n ∷ ys) (times-snoc k n [])

length-times : (k n : ℕ) → length (times k n) ≡ k
length-times zero n = refl
length-times (suc k) n = omega (arith, length-times k n)

pushed_back-Ends :
    (n k : ℕ) (pre : List ℕ) → k < 8 → Ends n (suc k) (pushed_back n (pre ++ times k n))
unfolding pushed_back
pushed_back-Ends n k [] h = elim (Bool-cases (leb 8 (length (times k n)))) [
  | inl full ↦ absurd (ground (arith, length-times k n))
  | inr room ↦ rw room (record { pre = []; parts = times-snoc k n [] })
]
pushed_back-Ends n k (x ∷ pre) h = elim (Bool-cases (leb 8 (length (x ∷ pre ++ times k n)))) [
  | inl full ↦ rw full (record { pre = pre; parts = times-snoc k n pre })
  | inr room ↦ rw room (record { pre = x ∷ pre; parts = times-snoc k n (x ∷ pre) })
]

occurrences-times : (n k : ℕ) (pre : List ℕ) → k ≤ occurrences n (pre ++ times k n)
unfolding occurrences
occurrences-times n k (x ∷ pre) = ground (arith, occurrences-times n k pre)
occurrences-times n zero [] = omega arith
occurrences-times n (suc k) [] = ground (arith, occurrences-times n k [], ==_iff n n)

get-is_tracked :
    (p : Text) (ring : List ℕ) (m : List (Text × List ℕ))
    → get p m ≡ some ring
    → is_tracked p m ≡ true
unfolding get is_tracked
get-is_tracked p ring [] h = cc
get-is_tracked p ring ((q, r) ∷ m) h = ground (arith, get-is_tracked p ring m)

-- What a path has behind a record.
recorded :
    (p : Text) (n : ℕ) (h : EditHistory)
    → get p (record_futile p n h).0.by_path
      ≡ some (pushed_back n (ring_of (get p (tracked p h).by_path)))
unfolding record_futile
recorded p n h =
    get-insert p p (pushed_back n (ring_of (get p (tracked p h).by_path))) (tracked p h).by_path
    ∙ rw ((list_key {A = ℕ}).same_iff p p).1 refl

-- The history behind so many attempts of one payload in a row.
unfoldable pub again : ℕ → Text → ℕ → EditHistory → EditHistory
again zero p n h = h
again (suc k) p n h = (record_futile p n (again k p n h)).0

counted :
    (p : Text) (n : ℕ) (h : EditHistory)
    → (record_futile p n h).1
      ≡ occurrences n (pushed_back n (ring_of (get p (tracked p h).by_path)))
unfolding record_futile
counted p n h = refl

tracked_old : (p : Text) (h : EditHistory) → is_tracked p h.by_path ≡ true → tracked p h ≡ h
unfolding tracked
tracked_old p h e = rw e

-- The ring that the next attempt finds.
ring_behind :
    (p : Text) (n k : ℕ) (h : EditHistory)
    → k < 8
    → Ends n k (ring_of (get p (tracked p (again k p n h)).by_path))
unfolding again pushed_back ring_of
ring_behind p n zero h lt = record {
  pre = ring_of (get p (tracked p h).by_path);
  parts = sym (append-nil (ring_of (get p (tracked p h).by_path)));
}
ring_behind p n (suc k) h lt =
    let before = again k p n h in
    let ih = ring_behind p n k h (omega arith) in
    let ring = pushed_back n (ring_of (get p (tracked p before).by_path)) in
    let found = recorded p n before in
    let kept =
      tracked_old p (record_futile p n before).0
        (get-is_tracked p ring (record_futile p n before).0.by_path found) in
    let here : ring_of (get p (tracked p (record_futile p n before).0).by_path) ≡ ring =
      ap (λ (g : EditHistory). ring_of (get p g.by_path)) kept ∙ ap ring_of found in
    subst (Ends n (suc k)) (sym (here ∙ ap (pushed_back n) ih.parts))
      (pushed_back-Ends n k ih.pre (omega arith))

-- Among at most eight attempts of one payload in a row, number `k` is counted as the `k`th at
-- least, whatever was recorded before: the third meets the limit.
pub record_futile-again :
    (p : Text) (n k : ℕ) (h : EditHistory) → k < 8 → k + 1 ≤ (record_futile p n (again k p n h)).1
record_futile-again p n k h lt =
    let ends = ring_behind p n k h lt in
    let more = pushed_back-Ends n k ends.pre lt in
    let count = occurrences-times n (suc k) more.pre in
    let same : (record_futile p n (again k p n h)).1 ≡ occurrences n (more.pre ++ times (suc k) n) =
      counted p n (again k p n h)
      ∙ ap (λ ring. occurrences n (pushed_back n ring)) ends.parts
      ∙ ap (occurrences n) more.parts in
    omega arith
