-- ===== src/Lcm/Store/Ordered.antt =====
-- context/lcm/engine.rs: the order of the context items, and what statements do to a run of them.
use kitaebot.Common.{
  Bool, Bool-cases, inl, inr, bind-ok, ok_injective, ℕ, suc, ◌≤◌, ◌<◌, ◌≡◌, refl, ap, ◌∙◌, subst,
  List, [], ◌∷◌, ◌++◌, Result, ok, err, keep_if, not, arith, ltb, ◌==◌, map, max,
}
use kitaebot.Lcm.Store.{
  Item, EngineError, constraint, insert_item, in_range, delete_between, next_of,
}

-- Items in strictly ascending order of their ordinals, all from `lo` on and below `hi`.
unfoldable pub Span : ℕ → List Item → ℕ → Type 0
Span lo [] hi = lo ≤ hi
Span lo (i ∷ is) hi = (lo ≤ i.ordinal) × Span (suc i.ordinal) is hi

pub Span-le : (lo : ℕ) (is : List Item) (hi : ℕ) → Span lo is hi → lo ≤ hi
unfolding Span
Span-le lo [] hi h = h
Span-le lo (i ∷ is) hi (le, h) = let ih = Span-le (suc i.ordinal) is hi h in omega arith

pub Span-from : (lo lo' : ℕ) (is : List Item) (hi : ℕ) → lo' ≤ lo → Span lo is hi → Span lo' is hi
unfolding Span
Span-from lo lo' [] hi le h = omega arith
Span-from lo lo' (i ∷ is) hi le (le', h) = (omega arith, h)

pub Span-append :
    (lo : ℕ) (is : List Item) (mid : ℕ) (js : List Item) (hi : ℕ)
    → Span lo is mid
    → Span mid js hi
    → Span lo (is ++ js) hi
unfolding Span
Span-append lo [] mid js hi h h' = Span-from mid lo js hi h h'
Span-append lo (i ∷ is) mid js hi (le, h) h' = (le, Span-append (suc i.ordinal) is mid js hi h h')

-- Where two runs meet.
pub Span-split :
    (lo : ℕ) (is js : List Item) (hi : ℕ)
    → Span lo (is ++ js) hi
    → (mid : ℕ) × Span lo is mid × Span mid js hi
unfolding Span
Span-split lo [] js hi h = (lo, omega arith, h)
Span-split lo (i ∷ is) js hi (le, h) =
    let (mid, h', h'') = Span-split (suc i.ordinal) is js hi h in (mid, (le, h'), h'')

keep_below :
    (lo : ℕ) (is : List Item) (first last : ℕ)
    → Span lo is first
    → keep_if (λ i. not (in_range first last i)) is ≡ is
unfolding Span in_range
keep_below lo [] first last h = refl
keep_below lo (i ∷ is) first last (le, h) =
    let ih = keep_below (suc i.ordinal) is first last h in
    let lt = Span-le (suc i.ordinal) is first h in ground arith

keep_above :
    (lo : ℕ) (is : List Item) (hi first last : ℕ)
    → Span lo is hi
    → last < lo
    → keep_if (λ i. not (in_range first last i)) is ≡ is
unfolding Span in_range
keep_above lo [] hi first last h lt = refl
keep_above lo (i ∷ is) hi first last (le, h) lt =
    let ih = keep_above (suc i.ordinal) is hi first last h (omega arith) in ground arith

drop_inside :
    (lo : ℕ) (is : List Item) (first last : ℕ)
    → Span lo is (suc last)
    → first ≤ lo
    → keep_if (λ i. not (in_range first last i)) is ≡ []
unfolding Span in_range
drop_inside lo [] first last h le = refl
drop_inside lo (i ∷ is) first last (le', h) le =
    let ih = drop_inside (suc i.ordinal) is first last h (omega arith) in
    let lt = Span-le (suc i.ordinal) is (suc last) h in ground arith

keep_if-append :
    (p : Item → Bool) (xs ys : List Item) → keep_if p (xs ++ ys) ≡ keep_if p xs ++ keep_if p ys
keep_if-append p [] ys = refl
keep_if-append p (x ∷ xs) ys = elim (Bool-cases (p x)) [
  | inl e ↦ rw (e, keep_if-append p xs ys) refl
  | inr e ↦ rw (e, keep_if-append p xs ys) refl
]

insert_between :
    (lo : ℕ) (pre : List Item) (i : Item) (post : List Item) (hi : ℕ)
    → Span lo pre i.ordinal
    → Span (suc i.ordinal) post hi
    → insert_item i (pre ++ post) ≡ ok (pre ++ i ∷ post)
unfolding Span insert_item
insert_between lo [] i [] hi h h' = refl
insert_between lo [] i (j ∷ js) hi h (le, h') = ground arith
insert_between lo (j ∷ js) i post hi (le, h) h' =
    let ih = insert_between (suc j.ordinal) js i post hi h h' in
    let lt = Span-le (suc j.ordinal) js i.ordinal h in ground (arith, ih)

delete_run :
    (lo : ℕ) (pre run post : List Item) (first last hi : ℕ)
    → Span lo pre first
    → Span first run (suc last)
    → Span (suc last) post hi
    → first ≤ last
    → delete_between first last (pre ++ (run ++ post)) ≡ pre ++ post
unfolding delete_between
delete_run lo pre run post first last hi h h' h'' le =
    let p = λ (j : Item). not (in_range first last j) in
    let a = keep_below lo pre first last h in
    let b = drop_inside first run first last h' (omega arith) in
    let c = keep_above (suc last) post hi first last h'' (omega arith) in
    keep_if-append p pre (run ++ post)
    ∙ ap (λ xs. keep_if p pre ++ xs) (keep_if-append p run post)
    ∙ ap (λ xs. xs ++ (keep_if p run ++ keep_if p post)) a
    ∙ ap (λ xs. pre ++ (xs ++ keep_if p post)) b
    ∙ ap (λ xs. pre ++ xs) c

-- A run of items that is replaced by one item at its first ordinal.
pub replace_run :
    (lo : ℕ) (pre run post : List Item) (i : Item) (last hi : ℕ)
    → Span lo pre i.ordinal
    → Span i.ordinal run (suc last)
    → i.ordinal ≤ last
    → Span (suc last) post hi
    → insert_item i (delete_between i.ordinal last (pre ++ (run ++ post))) ≡ ok (pre ++ i ∷ post)
replace_run lo pre run post i last hi h h' le h'' =
    rw (delete_run lo pre run post i.ordinal last hi h h' h'' le) (
      insert_between lo pre i post hi h
        (Span-from (suc last) (suc i.ordinal) post hi (omega arith) h''))

pub replaced-Span :
    (lo : ℕ) (pre post : List Item) (i : Item) (last hi : ℕ)
    → Span lo pre i.ordinal
    → i.ordinal ≤ last
    → Span (suc last) post hi
    → Span lo (pre ++ i ∷ post) hi
unfolding Span
replaced-Span lo pre post i last hi h le h' =
    Span-append lo pre i.ordinal (i ∷ post) hi h
      (omega arith, Span-from (suc last) (suc i.ordinal) post hi (omega arith) h')

-- Every item lies below the next ordinal.
pub Span-next :
    (lo : ℕ) (is : List Item) (hi : ℕ)
    → Span lo is hi
    → Span lo is (max lo (next_of (map (λ i. i.ordinal) is)))
unfolding Span next_of
Span-next lo [] hi h = omega arith
Span-next lo (i ∷ is) hi (le, h) =
    (le, subst (Span (suc i.ordinal) is) (omega arith) (Span-next (suc i.ordinal) is hi h))

-- A new item goes behind all others.
pub insert_next :
    (lo : ℕ) (is : List Item) (i : Item)
    → Span lo is i.ordinal
    → insert_item i is ≡ ok (is ++ i ∷ [])
unfolding Span insert_item
insert_next lo [] i h = refl
insert_next lo (j ∷ js) i (le, h) =
    let ih = insert_next (suc j.ordinal) js i h in
    let lt = Span-le (suc j.ordinal) js i.ordinal h in ground (arith, ih)

pub Span-to : (lo : ℕ) (is : List Item) (hi hi' : ℕ) → hi ≤ hi' → Span lo is hi → Span lo is hi'
unfolding Span
Span-to lo [] hi hi' le h = omega arith
Span-to lo (i ∷ is) hi hi' le (le', h) = (le', Span-to (suc i.ordinal) is hi hi' le h)

keep_if-Span :
    (p : Item → Bool) (lo : ℕ) (is : List Item) (hi : ℕ) → Span lo is hi → Span lo (keep_if p is) hi
unfolding Span
keep_if-Span p lo [] hi h = h
keep_if-Span p lo (i ∷ is) hi (le, h) = elim (Bool-cases (p i)) [
  | inl e ↦ rw (keep_if, e) (le, keep_if-Span p (suc i.ordinal) is hi h)
  | inr e ↦
      rw (keep_if, e)
        (Span-from (suc i.ordinal) lo (keep_if p is) hi (omega arith)
          (keep_if-Span p (suc i.ordinal) is hi h))
]

insert_item-Span :
    (i : Item) (lo : ℕ) (js js' : List Item) (hi : ℕ)
    → Span lo js hi
    → lo ≤ i.ordinal
    → i.ordinal < hi
    → insert_item i js ≡ ok js'
    → Span lo js' hi
unfolding insert_item Span
insert_item-Span i lo [] js' hi h le lt e =
    let e' = ok_injective (i ∷ []) js' e in subst (λ is. Span lo is hi) e' (le, omega arith)
insert_item-Span i lo (j ∷ js) js' hi (le', h) le lt e =
    elim (Bool-cases (ltb i.ordinal j.ordinal)) [
      | inl f ↦
          let e' = ok_injective (i ∷ j ∷ js) js' (rw (insert_item, f) at e) in
          subst (λ is. Span lo is hi) e' (le, (ground arith, h))
      | inr f ↦ elim (Bool-cases (i.ordinal == j.ordinal)) [
        | inl g ↦
            let e' : (◌≡◌ {A = Result EngineError (List Item)} (err constraint) (ok js')) =
              rw (insert_item, f, g) at e in
            cc
        | inr g ↦
            let (rest, a, b) = bind-ok (insert_item i js) _ js' (rw (insert_item, f, g) at e) in
            let ih = insert_item-Span i (suc j.ordinal) js rest hi h (ground arith) lt a in
            subst (λ is. Span lo is hi) (ok_injective (j ∷ rest) js' b) (le', ih)
      ]
    ]

-- Items in strictly ascending order of their ordinals.
unfoldable pub Ascending : List Item → Type 0
unfolding Span
Ascending items = (hi : ℕ) × Span 0 items hi

pub replaced-Ascending :
    (i : Item) (first last : ℕ) (items items' : List Item)
    → Ascending items
    → insert_item i (delete_between first last items) ≡ ok items'
    → Ascending items'
unfolding Ascending delete_between
replaced-Ascending i first last items items' (hi, h) e =
    let p = λ (j : Item). not (in_range first last j) in
    let top = max hi (suc i.ordinal) in
    (
      top,
      insert_item-Span i 0 (keep_if p items) items' top
          (Span-to 0 (keep_if p items) hi top (omega arith) (keep_if-Span p 0 items hi h))
          (omega arith) (omega arith) e,
    )
