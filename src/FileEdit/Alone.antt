-- ===== src/FileEdit/Alone.antt =====
-- tools/file_edit.rs: where else a file could match.
use kitaebot.Common.{
  ℕ, suc, ◌+◌, ◌-◌, ◌<◌, ◌≤◌, ◌≡◌, ◌≢◌, inl, inr, refl, sym, ap, subst, ◌∙◌, Bool, true, false,
  List, [], ◌∷◌, ◌++◌, map, In, Text, length, length-append, drop, arith, append_assoc, leb,
  Bool-cases, ◌=?◌, list_key, nat_key, if◌then◌else◌,
}
use kitaebot.FileEdit.Lines.{lines}
use kitaebot.FileEdit.Matching.{
  Span, starts_with, match_indices, window_fits, window_len, spans_from, windows_of, window_spans,
}
use kitaebot.FileEdit.Exact.{scan}
use kitaebot.FileEdit.Windows.{ended, nl}

-- The lines of a file have these lines in a row, behind the lines `before`.
pub record Stands (normalize : Text → Text) (content old : Text) (before : List Text) : Type 0 where
  pub first : Text
  pub others : List Text
  pub after : List Text
  pub split : lines content ≡ before ++ (first ∷ others ++ after)
  pub fits : map normalize (first ∷ others) ≡ map normalize (lines old)

module _ (normalize : Text → Text) where
  window_fits-front :
      (mid after : List Text) → window_fits normalize (map normalize mid) (mid ++ after) ≡ true
  unfolding window_fits
  window_fits-front [] after = refl
  window_fits-front (l ∷ mid) after =
      let same : (normalize l =? normalize l) ≡ true =
        ((list_key {A = ℕ}).same_iff (normalize l) (normalize l)).1 refl in
      rw same (window_fits-front mid after)

  -- Every place where the lines stand has a span.
  spans_from-complete :
      (before : List Text) (l : Text) (mid after : List Text) (offset : ℕ)
      → (len : ℕ) × In
          (record { start = offset + length (ended before); len = len })
          (spans_from normalize offset (map normalize (l ∷ mid)) (before ++ (l ∷ mid ++ after)))
  unfolding spans_from
  spans_from-complete [] l mid after offset =
      let fits = window_fits-front (l ∷ mid) after in
      (
        window_len (length (map normalize (l ∷ mid))) (l ∷ mid ++ after),
        rw fits (
            inl (
              ap
                (λ n. record {
                  start = n;
                  len = window_len (length (map normalize (l ∷ mid))) (l ∷ mid ++ after);
                })
                (omega arith))),
      )
  spans_from-complete (k ∷ before) l mid after offset =
      let (len, i) = spans_from-complete before l mid after (offset + length k + 1) in
      let place : offset + length k + 1 + length (ended before)
          ≡ offset + length (ended (k ∷ before)) =
        omega (arith, length-append k (nl ++ ended before)) in
      (
        len,
        behind _ _ _
            (window_fits normalize (map normalize (l ∷ mid)) (k ∷ (before ++ (l ∷ mid ++ after))))
            (subst
              (λ n.
                In (record { start = n; len = len })
                  (spans_from normalize (offset + length k + 1) (map normalize (l ∷ mid))
                    (before ++ (l ∷ mid ++ after))))
              place i),
      )
    where
      behind : (s t : Span) (ss : List Span) (b : Bool) → In s ss → In s (if b then t ∷ ss else ss)
      behind s t ss true i = inr i
      behind s t ss false i = i

  window_spans-Stands :
      (content old : Text) (before : List Text)
      → Stands normalize content old before
      → (len : ℕ) × In
          (record { start = length (ended before); len = len })
          (window_spans normalize content old)
  unfolding window_spans windows_of
  window_spans-Stands content old before w =
      let (len, j) = spans_from-complete before w.first w.others w.after 0 in
      let from_start : 0 + length (ended before) ≡ length (ended before) = omega arith in
      let i =
        subst
          (λ n.
            In (record { start = n; len = len })
              (spans_from normalize 0 (map normalize (w.first ∷ w.others))
                (before ++ (w.first ∷ w.others ++ w.after))))
          from_start j in
      (
        len,
        subst (In _) (ap (windows_of normalize content) w.fits) (
            subst
              (λ ls.
                In (record { start = length (ended before); len = len })
                  (spans_from normalize 0 (map normalize (w.first ∷ w.others)) ls))
              (sym w.split) i),
      )

  -- Where there is no span the lines stand nowhere.
  pub nowhere :
      (content old : Text)
      → window_spans normalize content old ≡ []
      → (before : List Text) → ¬ Stands normalize content old before
  nowhere content old none_found before w =
      let (len, i) = window_spans-Stands content old before w in
      elim (subst (In _) none_found i) [ ]

  -- Where there is one span the lines stand at one place.
  pub only_place :
      (content old : Text) (span : Span)
      → window_spans normalize content old ≡ span ∷ []
      → (before : List Text) → Stands normalize content old before
      → length (ended before) ≡ span.start
  only_place content old span one before w =
      let (len, i) = window_spans-Stands content old before w in
      elim (subst (In _) one i) [
        | inl e ↦ ap (λ (s : Span). s.start) e
        | inr later ↦ elim later [ ]
      ]

  -- A span starts at or behind the offset of its lines.
  spans_from-start :
      (needle ls : List Text) (offset : ℕ) (t : Span)
      → In t (spans_from normalize offset needle ls)
      → offset ≤ t.start
  unfolding spans_from
  spans_from-start needle [] offset t i = elim i [ ]
  spans_from-start needle (l ∷ ls) offset t i =
      go (window_fits normalize needle (l ∷ ls)) i
        (spans_from-start needle ls (offset + length l + 1) t)
    where
      go :
          (b : Bool)
          → In t (
              if b
              then record { start = offset; len = window_len (length needle) (l ∷ ls) }
                ∷ spans_from normalize (offset + length l + 1) needle ls
              else spans_from normalize (offset + length l + 1) needle ls)
          → (In t (spans_from normalize (offset + length l + 1) needle ls)
              → offset + length l + 1 ≤ t.start)
          → offset ≤ t.start
      go true (inl e) ih = omega (arith, ap (λ (s : Span). s.start) e)
      go true (inr j) ih = omega (arith, ih j)
      go false j ih = omega (arith, ih j)

  spans_from-rising :
      (needle ls : List Text) (offset : ℕ) (s t : Span) (ss : List Span)
      → spans_from normalize offset needle ls ≡ s ∷ t ∷ ss
      → s.start < t.start
  unfolding spans_from
  spans_from-rising needle [] offset s t ss e = cc
  spans_from-rising needle (l ∷ ls) offset s t ss e =
      go (window_fits normalize needle (l ∷ ls)) e
        (spans_from-rising needle ls (offset + length l + 1) s t ss)
    where
      go :
          (b : Bool)
          → (if b
              then record { start = offset; len = window_len (length needle) (l ∷ ls) }
                ∷ spans_from normalize (offset + length l + 1) needle ls
              else spans_from normalize (offset + length l + 1) needle ls)
            ≡ s ∷ t ∷ ss
          → (spans_from normalize (offset + length l + 1) needle ls ≡ s ∷ t ∷ ss
              → s.start < t.start)
          → s.start < t.start
      go true k ih =
          let rest : spans_from normalize (offset + length l + 1) needle ls ≡ t ∷ ss = cc in
          let place : s.start ≡ offset = ap start_of (sym k) in
          let low =
            spans_from-start needle ls (offset + length l + 1) t
              (subst (In t) (sym rest) (inl refl)) in
          omega (arith, place, low)
        where
          start_of : List Span → ℕ
          start_of [] = 0
          start_of (s ∷ ss) = s.start
      go false k ih = ih k

  pub window_spans-rising :
      (content old : Text) (s t : Span) (ss : List Span)
      → window_spans normalize content old ≡ s ∷ t ∷ ss
      → s.start < t.start
  window_spans-rising content old s t ss e =
      go (map normalize (lines old)) (unfold window_spans in e)
    where
      go :
          (needle : List Text)
          → windows_of normalize content needle ≡ s ∷ t ∷ ss
          → s.start < t.start
      go [] k = unfold windows_of in cc
      go (n ∷ ns) k = spans_from-rising (n ∷ ns) (lines content) 0 s t ss (unfold windows_of in k)

-- The text stands in the file at the offset.
abbrev pub Occurs : Text → Text → ℕ → Type 0
Occurs old content k = starts_with old (drop k content) ≡ true

starts_with-front : (old post : Text) → starts_with old (old ++ post) ≡ true
unfolding starts_with
starts_with-front [] post = refl
starts_with-front (b ∷ old) post = rw ((nat_key.same_iff b b).1 refl) (starts_with-front old post)

drop-append : (xs ys : Text) (n : ℕ) → drop (length xs + n) (xs ++ ys) ≡ drop n ys
drop-append [] ys n = ap (λ k. drop k ys) (omega arith)
drop-append (x ∷ xs) ys n =
    let next : suc (length xs) + n ≡ suc (length xs + n) = omega arith in
    ap (λ k. drop k (x ∷ (xs ++ ys))) next ∙ drop-append xs ys n

front_place : (pre old post : Text) → Occurs old (pre ++ (old ++ post)) (length pre)
front_place pre old post =
    subst (λ t. starts_with old t ≡ true)
      (sym
        (ap (λ k. drop k (pre ++ (old ++ post))) (omega arith) ∙ drop-append pre (old ++ post) 0))
      (starts_with-front old post)

nil-ne-cons : {s : Span} {ss : List Span} → [] ≡ s ∷ ss → ⊥
nil-ne-cons e = cc

-- The one match overlaps every other occurrence.
pub one_place :
    (b : ℕ) (old content : Text) (span : Span)
    → match_indices (b ∷ old) 0 0 content ≡ span ∷ []
    → (k : ℕ) → Occurs (b ∷ old) content k
    → (span.start ≤ k) × (k < span.start + length (b ∷ old))
one_place b old content span h k here = elim (scan b old 0 content) [
  | inl (absent, empty) ↦ absurd (nil-ne-cons (sym empty ∙ h))
  | inr f ↦
      let both = sym h ∙ f.spans in
      let start : span.start ≡ 0 + length f.pre = ap (λ (s : Span). s.start) (heads both) in
      let (low, high) = near f.pre f.post f.whole f.first (sym (tails both)) in
      (omega (arith, start, low), omega (arith, start, high))
]
  where
    heads : {s t : Span} {ss ts : List Span} → s ∷ ss ≡ t ∷ ts → s ≡ t
    heads e = cc

    tails : {s t : Span} {ss ts : List Span} → s ∷ ss ≡ t ∷ ts → ss ≡ ts
    tails e = cc

    no_more :
        (p : ℕ) (post : Text)
        → match_indices (b ∷ old) p 0 post ≡ []
        → (j : ℕ) → starts_with (b ∷ old) (drop j post) ≡ false
    no_more p post none_left = elim (scan b old p post) [
      | inl (absent, empty) ↦ absent
      | inr f ↦ absurd (nil-ne-cons (sym none_left ∙ f.spans))
    ]

    near :
        (pre post : Text)
        → content ≡ pre ++ (b ∷ old ++ post)
        → ((j : ℕ) → j < length pre → starts_with (b ∷ old) (drop j content) ≡ false)
        → match_indices (b ∷ old) (0 + length pre + length (b ∷ old)) 0 post ≡ []
        → (length pre ≤ k) × (k < length pre + length (b ∷ old))
    near pre post whole first none_left = elim (Bool-cases (leb (length pre) k)) [
      | inr e ↦ absurd (
          let early : k < length pre = ground (arith, e) in
          true-ne-false (sym here ∙ first k early))
      | inl e ↦ elim (Bool-cases (leb (length pre + length (b ∷ old)) k)) [
        | inr f ↦ (ground (arith, e), ground (arith, f))
        | inl f ↦ absurd (
            let past : length pre + length (b ∷ old) ≤ k = ground (arith, f) in
            behind (k - (length pre + length (b ∷ old)))
              (omega (arith, length-append pre (b ∷ old), past)))
      ]
    ]
      where
        true-ne-false : true ≡ false → ⊥
        true-ne-false e = cc

        behind : (n : ℕ) → k ≡ length (pre ++ (b ∷ old)) + n → ⊥
        behind n at =
            let there : drop k content ≡ drop n post =
              ap (λ n. drop n content) at
              ∙ ap (drop (length (pre ++ (b ∷ old)) + n))
                  (whole ∙ sym (append_assoc pre (b ∷ old) post))
              ∙ drop-append (pre ++ (b ∷ old)) post n in
            true-ne-false (sym here ∙ ap (starts_with (b ∷ old)) there ∙ no_more _ post none_left n)

-- Two matches are two occurrences.
pub two_places :
    (b : ℕ) (old content : Text) (s t : Span) (ss : List Span)
    → match_indices (b ∷ old) 0 0 content ≡ s ∷ t ∷ ss
    → (k : ℕ) × (l : ℕ) × (k < l) × Occurs (b ∷ old) content k × Occurs (b ∷ old) content l
two_places b old content s t ss h = elim (scan b old 0 content) [
  | inl (absent, empty) ↦ absurd (nil-ne-cons (sym empty ∙ h))
  | inr f ↦ elim (scan b old (0 + length f.pre + length (b ∷ old)) f.post) [
    | inl (absent, empty) ↦ absurd (nil-ne-cons (sym empty ∙ tails (sym f.spans ∙ h)))
    | inr g ↦ (
      length f.pre,
      length (f.pre ++ (b ∷ old ++ g.pre)),
      omega (arith, length-append f.pre (b ∷ old ++ g.pre)),
      subst (λ c. Occurs (b ∷ old) c (length f.pre)) (sym f.whole)
          (front_place f.pre (b ∷ old) f.post),
      subst (λ c. Occurs (b ∷ old) c (length (f.pre ++ (b ∷ old ++ g.pre))))
          (sym (parts f.pre f.post g.pre g.post f.whole g.whole))
          (front_place (f.pre ++ (b ∷ old ++ g.pre)) (b ∷ old) g.post),
    )
  ]
]
  where
    tails : {s t : Span} {ss ts : List Span} → s ∷ ss ≡ t ∷ ts → ss ≡ ts
    tails e = cc

    parts :
        (pre post pre' post' : Text)
        → content ≡ pre ++ (b ∷ old ++ post)
        → post ≡ pre' ++ (b ∷ old ++ post')
        → content ≡ (pre ++ (b ∷ old ++ pre')) ++ (b ∷ old ++ post')
    parts pre post pre' post' e e' =
        e
        ∙ ap (λ t. pre ++ (b ∷ old ++ t)) e'
        ∙ ap (λ t. pre ++ t) (sym (append_assoc (b ∷ old) pre' (b ∷ old ++ post')))
        ∙ sym (append_assoc pre (b ∷ old ++ pre') (b ∷ old ++ post'))

-- A file with a match has an occurrence.
pub some_place :
    (b : ℕ) (old content : Text) (spans : List Span)
    → match_indices (b ∷ old) 0 0 content ≡ spans
    → spans ≢ []
    → (k : ℕ) × Occurs (b ∷ old) content k
some_place b old content spans h filled = elim (scan b old 0 content) [
  | inl (absent, empty) ↦ absurd (filled (sym h ∙ empty))
  | inr f ↦ (
    length f.pre,
    subst (λ c. Occurs (b ∷ old) c (length f.pre)) (sym f.whole)
        (front_place f.pre (b ∷ old) f.post),
  )
]
