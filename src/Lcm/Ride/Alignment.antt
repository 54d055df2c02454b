-- ===== src/Lcm/Ride/Alignment.antt =====
-- context/lcm/compaction.rs: where `prefix_end` cuts the last request.
use kitaebot.Common.{
  Bool, ◌⊎◌, ℕ, suc, ◌+◌, ◌≤◌, ◌≡◌, refl, sym, true, false, List, [], ◌∷◌, ◌++◌, Option, none, some,
  Key, length, arith, if◌then◌else◌, Option-cases, inl, inr, length-append, ltb,
}
use kitaebot.Lcm.Ride.{or_here, past, window_matches, last_window, prefix_end}

or_here-some :
    (o : Option ℕ) (b : Bool) (n : ℕ)
    → or_here o b ≡ some n
    → ((k : ℕ) × (o ≡ some k) × (n ≡ suc k)) ⊎ ((b ≡ true) × (n ≡ 0))
unfolding or_here
or_here-some (some k) b n h = inl (k, refl, cc)
or_here-some none true n h = inr (refl, cc)
or_here-some none false n h = cc

cut-some :
    (b : Bool) (m : ℕ) (o : Option ℕ) (n : ℕ)
    → (if b then none else past m o) ≡ some n
    → (k : ℕ) × (o ≡ some k) × (n ≡ k + m)
unfolding past
cut-some true m o n h = cc
cut-some false m none n h = cc
cut-some false m (some k) n h = (k, refl, cc)

not_shorter :
    {A : Type 0} (pre run post : List A) → ltb (length (pre ++ (run ++ post))) (length run) ≡ false
not_shorter pre run post = ground (arith, length-append pre (run ++ post), length-append run post)

module _ {A : Type 0} ⦃e : Key A⦄ where
  window_matches-append :
      (chunk sent : List A)
      → window_matches chunk sent ≡ true
      → (post : List A) × (sent ≡ chunk ++ post)
  unfolding window_matches
  window_matches-append [] sent h = (sent, refl)
  window_matches-append (c ∷ cs) [] h = cc
  window_matches-append (c ∷ cs) (s ∷ ss) h =
      let same = (e.same_iff c s).0 (ground arith) in
      let (post, p) = window_matches-append cs ss (ground arith) in (post, rw (same, p) refl)

  append-window_matches : (chunk post : List A) → window_matches chunk (chunk ++ post) ≡ true
  unfolding window_matches
  append-window_matches [] post = refl
  append-window_matches (c ∷ cs) post =
      rw ((e.same_iff c c).1 refl, append-window_matches cs post) refl

  last_window-append :
      (chunk sent : List A) (start : ℕ)
      → last_window chunk sent ≡ some start
      → (pre : List A) × (post : List A) × (sent ≡ pre ++ (chunk ++ post)) × (length pre ≡ start)
  unfolding last_window
  last_window-append chunk [] start h = cc
  last_window-append chunk (s ∷ ss) start h =
      elim (or_here-some (last_window chunk ss) (window_matches chunk (s ∷ ss)) start h) [
        | inl (k, f, n) ↦
            let (pre, post, p, q) = last_window-append chunk ss k f in
            (s ∷ pre, post, rw p refl, omega arith)
        | inr (b, n) ↦
            let (post, p) = window_matches-append chunk (s ∷ ss) b in ([], post, p, sym n)
      ]

  last_window-last :
      (c : A) (cs pre post : List A)
      → (start : ℕ) × (last_window (c ∷ cs) (pre ++ (c ∷ cs ++ post)) ≡ some start)
        × (length pre ≤ start)
  unfolding last_window or_here
  last_window-last c cs [] post = elim (Option-cases (last_window (c ∷ cs) (cs ++ post))) [
    | inl f ↦ (0, rw (f, append-window_matches (c ∷ cs) post) refl, omega arith)
    | inr (k, f) ↦ (suc k, rw f refl, omega arith)
  ]
  last_window-last c cs (p ∷ pre) post =
      let (k, f, le) = last_window-last c cs pre post in (suc k, rw f refl, omega arith)

  -- What `prefix_end` returns is where an occurrence of the chunk ends.
  prefix_end-occurrence :
      (sent chunk : List A) (end : ℕ)
      → prefix_end sent chunk ≡ some end
      → (front back : List A) × (sent ≡ front ++ (chunk ++ back))
        × (end ≡ length front + length chunk)
  unfolding prefix_end
  prefix_end-occurrence sent [] end h = cc
  prefix_end-occurrence sent (c ∷ cs) end h =
      let (k, f, n) =
        cut-some (ltb (length sent) (length (c ∷ cs))) (length (c ∷ cs)) (last_window (c ∷ cs) sent)
          end h in
      let (front, back, p, q) = last_window-append (c ∷ cs) sent k f in
      (front, back, p, omega arith)

  -- Where the chunk occurs in the request, `prefix_end` gives the end of an occurrence, and no
  -- occurrence ends later.
  pub prefix_end-last :
      (c : A) (cs pre post : List A)
      → (end : ℕ) × (prefix_end (pre ++ (c ∷ cs ++ post)) (c ∷ cs) ≡ some end)
        × ((front back : List A) × (pre ++ (c ∷ cs ++ post) ≡ front ++ (c ∷ cs ++ back))
            × (end ≡ length front + length (c ∷ cs)))
        × (length pre + length (c ∷ cs) ≤ end)
  unfolding prefix_end
  prefix_end-last c cs pre post =
      let (k, f, le) = last_window-last c cs pre post in
      let fits = not_shorter pre (c ∷ cs) post in
      let found : prefix_end (pre ++ (c ∷ cs ++ post)) (c ∷ cs) ≡ some (k + length (c ∷ cs)) =
        rw (prefix_end, fits, f) refl in
      (
        k + length (c ∷ cs),
        found,
        prefix_end-occurrence (pre ++ (c ∷ cs ++ post)) (c ∷ cs) (k + length (c ∷ cs)) found,
        omega arith,
      )
