-- ===== src/FileEdit/Rungs.antt =====
-- tools/file_edit.rs: what the rungs of the ladder find, and where a window ends.
use kitaebot.Common.{
  ◌≡◌, ◌≢◌, inl, inr, refl, ap, subst, ◌∙◌, true, List, [], ◌∷◌, ◌++◌, append_assoc, Text, some,
  length, arith, All, none, list_key, nat_key,
}
use kitaebot.Texts.{starts_char}
use kitaebot.Texts.Utf8.{IsWhole, IsWhole-starts_char, IsWhole-at_newline, newline-IsWhole}
use kitaebot.FileEdit.{splice}
use kitaebot.FileEdit.Lines.{lines, join}
use kitaebot.FileEdit.Matching.{
  Span, Rung, exact, fuzzy, match_indices, window_spans, fuzzy_rungs, first_rung, climb,
  find_matches,
}
use kitaebot.FileEdit.Splices.{splice-parts}
use kitaebot.FileEdit.Windows.{Window, ended, nl, Behind, newline_if}

ended_rest : (ls : List Text) (x : Text) → IsWhole (ended ls ++ x) → IsWhole x
ended_rest [] x h = h
ended_rest (l ∷ ls) x h =
    ended_rest ls x
      (IsWhole-at_newline l (ended ls ++ x) (subst IsWhole (append_assoc l (nl ++ ended ls) x) h)).1

-- A window ends where a character does.
window_end :
    (w : Text) (after : List Text) (post : Text)
    → Behind after post
    → IsWhole ((w ++ newline_if after) ++ post)
    → starts_char post ≡ true
unfolding starts_char
window_end w [] post (inl e) h = rw e refl
window_end w [] post (inr e) h = rw e (IsWhole-starts_char nl newline-IsWhole)
window_end w (l ∷ ls) post b h =
    IsWhole-starts_char post
      (IsWhole-at_newline w post (subst IsWhole (append_assoc w nl post) h)).1

pub splice-Window :
    (normalize : Text → Text) (content : Text) (needle : List Text) (span : Span) (new : Text)
    (w : Window normalize content (lines content) needle 0 span)
    → IsWhole content
    → splice content span.start span.len new ≡ some (ended w.before ++ (new ++ w.post))
splice-Window normalize content needle span new w h =
    let rest = ended_rest w.before (w.mid ++ w.post) (subst IsWhole w.whole h) in
    let place : span.start ≡ length (ended w.before) = omega (arith, w.at) in
    ap (λ n. splice content n span.len new) place
    ∙ ap (λ n. splice content (length (ended w.before)) n new) w.long
    ∙ ap (λ t. splice t (length (ended w.before)) (length w.mid) new) w.whole
    ∙ splice-parts (ended w.before) w.mid w.post new (IsWhole-starts_char (w.mid ++ w.post) rest) (
        window_end (join nl (w.first ∷ w.others)) w.after w.post w.behind
          (subst (λ m. IsWhole (m ++ w.post)) w.text rest))

-- The rung is one of the ladder, and those before it have no window.
pub record FirstRung (content old : Text) (rungs : List (Text × (Text → Text)))
    (r : Text × (Text → Text)) : Type 0 where
  pub earlier : List (Text × (Text → Text))
  pub later : List (Text × (Text → Text))
  pub split : rungs ≡ earlier ++ (r ∷ later)
  pub passed : All (λ q. window_spans q.1 content old ≡ []) earlier

-- A ladder without a match.
climb-none :
    (content old : Text) (rungs : List (Text × (Text → Text)))
    → climb content old rungs ≡ none
    → All (λ q. window_spans q.1 content old ≡ []) rungs
unfolding climb first_rung
climb-none content old [] h = tt
climb-none content old ((n, normalize) ∷ rungs) h =
    go (climb-none content old rungs) (window_spans normalize content old) refl h
  where
    go :
        (climb content old rungs ≡ none → All (λ q. window_spans q.1 content old ≡ []) rungs)
        → (ss : List Span) → window_spans normalize content old ≡ ss
        → first_rung (fuzzy n) ss (climb content old rungs) ≡ none
        → (window_spans normalize content old ≡ [])
          × All (λ q. window_spans q.1 content old ≡ []) rungs
    go ih [] e k = (e, ih k)
    go ih (s ∷ ss) e k = cc

pub found_none :
    (content old : Text)
    → find_matches content old ≡ none
    → (match_indices old 0 0 content ≡ [])
      × All (λ q. window_spans q.1 content old ≡ []) fuzzy_rungs
found_none content old h = go (match_indices old 0 0 content) refl (unfold find_matches in h)
  where
    go :
        (ss : List Span)
        → match_indices old 0 0 content ≡ ss
        → first_rung exact ss (climb content old fuzzy_rungs) ≡ none
        → (match_indices old 0 0 content ≡ [])
          × All (λ q. window_spans q.1 content old ≡ []) fuzzy_rungs
    go [] e k = (e, climb-none content old fuzzy_rungs (unfold first_rung in k))
    go (s ∷ ss) e k = unfold first_rung in cc

-- What one rung of the ladder found.
climb-fuzzy :
    (content old : Text) (rungs : List (Text × (Text → Text))) (rung : Rung) (spans : List Span)
    → climb content old rungs ≡ some (rung, spans)
    → (r : Text × (Text → Text)) × FirstRung content old rungs r
      × (rung ≡ fuzzy r.0)
      × (spans ≡ window_spans r.1 content old)
      × (spans ≢ [])
unfolding climb first_rung
climb-fuzzy content old [] rung spans h = cc
climb-fuzzy content old ((n, normalize) ∷ rungs) rung spans h =
    go (climb-fuzzy content old rungs rung spans) (window_spans normalize content old) refl h
  where
    go :
        (climb content old rungs ≡ some (rung, spans)
          → (r : Text × (Text → Text)) × FirstRung content old rungs r
            × (rung ≡ fuzzy r.0)
            × (spans ≡ window_spans r.1 content old)
            × (spans ≢ []))
        → (ss : List Span) → window_spans normalize content old ≡ ss
        → first_rung (fuzzy n) ss (climb content old rungs) ≡ some (rung, spans)
        → (r : Text × (Text → Text)) × FirstRung content old ((n, normalize) ∷ rungs) r
          × (rung ≡ fuzzy r.0)
          × (spans ≡ window_spans r.1 content old)
          × (spans ≢ [])
    go ih [] e k =
        let (r, i, f, g, l) = ih k in
        (
          r,
          record {
            earlier = (n, normalize) ∷ i.earlier;
            later = i.later;
            split = ap (λ rs. (n, normalize) ∷ rs) i.split;
            passed = (e, i.passed);
          },
          f,
          g,
          l,
        )
    go ih (s ∷ ss) e k = (
      (n, normalize),
      record { earlier = []; later = rungs; split = refl; passed = tt },
      cc,
      cc,
      λ empty. cc,
    )

pub found_exact :
    (content old : Text) (spans : List Span)
    → find_matches content old ≡ some (exact, spans)
    → (match_indices old 0 0 content ≡ spans) × (spans ≢ [])
unfolding find_matches
found_exact content old spans h = go (match_indices old 0 0 content) refl (unfold find_matches in h)
  where
    go :
        (ss : List Span)
        → match_indices old 0 0 content ≡ ss
        → first_rung exact ss (climb content old fuzzy_rungs) ≡ some (exact, spans)
        → (match_indices old 0 0 content ≡ spans) × (spans ≢ [])
    go [] e k =
        let (r, i, f, g, l) =
          climb-fuzzy content old fuzzy_rungs exact spans (unfold first_rung in k) in
        absurd (cc)
    go (s ∷ ss) e k = unfold first_rung in (cc, λ empty. cc)

pub found_fuzzy :
    (content old name : Text) (spans : List Span)
    → find_matches content old ≡ some (fuzzy name, spans)
    → (match_indices old 0 0 content ≡ [])
      × ((r : Text × (Text → Text)) × FirstRung content old fuzzy_rungs r
          × (name ≡ r.0)
          × (spans ≡ window_spans r.1 content old)
          × (spans ≢ []))
found_fuzzy content old name spans h =
    go (match_indices old 0 0 content) refl (unfold find_matches in h)
  where
    go :
        (ss : List Span)
        → match_indices old 0 0 content ≡ ss
        → first_rung exact ss (climb content old fuzzy_rungs) ≡ some (fuzzy name, spans)
        → (match_indices old 0 0 content ≡ [])
          × ((r : Text × (Text → Text)) × FirstRung content old fuzzy_rungs r
              × (name ≡ r.0)
              × (spans ≡ window_spans r.1 content old)
              × (spans ≢ []))
    go [] e k =
        let (r, i, f, g, l) =
          climb-fuzzy content old fuzzy_rungs (fuzzy name) spans (unfold first_rung in k) in
        (e, (r, i, cc, g, l))
    go (s ∷ ss) e k = unfold first_rung in absurd (cc)
