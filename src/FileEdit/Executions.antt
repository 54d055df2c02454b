-- ===== src/FileEdit/Executions.antt =====
-- tools/file_edit.rs: every execution on a file that can be read has its verdict.
use kitaebot.Common.{
  ℕ, ◌+◌, All, ◌≡◌, ◌≢◌, inl, inr, refl, sym, ap, subst, ◌∙◌, Bool, true, false, List, [], ◌∷◌,
  ◌++◌, Text, Option, none, some, ok, length, drop, arith, Bool-cases, ◌=?◌, list_key, nat_key, In,
  map, if◌then◌else◌,
}
use kitaebot.Texts.Utf8.{IsWhole, IsWhole-rest, IsWhole-front, IsWhole-starts_char}
use kitaebot.FileEdit.{
  Args, Outside, splice, splice_all, execute, resolved_to, edited, apply, all_or_none, spliced,
  ambiguous,
}
use kitaebot.FileEdit.Lines.{lines}
use kitaebot.FileEdit.History.{EditHistory}
use kitaebot.FileEdit.Matching.{
  Span, Rung, exact, fuzzy, starts_with, match_indices, window_spans, fuzzy_rungs, find_matches,
}
use kitaebot.FileEdit.Exact.{Replaced, scan}
use kitaebot.FileEdit.Splices.{splice-parts, splice_all-Replaced}
use kitaebot.FileEdit.Windows.{NoReturns, ended, window_spans-Window}
use kitaebot.FileEdit.Rungs.{FirstRung, splice-Window, found_exact, found_fuzzy, found_none}
use kitaebot.FileEdit.Alone.{
  Stands, Occurs, nowhere, only_place, window_spans-rising, one_place, two_places, some_place,
}
use kitaebot.FileEdit.Verdicts.{
  Edit, once, everywhere, loosely, Reached, Ambiguous, occurrences, windows, Verdict,
  spliced-Verdict, ambiguous-Verdict, stale-Verdict,
}

absent_of :
    (b : ℕ) (old content : Text)
    → match_indices (b ∷ old) 0 0 content ≡ []
    → (k : ℕ) → starts_with (b ∷ old) (drop k content) ≡ false
absent_of b old content h = elim (scan b old 0 content) [
  | inl (absent, empty) ↦ absent
  | inr f ↦ absurd (nil-ne-cons (sym h ∙ f.spans))
]
  where
    nil-ne-cons : {s : Span} {ss : List Span} → [] ≡ s ∷ ss → ⊥
    nil-ne-cons e = cc

-- The only exact match, spliced.
once_spliced :
    (b : ℕ) (old content new : Text) (span : Span)
    → match_indices (b ∷ old) 0 0 content ≡ span ∷ []
    → IsWhole content
    → IsWhole (b ∷ old)
    → (pre : Text) × (post : Text) × (content ≡ pre ++ (b ∷ old ++ post))
      × (span.start ≡ length pre)
      × (splice content span.start span.len new ≡ some (pre ++ (new ++ post)))
once_spliced b old content new span h whole hold = elim (scan b old 0 content) [
  | inl (absent, empty) ↦ absurd (nil-ne-cons (sym empty ∙ h))
  | inr f ↦
      let same = same_head (sym h ∙ f.spans) in
      let place : span.start ≡ 0 + length f.pre = ap (λ (s : Span). s.start) same in
      (f.pre, f.post, f.whole, omega (arith, place), at_first f.pre f.post f.whole same)
]
  where
    nil-ne-cons : {s : Span} {ss : List Span} → [] ≡ s ∷ ss → ⊥
    nil-ne-cons e = cc

    same_head : {s t : Span} {ss ts : List Span} → s ∷ ss ≡ t ∷ ts → s ≡ t
    same_head e = cc

    at_first :
        (pre post : Text)
        → content ≡ pre ++ (b ∷ old ++ post)
        → span ≡ record { start = 0 + length pre; len = length (b ∷ old) }
        → splice content span.start span.len new ≡ some (pre ++ (new ++ post))
    at_first pre post e same =
        let parts : IsWhole (pre ++ (b ∷ old ++ post)) = subst IsWhole e whole in
        let rest =
          IsWhole-rest pre (b ∷ old ++ post) (IsWhole-front pre b old post hold parts) parts in
        ap (λ (s : Span). splice content s.start s.len new) same
        ∙ ap (λ n. splice content n (length (b ∷ old)) new) (omega arith)
        ∙ ap (λ t. splice t (length pre) (length (b ∷ old)) new) e
        ∙ splice-parts pre (b ∷ old) post new (IsWhole-starts_char (b ∷ old ++ post) rest)
            (IsWhole-starts_char post (IsWhole-rest (b ∷ old) post hold rest))

module _ (o : Outside) (args : Args) (resolved content : Text) (h : EditHistory) (b : ℕ)
    (old : Text) (same : args.old_string ≡ b ∷ old) (clean : NoReturns content)
    (whole : IsWhole content) (hold : IsWhole (b ∷ old)) (hnew : IsWhole args.new_string) where
  -- What is found determines the edit.
  once-Edit :
      (span : Span)
      → find_matches content args.old_string ≡ some (exact, span ∷ [])
      → (out : Text) × (splice content span.start span.len args.new_string ≡ some out)
        × Edit args content out
  once-Edit span found =
      let matches = (found_exact content args.old_string (span ∷ []) found).0 in
      let (pre, post, parts, place, done) =
        once_spliced b old content args.new_string span
          (subst (λ t. match_indices t 0 0 content ≡ span ∷ []) same matches) whole hold in
      (
        pre ++ (args.new_string ++ post),
        done,
        once pre post (parts ∙ ap (λ t. pre ++ (t ++ post)) (sym same))
            (λ k here.
              let (low, high) =
                one_place b old content span
                  (subst (λ t. match_indices t 0 0 content ≡ span ∷ []) same matches) k
                  (subst (λ t. Occurs t content k) same here) in
              (omega (arith, place, low), omega (arith, place, high, ap length same)))
            refl,
      )

  everywhere-Edit :
      (spans : List Span)
      → find_matches content args.old_string ≡ some (exact, spans)
      → args.replace_all ≡ true
      → (out : Text) × (splice_all content spans args.new_string ≡ some out) × Edit args content out
  everywhere-Edit spans found all =
      let (matches, filled) = found_exact content args.old_string spans found in
      let (k, here) =
        some_place b old content spans
          (subst (λ t. match_indices t 0 0 content ≡ spans) same matches) filled in
      let (out, done, replaced) =
        splice_all-Replaced b old args.new_string hold hnew content whole in
      (
        out,
        ap (λ ss. splice_all content ss args.new_string)
              (sym (subst (λ t. match_indices t 0 0 content ≡ spans) same matches))
            ∙ done,
        everywhere k (subst (λ t. Occurs t content k) (sym same) here) all
            (subst (λ t. Replaced t args.new_string content out) (sym same) replaced),
      )

  inexact :
      match_indices args.old_string 0 0 content ≡ []
      → (k : ℕ) → starts_with args.old_string (drop k content) ≡ false
  inexact none_exact =
      subst (λ t. (k : ℕ) → starts_with t (drop k content) ≡ false) (sym same)
        (absent_of b old content (subst (λ t. match_indices t 0 0 content ≡ []) same none_exact))

  nowhere_in :
      (rungs : List (Text × (Text → Text)))
      → All (λ q. window_spans q.1 content args.old_string ≡ []) rungs
      → All (λ q. (before : List Text) → ¬ Stands q.1 content args.old_string before) rungs
  nowhere_in [] h = tt
  nowhere_in (q ∷ qs) (e, h) = (nowhere q.1 content args.old_string e, nowhere_in qs h)

  reached :
      (r : Text × (Text → Text))
      → match_indices args.old_string 0 0 content ≡ []
      → FirstRung content args.old_string fuzzy_rungs r
      → Reached args content r
  reached r none_exact f = record {
    earlier = f.earlier;
    later = f.later;
    split = f.split;
    inexact = inexact none_exact;
    passed = nowhere_in f.earlier f.passed;
  }

  loosely-Edit :
      (name : Text) (span : Span)
      → find_matches content args.old_string ≡ some (fuzzy name, span ∷ [])
      → (out : Text) × (splice content span.start span.len args.new_string ≡ some out)
        × Edit args content out
  loosely-Edit name span found =
      let (none_exact, (r, f, same_name, spans, full)) =
        found_fuzzy content args.old_string name (span ∷ []) found in
      let w =
        window_spans-Window r.1 content args.old_string span clean
          (subst (In span) spans (inl refl)) in
      (
        ended w.before ++ (args.new_string ++ w.post),
        splice-Window r.1 content (map r.1 (lines args.old_string)) span args.new_string w whole,
        loosely r span (reached r none_exact f) w
            (only_place r.1 content args.old_string span (sym spans)) refl,
      )

  fuzzy-Ambiguous :
      (name : Text) (s t : Span) (ss : List Span)
      → find_matches content args.old_string ≡ some (fuzzy name, s ∷ t ∷ ss)
      → Ambiguous args content
  fuzzy-Ambiguous name s t ss found =
      let (none_exact, (r, f, same_name, spans, full)) =
        found_fuzzy content args.old_string name (s ∷ t ∷ ss) found in
      windows r s t (reached r none_exact f)
        (window_spans-Window r.1 content args.old_string s clean (subst (In s) spans (inl refl)))
        (window_spans-Window r.1 content args.old_string t clean
          (subst (In t) spans (inr (inl refl))))
        (window_spans-rising r.1 content args.old_string s t ss (sym spans))

  exact-Ambiguous :
      (s t : Span) (ss : List Span)
      → find_matches content args.old_string ≡ some (exact, s ∷ t ∷ ss)
      → args.replace_all ≡ false
      → Ambiguous args content
  exact-Ambiguous s t ss found not_all =
      let matches = (found_exact content args.old_string (s ∷ t ∷ ss) found).0 in
      let (k, l, lt, here, there) =
        two_places b old content s t ss
          (subst (λ u. match_indices u 0 0 content ≡ s ∷ t ∷ ss) same matches) in
      occurrences k l lt (subst (λ u. Occurs u content k) (sym same) here)
        (subst (λ u. Occurs u content l) (sym same) there) not_all

  apply-Verdict :
      (found : Option (Rung × List Span))
      → find_matches content args.old_string ≡ found
      → Verdict args resolved content
          (apply o args resolved content h found).1
          (apply o args resolved content h found).2
  unfolding apply all_or_none
  apply-Verdict none e =
      let (none_exact, windowless) = found_none content args.old_string e in
      stale-Verdict o args resolved content h (inexact none_exact)
        (nowhere_in fuzzy_rungs windowless)
  apply-Verdict (some (exact, [])) e = absurd ((found_exact content args.old_string [] e).1 refl)
  apply-Verdict (some (fuzzy n, [])) e =
      absurd ((found_fuzzy content args.old_string n [] e).1.4 refl)
  apply-Verdict (some (exact, s ∷ [])) e =
      let (out, done, edit) = once-Edit s e in
      spliced-Verdict o args resolved content h s.start 1 out
        (splice content s.start s.len args.new_string) done edit
  apply-Verdict (some (fuzzy n, s ∷ [])) e =
      let (out, done, edit) = loosely-Edit n s e in
      spliced-Verdict o args resolved content h s.start 1 out
        (splice content s.start s.len args.new_string) done edit
  apply-Verdict (some (fuzzy n, s ∷ t ∷ ss)) e =
      ambiguous-Verdict o args resolved content h (fuzzy n) s t ss (fuzzy-Ambiguous n s t ss e)
  apply-Verdict (some (exact, s ∷ t ∷ ss)) e = pick args.replace_all refl
    where
      pick :
          (all : Bool)
          → args.replace_all ≡ all
          → Verdict args resolved content
              (if all
                then spliced o args resolved content s.start
                    (length (s ∷ t ∷ ss))
                    h
                    (splice_all content (s ∷ t ∷ ss) args.new_string)
                else ambiguous o args content exact (s ∷ t ∷ ss) h).1
              (if all
                then spliced o args resolved content s.start
                    (length (s ∷ t ∷ ss))
                    h
                    (splice_all content (s ∷ t ∷ ss) args.new_string)
                else ambiguous o args content exact (s ∷ t ∷ ss) h).2
      pick true all =
          let (out, done, edit) = everywhere-Edit (s ∷ t ∷ ss) e all in
          spliced-Verdict o args resolved content h s.start (length (s ∷ t ∷ ss)) out
            (splice_all content (s ∷ t ∷ ss) args.new_string) done edit
      pick false not_all =
          ambiguous-Verdict o args resolved content h exact s t ss
            (exact-Ambiguous s t ss e not_all)

differs : (s t : Text) → s ≢ t → (s =? t) ≡ false
differs s t h = elim (Bool-cases (s =? t)) [
  | inl e ↦ absurd (h (((list_key {A = ℕ}).same_iff s t).0 e))
  | inr e ↦ e
]

-- An execution with an old text that is not empty and not the new one, on a file of whole
-- characters without carriage returns that can be resolved and read, never panics. It attempts to
-- write where every occurrence of the old text overlaps one of them, or all are to be replaced, or
-- where there is none and the first fuzzy rung under which the lines of the old text stand in the
-- file has them at one place; what it writes has the new text in the place of that match or of all,
-- and is otherwise the file. An edit that changes nothing writes nothing. Where there is no place, or
-- two of which one is wanted, nothing is written and the call is refused.
pub execute-Verdict :
    (o : Outside) (args : Args) (resolved content : Text) (h : EditHistory)
    → args.old_string ≢ []
    → args.old_string ≢ args.new_string
    → o.resolve_writable args.path ≡ ok resolved
    → o.read_to_string resolved ≡ ok content
    → NoReturns content
    → IsWhole content
    → IsWhole args.old_string
    → IsWhole args.new_string
    → Verdict args resolved content (execute o args h).1 (execute o args h).2
unfolding execute resolved_to edited
execute-Verdict o args resolved content h filled other resolves reads clean whole hold hnew =
    rw
      (
        differs args.old_string [] filled,
        differs args.old_string args.new_string other,
        resolves,
        reads,
      )
      (go args.old_string refl)
  where
    go :
        (t : Text)
        → args.old_string ≡ t
        → Verdict args resolved content
            (apply o args resolved content h (find_matches content args.old_string)).1
            (apply o args resolved content h (find_matches content args.old_string)).2
    go [] e = absurd (filled e)
    go (b ∷ old) e =
        apply-Verdict o args resolved content h b old e clean whole (subst IsWhole e hold) hnew
          (find_matches content args.old_string) refl
