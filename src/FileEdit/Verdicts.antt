-- ===== src/FileEdit/Verdicts.antt =====
-- tools/file_edit.rs: what an execution does to the file.
use kitaebot.Common.{
  ℕ, ◌+◌, ◌≤◌, ◌<◌, All, ◌≡◌, ◌≢◌, inl, inr, refl, subst, true, false, List, ◌∷◌, map, Text, Option,
  none, some, Result, ok, err, length, drop, Bool-cases, ◌=?◌, list_key, nat_key, leb, codes, ◌++◌,
}
use kitaebot.Agent.Errors.{ToolError, precondition}
use kitaebot.FileEdit.{
  Args, Outside, Fault, panics, refused, spliced, ambiguous, stale, refusal, futile, finished,
  EditFutility, no_change, failed_identically, replacements,
}
use kitaebot.FileEdit.Messages.{echo_region, ambiguous_message, stale_read_message}
use kitaebot.FileEdit.History.{EditHistory, record_futile}
use kitaebot.FileEdit.Lines.{lines}
use kitaebot.FileEdit.Matching.{Span, Rung, starts_with, fuzzy_rungs}
use kitaebot.FileEdit.Exact.{Replaced}
use kitaebot.FileEdit.Windows.{Window, ended}
use kitaebot.FileEdit.Alone.{Stands, Occurs}

-- A fuzzy rung of the ladder, where the exact one and the fuzzy ones before it have no match.
pub record Reached (args : Args) (content : Text) (r : Text × (Text → Text)) : Type 0 where
  pub earlier : List (Text × (Text → Text))
  pub later : List (Text × (Text → Text))
  pub split : fuzzy_rungs ≡ earlier ++ (r ∷ later)
  pub inexact : (k : ℕ) → starts_with args.old_string (drop k content) ≡ false
  pub passed : All (λ q. (before : List Text) → ¬ Stands q.1 content args.old_string before) earlier

-- A change of the file: of the only exact match, which overlaps every other occurrence, of all exact
-- matches, or of the only window of the first fuzzy rung that has one where there is no exact match.
pub data Edit (args : Args) (content out : Text) : Type 0 where
  once :
      (pre post : Text)
      → content ≡ pre ++ (args.old_string ++ post)
      → ((k : ℕ)
          → Occurs args.old_string content k
          → (length pre ≤ k) × (k < length pre + length args.old_string))
      → out ≡ pre ++ (args.new_string ++ post)
      → Edit args content out
  everywhere :
      (k : ℕ)
      → Occurs args.old_string content k
      → args.replace_all ≡ true
      → Replaced args.old_string args.new_string content out
      → Edit args content out
  loosely :
      (r : Text × (Text → Text)) (span : Span)
      → Reached args content r
      → (w : Window r.1 content (lines content) (map r.1 (lines args.old_string)) 0 span)
      → ((before : List Text)
          → Stands r.1 content args.old_string before
          → length (ended before) ≡ span.start)
      → out ≡ ended w.before ++ (args.new_string ++ w.post)
      → Edit args content out

-- Two exact matches of which one is to be replaced, or two windows of the first fuzzy rung that has
-- one.
pub data Ambiguous (args : Args) (content : Text) : Type 0 where
  occurrences :
      (k l : ℕ)
      → k < l
      → Occurs args.old_string content k
      → Occurs args.old_string content l
      → args.replace_all ≡ false
      → Ambiguous args content
  windows :
      (r : Text × (Text → Text)) (s t : Span)
      → Reached args content r
      → Window r.1 content (lines content) (map r.1 (lines args.old_string)) 0 s
      → Window r.1 content (lines content) (map r.1 (lines args.old_string)) 0 t
      → s.start < t.start
      → Ambiguous args content

abbrev pub Refused : Result Fault Text → Type 0
Refused answer = (e : ToolError) × (answer ≡ err (refused e))

-- An execution on a file that was read: what it wrote, and what came of it.
pub data Verdict (args : Args) (resolved content : Text)
    : Option (Text × Text) → Result Fault Text → Type 0 where
  changed :
      {written : Option (Text × Text)} {answer : Result Fault Text} (out : Text)
      → Edit args content out
      → out ≢ content
      → written ≡ some (resolved, out)
      → answer ≢ err panics
      → Verdict args resolved content written answer
  unchanged :
      {written : Option (Text × Text)} {answer : Result Fault Text}
      → Edit args content content
      → written ≡ none
      → answer ≢ err panics
      → Verdict args resolved content written answer
  unmatched :
      {written : Option (Text × Text)} {answer : Result Fault Text}
      → ((k : ℕ) → starts_with args.old_string (drop k content) ≡ false)
      → All (λ q. (before : List Text) → ¬ Stands q.1 content args.old_string before) fuzzy_rungs
      → written ≡ none
      → Refused answer
      → Verdict args resolved content written answer
  undecided :
      {written : Option (Text × Text)} {answer : Result Fault Text}
      → Ambiguous args content
      → written ≡ none
      → Refused answer
      → Verdict args resolved content written answer

futile_refused :
    (args : Args) (n : ℕ) (outcome : EditFutility) (h : EditHistory) (e : ToolError)
    → ((futile args n outcome h (err (refused e))).1 ≡ none)
      × Refused (futile args n outcome h (err (refused e))).2
unfolding futile refusal
futile_refused args n outcome h e = elim (Bool-cases (leb 3 (record_futile args.path n h).1)) [
  | inl f ↦ rw (f, futile) (refl, (_, refl))
  | inr f ↦ rw (f, futile) (refl, (e, refl))
]

futile_ok :
    (args : Args) (n : ℕ) (outcome : EditFutility) (h : EditHistory) (t : Text)
    → ((futile args n outcome h (ok t)).1 ≡ none)
      × ((futile args n outcome h (ok t)).2 ≢ err panics)
unfolding futile refusal
futile_ok args n outcome h t = elim (Bool-cases (leb 3 (record_futile args.path n h).1)) [
  | inl f ↦ rw (f, futile) (refl, λ e. cc)
  | inr f ↦ rw (f, futile) (refl, λ e. cc)
]

finished_lem :
    (path note echo : Text) (failure : Option Text) → finished path note echo failure ≢ err panics
unfolding finished
finished_lem path note echo none e = cc
finished_lem path note echo (some f) e = cc

module _ (o : Outside) (args : Args) (resolved content : Text) (h : EditHistory) where
  pub spliced-Verdict :
      (at n : ℕ) (out : Text) (result : Option Text)
      → result ≡ some out
      → Edit args content out
      → Verdict args resolved content
          (spliced o args resolved content at n h result).1
          (spliced o args resolved content at n h result).2
  unfolding spliced
  spliced-Verdict at n out none e edit = cc
  spliced-Verdict at n out (some result) e edit =
      let edit' : Edit args content result = subst (Edit args content) (cc) edit in
      elim (Bool-cases (result =? content)) [
        | inl same ↦
            let alike = ((list_key {A = ℕ}).same_iff result content).0 same in
            let (w, answer) = futile_ok args (o.fingerprint args) no_change h (
              codes "Edited "
              ++ args.path
              ++ codes " (no change):\n"
              ++ echo_region result at (length args.new_string)) in
            rw same (unchanged (subst (Edit args content) alike edit') w answer)
        | inr other ↦ rw other (
            changed result edit'
              (λ alike. cc (((list_key {A = ℕ}).same_iff result content).1 alike)) refl
              (finished_lem args.path (replacements n)
                (echo_region result at (length args.new_string)) (o.write_failure resolved result)))
      ]

  pub ambiguous-Verdict :
      (rung : Rung) (s t : Span) (ss : List Span)
      → Ambiguous args content
      → Verdict args resolved content
          (ambiguous o args content rung (s ∷ t ∷ ss) h).1
          (ambiguous o args content rung (s ∷ t ∷ ss) h).2
  unfolding ambiguous
  ambiguous-Verdict rung s t ss why =
      let (w, answer) =
        futile_refused args (o.fingerprint args) failed_identically h
          (precondition (ambiguous_message rung (s ∷ t ∷ ss) content args.path)) in
      undecided why w answer

  pub stale-Verdict :
      ((k : ℕ) → starts_with args.old_string (drop k content) ≡ false)
      → All (λ q. (before : List Text) → ¬ Stands q.1 content args.old_string before) fuzzy_rungs
      → Verdict args resolved content (stale o args content h).1 (stale o args content h).2
  unfolding stale
  stale-Verdict inexact nowhere =
      let (w, answer) =
        futile_refused args (o.fingerprint args) failed_identically h
          (precondition (stale_read_message content args.old_string args.path)) in
      unmatched inexact nowhere w answer
