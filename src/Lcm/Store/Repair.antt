-- ===== src/Lcm/Store/Repair.antt =====
-- context/lcm/engine.rs: what `repair_dangling_tool_calls` leaves.
use kitaebot.Common.{
  ℕ, ◌≡◌, inl, inr, refl, ap, sym, subst, ◌∙◌, Bool, true, false, ◌||◌, not, List, [], ◌∷◌, ◌++◌,
  Option, none, some, Option-cases, Bool-cases, Text, codes, ok, All, In, In-keep_if, any, keep_if,
  keep_if-nil, append_assoc, append-nil, arith, list_key, nat_key, ◌=?◌,
}
use kitaebot.Types.{tool}
use kitaebot.Lcm.Store.{
  Store, MessageRow, is_call, is_output, latest_tool_calls, or_this, answers, has_answer, call_ids,
  dangling_after, dangling, interrupted_tool_call, push_results, repair_dangling_tool_calls,
  role_str, insert_parts,
}
use kitaebot.Lcm.Store.Answered.{Closed, dangling-Closed}
use kitaebot.Lcm.Store.Ordered.{Ascending}
use kitaebot.Lcm.Store.Roundtrip.{new_row, push_message-Pushed}

-- A row that holds a tool's result and no call.
record IsResult (r : MessageRow) : Type 0 where
  no_call : any is_call r.parts ≡ false
  role : (r.role =? codes "tool") ≡ true

new_row-IsResult : (now call_id t : Text) (s : Store) → IsResult (new_row now (tool call_id t) s)
unfolding new_row role_str insert_parts is_call
new_row-IsResult now call_id t s = record { no_call = refl; role = refl }

latest-IsResult : (rows : List MessageRow) → All IsResult rows → latest_tool_calls rows ≡ none
unfolding latest_tool_calls or_this
latest-IsResult [] h = refl
latest-IsResult (r ∷ rs) (p, h) = rw (latest-IsResult rs h, p.no_call) refl

-- Results behind a row change nothing in which row has the latest calls.
behind :
    List MessageRow → Option (MessageRow × List MessageRow) → Option (MessageRow × List MessageRow)
behind rows none = none
behind rows (some (r, later)) = some (r, later ++ rows)

behind-or_this :
    (rows later : List MessageRow) (r : MessageRow) (b : Bool)
    (o : Option (MessageRow × List MessageRow))
    → or_this (behind rows o) b (r, later ++ rows) ≡ behind rows (or_this o b (r, later))
unfolding behind or_this
behind-or_this rows later r b (some (q, qs)) = refl
behind-or_this rows later r true none = refl
behind-or_this rows later r false none = refl

latest-append :
    (xs rows : List MessageRow)
    → All IsResult rows
    → latest_tool_calls (xs ++ rows) ≡ behind rows (latest_tool_calls xs)
unfolding latest_tool_calls behind
latest-append [] rows h = latest-IsResult rows h
latest-append (x ∷ xs) rows h =
    ap (λ o. or_this o (any is_call x.parts) (x, xs ++ rows)) (latest-append xs rows h)
    ∙ behind-or_this rows xs x (any is_call x.parts) (latest_tool_calls xs)

any-or : {A : Type 0} (p : A → Bool) (xs ys : List A) → any p (xs ++ ys) ≡ (any p xs || any p ys)
any-or p [] ys = refl
any-or p (x ∷ xs) ys = let ih = any-or p xs ys in ground arith

any-In : {A : Type 0} (p : A → Bool) (a : A) (xs : List A) → In a xs → p a ≡ true → any p xs ≡ true
any-In p a [] i h = elim i [ ]
any-In p a (x ∷ xs) (inl e) h = let px : p x ≡ true = subst (λ b. p b ≡ true) e h in rw px refl
any-In p a (x ∷ xs) (inr i) h = let ih = any-In p a xs i h in ground arith

-- The rows that the repair adds: results, and one for each of the calls.
record Results (now : Text) (ids : List Text) (s s' : Store) : Type 0 where
  rows : List MessageRow
  messages : s'.messages ≡ s.messages ++ rows
  results : All IsResult rows
  answer : (i : Text) → In i ids → has_answer rows i ≡ true
  ascending : Ascending s'.items

same_text : (i : Text) → (i =? i) ≡ true
same_text i = ((list_key {A = ℕ}).same_iff i i).1 refl

new_row-answers :
    (now i t : Text) (s : Store) → any (answers i) (new_row now (tool i t) s).parts ≡ true
unfolding new_row insert_parts answers is_output
new_row-answers now i t s = rw (same_text i) refl

answered_here :
    (row : MessageRow) (rows : List MessageRow) (i : Text)
    → any (answers i) row.parts ≡ true
    → has_answer (row ∷ rows) i ≡ true
unfolding has_answer
answered_here row rows i h = rw h refl

answered_later :
    (row : MessageRow) (rows : List MessageRow) (i : Text)
    → has_answer rows i ≡ true
    → has_answer (row ∷ rows) i ≡ true
unfolding has_answer
answered_later row rows i h = ground arith

push_results-Results :
    (now : Text) (ids : List Text) (s : Store)
    → Ascending s.items
    → (s' : Store) × (push_results now ids s ≡ ok s') × Results now ids s s'
unfolding push_results
push_results-Results now [] s asc = (
  s,
  refl,
  record {
    rows = [];
    messages = sym (append-nil s.messages);
    results = tt;
    answer = λ i h. elim h [ ];
    ascending = asc;
  },
)
push_results-Results now (i ∷ is) s asc =
    let m = tool i interrupted_tool_call in
    let (s1, a, p) = push_message-Pushed now m none s asc in
    let (s2, b, r) = push_results-Results now is s1 p.ascending in
    let row = new_row now m s in
    (
      s2,
      rw a b,
      record {
        rows = row ∷ r.rows;
        messages =
            r.messages
            ∙ ap (λ ms. ms ++ r.rows) p.messages
            ∙ append_assoc s.messages (row ∷ []) r.rows;
        results = (new_row-IsResult now i interrupted_tool_call s, r.results);
        answer = λ j h. elim h [
          | inl e ↦ answered_here row r.rows j (
              subst (λ k. any (answers k) row.parts ≡ true) (sym e)
                (new_row-answers now i interrupted_tool_call s))
          | inr k ↦ answered_later row r.rows j (r.answer j k)
        ];
        ascending = r.ascending;
      },
    )

tools_only :
    (rows : List MessageRow)
    → All IsResult rows
    → any (λ l. not (l.role =? codes "tool")) rows ≡ false
tools_only [] h = refl
tools_only (r ∷ rs) (p, h) = rw (p.role, tools_only rs h) refl

no_others :
    (r : MessageRow) (later : List MessageRow)
    → any (λ l. not (l.role =? codes "tool")) later ≡ false
    → dangling_after (r, later) ≡ keep_if (λ i. not (has_answer later i)) (call_ids r.parts)
unfolding dangling_after
no_others r later e = rw (dangling_after, e) refl

dangling_behind :
    (r : MessageRow) (later rows : List MessageRow)
    → All IsResult rows
    → ((i : Text) → In i (dangling_after (r, later)) → has_answer rows i ≡ true)
    → dangling_after (r, later ++ rows) ≡ []
unfolding dangling_after has_answer
dangling_behind r later rows h h' =
    let p = λ (l : MessageRow). not (l.role =? codes "tool") in
    let parts = any-or p later rows in
    elim (Bool-cases (any p later)) [
      | inl e ↦
          let other : any p (later ++ rows) ≡ true = ground arith in rw (dangling_after, other) refl
      | inr e ↦
          let results = tools_only rows h in
          let only : any p (later ++ rows) ≡ false = ground arith in
          no_others r (later ++ rows) only
          ∙ keep_if-nil (λ i. not (has_answer (later ++ rows) i)) (call_ids r.parts)
              (λ i k.
                let both = any-or (λ (l : MessageRow). any (answers i) l.parts) later rows in
                elim (Bool-cases (has_answer later i)) [
                  | inl f ↦ ground arith
                  | inr f ↦
                      let open_call = subst (In i) (sym (no_others r later e)) (
                        In-keep_if (λ i. not (has_answer later i)) i (call_ids r.parts) k
                          (rw f refl)) in
                      let found = h' i open_call in ground arith
                ])
    ]

-- A repair of a conversation with ordered items succeeds. In what it leaves, a row that has nothing
-- but tool results behind it has, for each of its calls, an output with the call's id among the
-- parts of these rows; and a second repair changes nothing.
pub repair_dangling_tool_calls-repaired :
    (now : Text) (s : Store)
    → Ascending s.items
    → (s' : Store) × (repair_dangling_tool_calls now s ≡ ok s')
      × Closed s'.messages
      × (repair_dangling_tool_calls now s' ≡ ok s')
unfolding repair_dangling_tool_calls dangling behind push_results
repair_dangling_tool_calls-repaired now s asc =
    let (s', a, r) = push_results-Results now (dangling s) s asc in
    let latest = ap latest_tool_calls r.messages ∙ latest-append s.messages r.rows r.results in
    let none_left : dangling s' ≡ [] = elim (Option-cases (latest_tool_calls s.messages)) [
      | inl e ↦
          let nothing : latest_tool_calls s'.messages ≡ none = latest ∙ ap (behind r.rows) e in
          rw (dangling, nothing) refl
      | inr ((q, later), e) ↦
          let same : latest_tool_calls s'.messages ≡ some (q, later ++ r.rows) =
            latest ∙ ap (behind r.rows) e in
          let before : dangling s ≡ dangling_after (q, later) = rw (dangling, e) refl in
          rw (dangling, same)
            (dangling_behind q later r.rows r.results
              (λ i k. r.answer i (subst (In i) (sym before) k)))
    ] in
    (s', a, dangling-Closed s' none_left, rw none_left refl)
