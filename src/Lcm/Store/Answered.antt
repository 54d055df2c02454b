-- ===== src/Lcm/Store/Answered.antt =====
-- context/lcm/engine.rs: what a store without dangling tool calls holds.
use kitaebot.Common.{
  ℕ, ◌≡◌, ◌≢◌, inl, inr, refl, sym, ap, subst, ◌∙◌, Bool, true, false, not, ◌&&◌, List, [], ◌∷◌,
  ◌++◌, Option, none, some, Text, codes, All, In, In-keep_if, any, keep_if, Bool-cases, list_key,
  nat_key, ◌=?◌, arith, if◌then◌else◌,
}
use kitaebot.Lcm.Store.{
  Store, MessageRow, Part, PartType, text, tool_call, tool_output, is_call, is_output,
  latest_tool_calls, or_this, answers, has_answer, call_ids, dangling_after, dangling,
}

-- One of the rows has a part that is the output of the call.
pub record Answered (call_id : Text) (rows : List MessageRow) : Type 0 where
  pub row : MessageRow
  pub row_in : In row rows
  pub part : Part
  pub part_in : In part row.parts
  pub output : part.part_type ≡ tool_output
  pub same : part.tool_call_id ≡ some call_id

-- A row of a tool's result.
pub record Reply (r : MessageRow) : Type 0 where
  pub role : r.role ≡ codes "tool"
  pub no_call : All (λ p. p.part_type ≢ tool_call) r.parts

-- Behind a row that has only replies behind it, each of its calls has a reply.
pub record Closed (rows : List MessageRow) : Type 0 where
  pub answered :
      (front : List MessageRow) (r : MessageRow) (later : List MessageRow)
      → rows ≡ front ++ (r ∷ later)
      → All Reply later
      → (p : Part) → In p r.parts
      → p.part_type ≡ tool_call
      → (i : Text) → p.tool_call_id ≡ some i
      → Answered i later

text_same : (t : Text) → (t =? t) ≡ true
text_same t = ((list_key {A = ℕ}).same_iff t t).1 refl

any_found :
    {A : Type 0} (p : A → Bool) (xs : List A) → any p xs ≡ true → (a : A) × In a xs × (p a ≡ true)
any_found p [] h = absurd (cc)
any_found p (x ∷ xs) h = elim (Bool-cases (p x)) [
  | inl e ↦ (x, inl refl, e)
  | inr e ↦ let (a, i, f) = any_found p xs (rw e at h) in (a, inr i, f)
]

is_call-false : (p : Part) → p.part_type ≢ tool_call → is_call p ≡ false
unfolding is_call
is_call-false p h = go p.part_type h
  where
    go : (t : PartType) → t ≢ tool_call → (elim t [ tool_call ↦ true | _ ↦ false ]) ≡ false
    go tool_call k = absurd (k refl)
    go text k = refl
    go tool_output k = refl

is_output-true : (p : Part) → is_output p ≡ true → p.part_type ≡ tool_output
unfolding is_output
is_output-true p h = go p.part_type h
  where
    go : (t : PartType) → (elim t [ tool_output ↦ true | _ ↦ false ]) ≡ true → t ≡ tool_output
    go tool_output k = refl
    go text k = absurd (cc)
    go tool_call k = absurd (cc)

no_calls : (ps : List Part) → All (λ p. p.part_type ≢ tool_call) ps → any is_call ps ≡ false
no_calls [] h = refl
no_calls (p ∷ ps) (e, h) = rw (is_call-false p e, no_calls ps h) refl

a_call : (ps : List Part) (p : Part) → In p ps → p.part_type ≡ tool_call → any is_call ps ≡ true
unfolding is_call
a_call [] p i e = elim i [ ]
a_call (q ∷ ps) p (inl same) e =
    let here : is_call q ≡ true = subst (λ b. is_call b ≡ true) same (rw e refl) in rw here refl
a_call (q ∷ ps) p (inr i) e = let ih = a_call ps p i e in ground arith

latest_of_replies : (rows : List MessageRow) → All Reply rows → latest_tool_calls rows ≡ none
unfolding latest_tool_calls or_this
latest_of_replies [] h = refl
latest_of_replies (r ∷ rs) (p, h) =
    let none_here = no_calls r.parts p.no_call in rw (latest_of_replies rs h, none_here) refl

latest_of_split :
    (front : List MessageRow) (r : MessageRow) (later : List MessageRow)
    → All Reply later
    → any is_call r.parts ≡ true
    → latest_tool_calls (front ++ (r ∷ later)) ≡ some (r, later)
unfolding latest_tool_calls or_this
latest_of_split [] r later h e = rw (latest_of_replies later h, e) refl
latest_of_split (x ∷ front) r later h e = rw (latest_of_split front r later h e) refl

replies_only :
    (later : List MessageRow)
    → All Reply later
    → any (λ l. not (l.role =? codes "tool")) later ≡ false
replies_only [] h = refl
replies_only (r ∷ rs) (p, h) =
    let same : (r.role =? codes "tool") ≡ true = rw (p.role, text_same (codes "tool")) refl in
    rw (same, replies_only rs h) refl

In-call_ids :
    (ps : List Part) (p : Part) (i : Text)
    → In p ps
    → p.part_type ≡ tool_call
    → p.tool_call_id ≡ some i
    → In i (call_ids ps)
unfolding call_ids is_call
In-call_ids [] p i k e f = elim k [ ]
In-call_ids (q ∷ ps) p i (inl same) e f =
    let kind : q.part_type ≡ tool_call = ap (λ p. p.part_type) (sym same) ∙ e in
    let id : q.tool_call_id ≡ some i = ap (λ p. p.tool_call_id) (sym same) ∙ f in
    rw (id, kind) (inl refl)
In-call_ids (q ∷ ps) p i (inr k) e f = go q.tool_call_id (is_call q) (In-call_ids ps p i k e f)
  where
    go :
        (o : Option Text) (b : Bool)
        → In i (call_ids ps)
        → In i (elim o [ none ↦ call_ids ps | some j ↦ if b then j ∷ call_ids ps else call_ids ps ])
    go none b later = later
    go (some j) true later = inr later
    go (some j) false later = later

-- A part that is an answer.
answers-output :
    (i : Text) (p : Part)
    → answers i p ≡ true
    → (p.part_type ≡ tool_output) × (p.tool_call_id ≡ some i)
unfolding answers
answers-output i p h =
    let (kind, id) = both (is_output p) h in (is_output-true p kind, go p.tool_call_id id)
  where
    both : {c : Bool} (b : Bool) → (b && c) ≡ true → (b ≡ true) × (c ≡ true)
    both true k = (refl, k)
    both false k = absurd (cc)

    go : (o : Option Text) → (elim o [ none ↦ false | some j ↦ j =? i ]) ≡ true → o ≡ some i
    go none k = absurd (cc)
    go (some j) k = ap some (((list_key {A = ℕ}).same_iff j i).0 k)

has_answer-Answered :
    (later : List MessageRow) (i : Text) → has_answer later i ≡ true → Answered i later
unfolding has_answer
has_answer-Answered later i h =
    let (row, row_in, in_row) = any_found (λ r. any (answers i) r.parts) later h in
    let (part, part_in, answer) = any_found (answers i) row.parts in_row in
    let (output, same) = answers-output i part answer in
    record {
      row = row;
      row_in = row_in;
      part = part;
      part_in = part_in;
      output = output;
      same = same;
    }

pub dangling-Closed : (s : Store) → dangling s ≡ [] → Closed s.messages
unfolding dangling dangling_after
dangling-Closed s h = record {
  answered = λ front r later split replies p k kind i id.
      let latest : latest_tool_calls s.messages ≡ some (r, later) =
        ap latest_tool_calls split
        ∙ latest_of_split front r later replies (a_call r.parts p k kind) in
      let only = replies_only later replies in
      let open_calls : keep_if (λ i. not (has_answer later i)) (call_ids r.parts) ≡ [] =
        sym (rw (dangling, latest, dangling_after, only) refl) ∙ h in
      elim (Bool-cases (has_answer later i)) [
        | inl e ↦ has_answer-Answered later i e
        | inr e ↦
            let left =
              In-keep_if (λ i. not (has_answer later i)) i (call_ids r.parts)
                (In-call_ids r.parts p i k kind id) (rw e refl) in
            elim (subst (In i) open_calls left) [ ]
      ];
}
