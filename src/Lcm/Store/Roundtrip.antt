-- ===== src/Lcm/Store/Roundtrip.antt =====
-- context/lcm/engine.rs: a message that is pushed is read back as it was.
use kitaebot.Common.{
  ℕ, suc, ◌+◌, ◌≡◌, refl, subst, true, List, [], ◌∷◌, ◌++◌, map, Option, Text, ok, All, keep_if,
  arith,
}
use kitaebot.Types.{
  Message, ToolCall, assistant, system, user, tool, tool_calls, is_valid_tool_name,
}
use kitaebot.Lcm.Store.{
  Store, Item, message, MessageRow, LargeFile, message_row, insert_parts, text_part, call_parts,
  is_call, is_output, column, read_call, read_calls, assistant_of, tool_of, reconstruct_message,
  role_str, push_message, next_of, add_file,
}
use kitaebot.Lcm.Store.Ordered.{Span, Ascending, Span-next, insert_next, Span-append}

unfoldable pub ValidCall : ToolCall → Type 0
ValidCall c = is_valid_tool_name c.function.name ≡ true

-- A message that the engine can read back: tool calls are there, and have valid names.
unfoldable pub Storable : Message → Type 0
unfolding ValidCall
Storable (tool_calls t []) = ⊥
Storable (tool_calls t (c ∷ cs)) = All ValidCall (c ∷ cs)
Storable m = Unit

read-call_parts :
    (id n : ℕ) (cs : List ToolCall)
    → All ValidCall cs
    → read_calls id (keep_if is_call (call_parts n cs)) ≡ ok cs
unfolding ValidCall read_calls read_call call_parts is_call column
read-call_parts id n [] h = refl
read-call_parts id n (c ∷ cs) (v, h) = rw (v, read-call_parts id (n + 1) cs h) refl

-- A message is rebuilt from its row and parts as it was, when its tool calls, if it has any, have
-- valid names and there is one at least.
pub reconstruct-message_row :
    (id seq : ℕ) (now : Text) (m : Message)
    → Storable m
    → reconstruct_message (message_row id seq now m) ≡ ok m
unfolding Storable reconstruct_message message_row insert_parts role_str text_part tool_of is_output
    column is_call read_calls assistant_of kitaebot.Types.content
reconstruct-message_row id seq now (user t) h = refl
reconstruct-message_row id seq now (system t) h = refl
reconstruct-message_row id seq now (assistant t) h = refl
reconstruct-message_row id seq now (tool i t) h = refl
reconstruct-message_row id seq now (tool_calls t []) h = elim h [ ]
reconstruct-message_row id seq now (tool_calls t (c ∷ cs)) h =
    rw (read-call_parts id 1 (c ∷ cs) h) refl

-- The row and the item that a push adds.
unfoldable pub new_row : Text → Message → Store → MessageRow
unfolding message_row next_of
new_row now m s = message_row (s.last_rowid + 1) (next_of (map (λ r. r.seq) s.messages)) now m

pub record Pushed (now : Text) (m : Message) (s s' : Store) : Type 0 where
  pub messages : s'.messages ≡ s.messages ++ new_row now m s ∷ []
  pub ordinal : ℕ
  pub items :
      s'.items ≡ s.items ++ record { ordinal = ordinal; entry = message (new_row now m s) } ∷ []
  pub ascending : Ascending s'.items

-- A push to ordered items succeeds: the message becomes the last row and the last item.
pub push_message-Pushed :
    (now : Text) (m : Message) (file : Option LargeFile) (s : Store)
    → Ascending s.items
    → (s' : Store) × (push_message now m file s ≡ ok s') × Pushed now m s s'
unfolding push_message new_row Ascending Span
push_message-Pushed now m file s (hi, h) =
    let row = new_row now m s in
    let n = next_of (map (λ i. i.ordinal) s.items) in
    let item : Item = record { ordinal = n; entry = message row } in
    let below = Span-next 0 s.items hi h in
    let below' : Span 0 s.items n = subst (Span 0 s.items) (omega arith) below in
    let inserted = insert_next 0 s.items item below' in
    (
      record s {
        last_rowid = s.last_rowid + 1;
        messages = s.messages ++ row ∷ [];
        items = s.items ++ item ∷ [];
        large_files = add_file file s.large_files;
      },
      rw inserted refl,
      record {
        messages = refl;
        ordinal = n;
        items = refl;
        ascending =
            (suc n, Span-append 0 s.items n (item ∷ []) (suc n) below' (omega arith, omega arith));
      },
    )
