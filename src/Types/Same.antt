-- ===== src/Types/Same.antt =====
-- types.rs: the derived equality of messages.
use kitaebot.Common.{
  ℕ, zero, suc, ◌≡◌, refl, ap, sym, ◌∙◌, List, [], Text, Key, nat_key, list_key, pair_key,
}
use kitaebot.Types.{Message, ToolCall, assistant, system, user, tool, tool_calls}

-- Values are compared by their codes.
abbrev pub by_code {ℓ κ} :
    {A : Type ℓ} {B : Type κ} ⦃e : Key B⦄ (code : A → B) (decode : B → A)
    → ((a : A) → decode (code a) ≡ a)
    → Key A
by_code ⦃e⦄ code decode inverse = record {
  same = λ a b. e.same (code a) (code b);
  same_iff = λ a b. (
    λ h. sym (inverse a) ∙ ap decode ((e.same_iff (code a) (code b)).0 h) ∙ inverse b,
    λ p. (e.same_iff (code a) (code b)).1 (ap code p),
  );
}

unfoldable pub call_code : ToolCall → Text × (Text × Text)
call_code c = (c.id, (c.function.name, c.function.arguments))

pub code_call : Text × (Text × Text) → ToolCall
code_call (id, (name, arguments)) = record {
  id = id;
  function = record { name = name; arguments = arguments };
}

pub code_call-inverse : (c : ToolCall) → code_call (call_code c) ≡ c
unfolding call_code code_call
code_call-inverse c = refl

instance abbrev pub call_key : Key ToolCall
call_key = by_code call_code code_call code_call-inverse

-- The variant, and what it holds.
abbrev pub Code : Type 0
Code = ℕ × (Text × (Text × List ToolCall))

unfoldable pub message_code : Message → Code
message_code (assistant t) = (0, (t, ([], [])))
message_code (system t) = (1, (t, ([], [])))
message_code (user t) = (2, (t, ([], [])))
message_code (tool i t) = (3, (t, (i, [])))
message_code (tool_calls t cs) = (4, (t, ([], cs)))

pub code_message : Code → Message
code_message (zero, (t, _)) = assistant t
code_message (suc zero, (t, _)) = system t
code_message (suc (suc zero), (t, _)) = user t
code_message (suc (suc (suc zero)), (t, (i, _))) = tool i t
code_message (n, (t, (i, cs))) = tool_calls t cs

pub code-inverse : (m : Message) → code_message (message_code m) ≡ m
unfolding message_code code_message
code-inverse (assistant t) = refl
code-inverse (system t) = refl
code-inverse (user t) = refl
code-inverse (tool i t) = refl
code-inverse (tool_calls t cs) = refl

instance abbrev pub message_key : Key Message
message_key = by_code message_code code_message code-inverse
