-- ===== src/Agent/World.antt =====
-- The state of a turn of agent/mod.rs and what it meets outside: the context engine, the
-- provider's answers, the tools' results and the cancellation token.
use kitaebot.Common.{ℕ, Bool, false, List, [], ◌∷◌, ◌++◌, Option, none, some, Text, Result, ok, err}
use kitaebot.Types.{Message, ToolCall, Response}
use kitaebot.Agent.Errors.{ToolError, TurnError, engine_failed}
use kitaebot.Agent.Usage.{CallUsage, TurnUsage, no_usage}
use kitaebot.Agent.Repeats.{Json, RepeatDetector, new}
use kitaebot.Agent.Strikes.{Strikes}

-- The components that the loop calls. `some e` and `err e` are the failures of the engine.
pub record Outside : Type 1 where
  pub Engine : Type 0
  pub push_message : Message → Engine → Engine × Option Text
  pub compact_if_urgent : Engine → Engine × Result Text (Option (ℕ × ℕ))
  pub assemble : Engine → Result Text (List Message)
  pub observe_request : List Message → Bool → Engine → Engine
  pub observe_tokens : ℕ → Engine → Engine
  pub Hints : Type 0
  pub new_hints : Hints
  pub observe : Text → Text → Result Text Text → Hints → Hints × Option Text
  pub json : Json
  pub canonical_args : Text → Text
  pub check_tool_output : Text → Text → Text
  pub tool_error_text : ToolError → Text
  pub turn_error_text : TurnError → Text
  pub truncate_output : Text → ℕ → Text

pub data ChatAnswer : Type 0 where
  replied : Response → CallUsage → List CallUsage → ChatAnswer
  failed : Text → List CallUsage → ChatAnswer

-- What happens in one iteration: whether the token has fired where the loop looks at it, the
-- provider's answer, and the result of each tool call.
pub record Round : Type 0 where
  pub cancelled : Bool
  pub chat_cancelled : Bool
  pub chat : ChatAnswer
  pub tools_cancelled : Bool
  pub execute : ToolCall → Result ToolError Text

pub data Activity : Type 0 where
  cancelled max_iterations : Activity
  compaction : ℕ → ℕ → Activity
  tool_end : Text → Option Text → Activity
  tool_start : Text → Activity

-- What the loop did, in order: messages handed to the engine, requests sent to the provider (with
-- the tools offered or not), and the activity shown to the channel.
pub data Event : Type 0 where
  pushed : Message → Event
  asked : List Message → Bool → Event
  emitted : Activity → Event

pub record TurnStats : Type 0 where
  pub iterations : ℕ
  pub tool_calls : ℕ
  pub prompt_tokens : Option ℕ
  pub usage : TurnUsage
  pub squeezed : Bool
  pub nudged : Bool
  pub checkpointed : Bool

module _ (o : Outside) where
  open o use {Engine, push_message, Hints, new_hints, json}

  pub record Turn : Type 0 where
    pub engine : Engine
    pub stats : TurnStats
    pub repeats : RepeatDetector json
    pub hints : Hints
    pub policy_strikes : List (Text × ℕ)
    pub blocked_rounds : ℕ
    pub repeat_strikes : ℕ
    pub tool_strikes : Strikes
    pub trace : List Event

  unfoldable pub start : Engine → Turn
  start engine = record {
    engine = engine;
    stats = record {
      iterations = 0;
      tool_calls = 0;
      prompt_tokens = none;
      usage = no_usage;
      squeezed = false;
      nudged = false;
      checkpointed = false;
    };
    repeats = new json;
    hints = new_hints;
    policy_strikes = [];
    blocked_rounds = 0;
    repeat_strikes = 0;
    tool_strikes = [];
    trace = [];
  }

  -- The state is kept on an error too.
  abbrev pub M : Type 0 → Type 0
  M A = Turn → Turn × Result TurnError A

  abbrev pub fail : {A : Type 0} → TurnError → M A
  fail e t = (t, err e)

  abbrev pub pure : {A : Type 0} → A → M A
  pure a t = (t, ok a)

  unfoldable pub bind : {A B : Type 0} → M A → (A → M B) → M B
  bind m f t = let (t', r) = m t in elim r [ ok a ↦ f a t' | err e ↦ (t', err e) ]

  abbrev pub modify : (Turn → Turn) → M (Unit {0})
  modify f t = (f t, ok tt)

  abbrev pub noted : Event → Turn → Turn
  noted e t = record t { trace = t.trace ++ e ∷ [] }

  abbrev pub emit : Activity → M (Unit {0})
  emit a = modify (noted (emitted a))

  unfoldable pub settled : Option Text → Result TurnError (Unit {0})
  settled none = ok tt
  settled (some e) = err (engine_failed e)

  -- `push_message(…).await?`.
  unfoldable pub push : Message → M (Unit {0})
  unfolding settled
  push m t =
      let (engine', failure) = push_message m t.engine in
      (noted (pushed m) (record t { engine = engine' }), settled failure)

  -- `let _ = push_message(…).await`.
  unfoldable pub push_quietly : Message → M (Unit {0})
  push_quietly m t = (noted (pushed m) (record t { engine = (push_message m t.engine).0 }), ok tt)
