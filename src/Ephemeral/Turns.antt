-- ===== src/Ephemeral/Turns.antt =====
-- context/ephemeral.rs under agent/mod.rs: what a sub-agent's turn sends to the provider.
use kitaebot.Common.{
  subst, append-nil, ℕ, ◌≡◌, refl, ap, sym, ◌∙◌, List, [], ◌∷◌, ◌++◌, map, append_assoc,
  ok_injective, Text,
}
use kitaebot.Types.{Message, system}
use kitaebot.Agent.World.{Outside, Event, pushed, asked, emitted}
use kitaebot.Agent.Rounds.{ReplyPolicy}
use kitaebot.Agent.Turn.{BudgetPolicy, Course, run_turn}
use kitaebot.Agent.Turn.Frame.{Framed}
use kitaebot.Agent.Turn.Kept.{Failed, Asks, run_turn-Kept}
use kitaebot.Ephemeral.{
  EphemeralSession, new, cut_result, push_message, assemble, sub_agent, observe_tokens,
  observe_request, compact_if_urgent,
}

-- The messages of a trace, in order.
abbrev pub said : List Event → List Message
said [] = []
said (pushed m ∷ es) = m ∷ said es
said (asked messages offered ∷ es) = said es
said (emitted a ∷ es) = said es

-- Every request of the trace holds the prompt and the messages before it, with capped tool results.
abbrev pub Faithful : Text → ℕ → List Message → List Event → Type 0
Faithful prompt n past [] = Unit {0}
Faithful prompt n past (pushed m ∷ es) = Faithful prompt n (past ++ m ∷ []) es
Faithful prompt n past (asked messages offered ∷ es) =
    (messages ≡ system prompt ∷ map (cut_result n) past) × Faithful prompt n past es
Faithful prompt n past (emitted a ∷ es) = Faithful prompt n past es

said-append : (es fs : List Event) → said (es ++ fs) ≡ said es ++ said fs
said-append [] fs = refl
said-append (pushed m ∷ es) fs = ap (λ ms. m ∷ ms) (said-append es fs)
said-append (asked messages offered ∷ es) fs = said-append es fs
said-append (emitted a ∷ es) fs = said-append es fs

map-snoc :
    {A B : Type 0} (f : A → B) (xs : List A) (x : A) → map f (xs ++ x ∷ []) ≡ map f xs ++ f x ∷ []
map-snoc f [] x = refl
map-snoc f (y ∷ xs) x = ap (λ ys. f y ∷ ys) (map-snoc f xs x)

Faithful-append :
    (prompt : Text) (n : ℕ) (past : List Message) (es fs : List Event)
    → Faithful prompt n past es
    → Faithful prompt n (past ++ said es) fs
    → Faithful prompt n past (es ++ fs)
Faithful-append prompt n past [] fs h k = subst (λ ms. Faithful prompt n ms fs) (append-nil past) k
Faithful-append prompt n past (pushed m ∷ es) fs h k =
    Faithful-append prompt n (past ++ m ∷ []) es fs h
      (subst (λ ms. Faithful prompt n ms fs) (sym (append_assoc past (m ∷ []) (said es))) k)
Faithful-append prompt n past (asked messages offered ∷ es) fs (e, h) k =
    (e, Faithful-append prompt n past es fs h k)
Faithful-append prompt n past (emitted a ∷ es) fs h k = Faithful-append prompt n past es fs h k

-- The engine holds the capped messages of the trace, and the trace is faithful.
pub record Mirrored (prompt : Text) (n : ℕ) (e : EphemeralSession) (es : List Event) : Type 0 where
  pub cap : e.tool_output_tokens ≡ n
  pub held : e.messages ≡ map (cut_result n) (said es)
  pub sent : Faithful prompt n [] es

pushed_mirror :
    (prompt : Text) (n : ℕ) (m : Message) (e : EphemeralSession) (es : List Event)
    → Mirrored prompt n e es
    → Mirrored prompt n (push_message m e) (es ++ pushed m ∷ [])
unfolding push_message
pushed_mirror prompt n m e es h = record {
  cap = h.cap;
  held =
      ap (λ k. e.messages ++ cut_result k m ∷ []) h.cap
      ∙ ap (λ ms. ms ++ cut_result n m ∷ []) h.held
      ∙ sym (
          ap (map (cut_result n)) (said-append es (pushed m ∷ []))
          ∙ map-snoc (cut_result n) (said es) m);
  sent = Faithful-append prompt n [] es (pushed m ∷ []) h.sent tt;
}

-- An event that is not a message.
quiet_mirror :
    (prompt : Text) (n : ℕ) (v : Event) (e : EphemeralSession) (es : List Event)
    → said (v ∷ []) ≡ []
    → Faithful prompt n (said es) (v ∷ [])
    → Mirrored prompt n e es
    → Mirrored prompt n e (es ++ v ∷ [])
quiet_mirror prompt n v e es quiet fits h =
    let same : said (es ++ v ∷ []) ≡ said es =
      said-append es (v ∷ []) ∙ ap (λ ms. said es ++ ms) quiet ∙ append-nil (said es) in
    record {
      cap = h.cap;
      held = h.held ∙ sym (ap (map (cut_result n)) same);
      sent = Faithful-append prompt n [] es (v ∷ []) h.sent fits;
    }

frame :
    (prompt : Text) (n : ℕ) (o : Outside)
    → Framed
        (sub_agent prompt o)
        (Failed (sub_agent prompt o) (Mirrored prompt n))
        (Mirrored prompt n)
unfolding compact_if_urgent observe_tokens observe_request
frame prompt n o = record {
  pushes = pushed_mirror prompt n;
  emits = λ a e es h. quiet_mirror prompt n (emitted a) e es refl tt h;
  compacts = λ e es h. h;
  counts = λ k e es h. h;
  sends = λ messages offered e es h. h;
  fails = λ e t h. h;
}

asks : (prompt : Text) (n : ℕ) (o : Outside) → Asks (sub_agent prompt o) (Mirrored prompt n)
unfolding assemble
asks prompt n o messages offered e es same h =
    quiet_mirror prompt n (asked messages offered) e es refl
      (sym (ok_injective _ _ same) ∙ ap (λ ms. system prompt ∷ ms) h.held, tt) h

-- However a sub-agent's turn ends, whatever the model and the tools answer: its context holds the
-- messages of the turn in order, each tool result cut to the cap, and every request to the provider
-- held the system prompt and the context of that moment.
pub run_turn-Mirrored :
    (prompt : Text) (n : ℕ) (o : Outside) (reply : ReplyPolicy) (budget : BudgetPolicy) (max : ℕ)
    (message : Text) (c : Course)
    → Mirrored prompt n
        (run_turn (sub_agent prompt o) reply budget max message c (new n)).0.engine
        (run_turn (sub_agent prompt o) reply budget max message c (new n)).0.trace
unfolding new
run_turn-Mirrored prompt n o reply budget max message c =
    run_turn-Kept (sub_agent prompt o) (Mirrored prompt n) (frame prompt n o) (asks prompt n o)
      reply budget max message c (new n) (record { cap = refl; held = refl; sent = tt })
