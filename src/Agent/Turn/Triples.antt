-- ===== src/Agent/Turn/Triples.antt =====
-- Rules for the turn's monad: a triple says what holds of the state behind an action, on its
-- result and on its error.
use kitaebot.Common.{Option, none, some, Text, Result, ok, err, Bool, true, false}
use kitaebot.Agent.Errors.{TurnError, engine_failed}
use kitaebot.Agent.World.{Outside, Turn, M, bind, noted, pushed, push, settled, emitted, Activity}
use kitaebot.Agent.Rounds.{cancellable}
use kitaebot.Types.{Message}

module _ (o : Outside) (E : TurnError → Turn o → Type 0) where
  abbrev pub Post : {A : Type 0} → (A → Turn o → Type 0) → Turn o × Result TurnError A → Type 0
  Post Q (t, ok a) = Q a t
  Post Q (t, err e) = E e t

  -- From any state with `P`, the action ends with `Q` of its result, or with `E` of its error.
  pub record Triple {A : Type 0} (P : Turn o → Type 0) (m : M o A) (Q : A → Turn o → Type 0)
      : Type 0 where
    pub run : (t : Turn o) → P t → Post Q (m t)

  pub bind_rule :
      {A B : Type 0} {P : Turn o → Type 0} {m : M o A} (Q : A → Turn o → Type 0) {f : A → M o B}
      {R : B → Turn o → Type 0}
      → Triple P m Q
      → ((a : A) → Triple (Q a) (f a) R)
      → Triple P (bind o m f) R
  unfolding bind
  bind_rule {A} {B} {P} {m} Q {f} {R} hm hf = record { run = λ t p. go (m t) (hm.run t p) }
    where
      go :
          (r : Turn o × Result TurnError A)
          → Post Q r
          → Post R (elim r.1 [ ok a ↦ f a r.0 | err e ↦ (r.0, err e) ])
      go (t', ok a) q = (hf a).run t' q
      go (t', err e) q = q

  -- The race against the token: only what follows it when it has not fired needs a proof.
  pub race_rule :
      {A B : Type 0} {P : Turn o → Type 0} (stop : Bool) (a : A) (f : A → M o B)
      (R : B → Turn o → Type 0)
      → ((t : Turn o) → P t → E TurnError.cancelled (noted o (emitted Activity.cancelled) t))
      → Triple P (f a) R
      → Triple P (bind o (cancellable o stop a) f) R
  unfolding cancellable bind
  race_rule true a f R stopped h = record { run = stopped }
  race_rule false a f R stopped h = h

  -- A message reaches the trace whether or not the engine takes it.
  pub push_rule :
      (m : Message) (P Q : Turn o → Type 0)
      → ((t : Turn o)
          → P t
          → Q (noted o (pushed m) (record t { engine = (o.push_message m t.engine).0 })))
      → ((e : Text) (t : Turn o) → Q t → E (engine_failed e) t)
      → Triple P (push o m) (λ _. Q)
  unfolding push
  push_rule m P Q keeps fails = record { run = λ t p. go (o.push_message m t.engine).1 (keeps t p) }
    where
      go : (f : Option Text) {u : Turn o} → Q u → Post (λ (_ : Unit {0}). Q) (u, settled o f)
      go none q = q
      go (some e) q = fails e _ q
