-- ===== src/Agent/Hints/Once.antt =====
-- Which hints the calls of one turn bring.
use kitaebot.Common.{
  ℕ, ◌≡◌, refl, ap, Bool, true, false, ◌⊎◌, inl, inr, List, [], ◌∷◌, Option, none, some, Text, any,
  In, Result, ok, err, if◌then◌else◌, Bool-cases, arith, codes, list_key, nat_key,
}
use kitaebot.Agent.Hints.{
  Kind, assert, rerun, stale_edit, same_kind, HintTracker, assert_hint, rerun_hint, stale_edit_hint,
  fire, check_text, assertion_failed, text_of_result, edit_missed, edited, tested, executed,
  observe_hint, no_hints,
}

abbrev pub text_of : Kind → Text
text_of assert = assert_hint
text_of rerun = rerun_hint
text_of stale_edit = stale_edit_hint

-- The byte in which the texts differ first.
abbrev seventh : Text → ℕ
seventh (_ ∷ _ ∷ _ ∷ _ ∷ _ ∷ _ ∷ c ∷ _) = c
seventh _ = 0

-- The same text is of the same kind.
text_of_kind : (j k : Kind) → text_of j ≡ text_of k → j ≡ k
text_of_kind assert assert h = refl
text_of_kind rerun rerun h = refl
text_of_kind stale_edit stale_edit h = refl
text_of_kind assert rerun h = absurd (omega (arith, ap seventh h))
text_of_kind assert stale_edit h = absurd (omega (arith, ap seventh h))
text_of_kind rerun assert h = absurd (omega (arith, ap seventh h))
text_of_kind rerun stale_edit h = absurd (omega (arith, ap seventh h))
text_of_kind stale_edit assert h = absurd (omega (arith, ap seventh h))
text_of_kind stale_edit rerun h = absurd (omega (arith, ap seventh h))

newest_kind : (k : Kind) (ks : List Kind) → any (same_kind k) (k ∷ ks) ≡ true
unfolding same_kind
newest_kind assert ks = refl
newest_kind rerun ks = refl
newest_kind stale_edit ks = refl

-- An observation gives no hint and latches nothing, or it gives a hint of a kind that had not
-- fired, and latches it.
abbrev Latched : List Kind → HintTracker × Option Text → Type 0
Latched ks (t, hint) =
    ((hint ≡ none) × (t.fired ≡ ks))
    ⊎ ((k : Kind) × (hint ≡ some (text_of k)) × (any (same_kind k) ks ≡ false) × (t.fired ≡ k ∷ ks))

branch :
    (b : Bool) (ks : List Kind) (x y : HintTracker × Option Text)
    → Latched ks x
    → Latched ks y
    → Latched ks (if b then x else y)
branch true ks x y h k = h
branch false ks x y h k = k

fire-Latched : (t : HintTracker) (k : Kind) → Latched t.fired (fire t k (text_of k))
unfolding fire
fire-Latched t k = elim (Bool-cases (any (same_kind k) t.fired)) [
  | inl e ↦ rw e (inl (refl, refl))
  | inr e ↦ rw e (inr (k, refl, e, refl))
]

check_text-Latched : (t : HintTracker) (text : Text) → Latched t.fired (check_text t text)
unfolding check_text
check_text-Latched t text =
    branch (assertion_failed text) t.fired _ _ (fire-Latched t assert) (inl (refl, refl))

-- One completed call: the tool's name, its arguments and its result.
abbrev pub Observation : Type 0
Observation = Text × Text × Result Text Text

abbrev pub with_given : Option Text → List Text → List Text
with_given none hints = hints
with_given (some h) hints = h ∷ hints

abbrev pub Distinct : List Text → Type 0
Distinct [] = Unit {0}
Distinct (x ∷ xs) = (In x xs → ⊥) × Distinct xs

module _ (arg_str : Text → Text → Option Text) where
  edited-Latched :
      (t : HintTracker) (tool args : Text) (r : Result Text Text)
      → Latched t.fired (edited arg_str t tool args r)
  unfolding edited edit_missed
  edited-Latched t tool args (ok output) =
      check_text-Latched (record t { edited_since_test = true }) output
  edited-Latched t tool args (err e) =
      branch _ t.fired _ _
        (branch _ t.fired _ _ (fire-Latched _ stale_edit) (check_text-Latched _ e))
        (check_text-Latched t e)

  executed-Latched :
      (t : HintTracker) (command : Option Text) (text : Text)
      → Latched t.fired (executed arg_str t command text)
  unfolding executed tested
  executed-Latched t none text = check_text-Latched t text
  executed-Latched t (some command) text =
      branch _ t.fired _ _ (branch _ t.fired _ _ (fire-Latched _ rerun) (check_text-Latched _ text))
        (check_text-Latched t text)

  observe_hint-Latched :
      (t : HintTracker) (tool args : Text) (r : Result Text Text)
      → Latched t.fired (observe_hint arg_str t tool args r)
  unfolding observe_hint
  observe_hint-Latched t tool args r = branch _ t.fired _ _ (edited-Latched t tool args r) (
      branch _ t.fired _ _ (executed-Latched t (arg_str args (codes "command")) (text_of_result r))
        (check_text-Latched t (text_of_result r)))

  -- The hints that the calls of a turn bring, in order.
  abbrev pub given : HintTracker → List Observation → List Text
  given t [] = []
  given t ((tool, args, r) ∷ calls) =
      let (t', hint) = observe_hint arg_str t tool args r in with_given hint (given t' calls)

  -- What is still to be given is of kinds that have not fired.
  given-fresh :
      (calls : List Observation) (t : HintTracker) (k : Kind)
      → any (same_kind k) t.fired ≡ true
      → In (text_of k) (given t calls)
      → ⊥
  given-fresh [] t k old i = i
  given-fresh ((tool, args, r) ∷ calls) t k old i =
      step (observe_hint arg_str t tool args r) (observe_hint-Latched t tool args r) i
        (given-fresh calls (observe_hint arg_str t tool args r).0 k)
    where
      later : (l : Kind) → any (same_kind k) (l ∷ t.fired) ≡ true
      later l = ground arith

      step :
          (x : HintTracker × Option Text)
          → Latched t.fired x
          → In (text_of k) (with_given x.1 (given x.0 calls))
          → (any (same_kind k) x.0.fired ≡ true → In (text_of k) (given x.0 calls) → ⊥)
          → ⊥
      step (t', hint) (inl (quiet, same)) j ih = ih (rw same old) (rw quiet at j)
      step (t', hint) (inr (l, gives, fresh, latched)) j ih = elim (rw gives at j) [
        | inl e ↦ absurd (cc (rw (← text_of_kind k l e) at fresh))
        | inr i ↦ ih (rw latched (later l)) i
      ]

  -- In one turn no hint is given twice, whatever the calls and their results.
  pub given-Distinct : (calls : List Observation) → Distinct (given no_hints calls)
  given-Distinct calls = go calls no_hints
    where
      go : (calls : List Observation) (t : HintTracker) → Distinct (given t calls)
      go [] t = tt
      go ((tool, args, r) ∷ calls) t =
          step (observe_hint arg_str t tool args r) (observe_hint-Latched t tool args r)
            (go calls (observe_hint arg_str t tool args r).0)
        where
          step :
              (x : HintTracker × Option Text)
              → Latched t.fired x
              → Distinct (given x.0 calls)
              → Distinct (with_given x.1 (given x.0 calls))
          step (t', hint) (inl (quiet, same)) ds = rw quiet ds
          step (t', hint) (inr (l, gives, fresh, latched)) ds =
              rw gives (given-fresh calls t' l (rw latched (newest_kind l t.fired)), ds)
