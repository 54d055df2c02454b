-- ===== src/Agent/Strikes/Counts.antt =====
-- The count of a failure against the failures so far.
use kitaebot.Common.{
  ℕ, ◌+◌, ◌≡◌, ◌↔◌, refl, ap, ◌∙◌, Bool, true, false, not, ◌&&◌, arith, List, [], ◌∷◌, Option, none,
  some, Text, ◌=?◌, Key, list_key, nat_key, pair_key, get, insert, get-insert, if◌then◌else◌,
  Bool-cases, inl, inr,
}
use kitaebot.Agent.Errors.{ToolError, blocked, error_class}
use kitaebot.Agent.Strikes.{Signature, Strikes, count_of, is_blocked, signature, record_strike}

some_or_none :
    (b : Bool) (n : ℕ) (g : Option ℕ)
    → (elim (if b then some n else g) [ none ↦ 0 | some n ↦ n ])
      ≡ (if b then n else (elim g [ none ↦ 0 | some n ↦ n ]))
some_or_none true n g = refl
some_or_none false n g = refl

count_of-insert {ℓ} :
    {K : Type ℓ} ⦃e : Key K⦄ (k j : K) (m : List (K × ℕ))
    → count_of j (insert k (count_of k m + 1) m)
      ≡ (if k =? j then count_of k m + 1 else count_of j m)
count_of-insert ⦃e⦄ k j m =
    ap (λ g. elim g [ none ↦ 0 | some n ↦ n ]) (get-insert k j (count_of k m + 1) m)
    ∙ some_or_none (e.same k j) (count_of k m + 1) (get j m)

abbrev either : Bool → Strikes × Option ℕ → Strikes × Option ℕ → Strikes × Option ℕ
either b x y = if b then x else y

-- A failed call: the tool's name, its arguments and the error.
abbrev pub Failure : Type 0
Failure = Text × Text × ToolError

-- A blocked call is no failure of the tool.
abbrev pub counts : ToolError → Bool
counts (blocked operation guidance) = false
counts e = true

counts-is_blocked : (e : ToolError) → counts e ≡ not (is_blocked e)
unfolding is_blocked
counts-is_blocked e = elim e as (λ k. counts k ≡ not (is_blocked k)) [
  | blocked operation guidance ↦ refl
  | _ ↦ refl
]

signature_iff : (a b : Signature) → ((a =? b) ≡ true) ↔ (a ≡ b)
signature_iff = pair_key.same_iff

module _ (canonical_args : Text → Text) where
  -- The failures of a turn, the newest first.
  abbrev pub strikes_of : List Failure → Strikes
  strikes_of [] = []
  strikes_of ((tool, args, e) ∷ fs) = (record_strike canonical_args (strikes_of fs) tool args e).0

  -- The failures that are not blocked and share the tool, the canonical arguments and the error's
  -- class with this one.
  abbrev pub alike : Failure → List Failure → ℕ
  alike f [] = 0
  alike f (g ∷ fs) =
      if counts g.2
        && (g.0 =? f.0)
        && (canonical_args g.1 =? canonical_args f.1)
        && (error_class g.2 =? error_class f.2)
      then alike f fs + 1
      else alike f fs

  tallied : Signature → List Failure → ℕ
  tallied k [] = 0
  tallied k ((tool, args, e) ∷ fs) =
      if is_blocked e
      then tallied k fs
      else if signature canonical_args tool args e =? k
      then tallied k fs + 1
      else tallied k fs

  tallied-alike :
      (tool args : Text) (e : ToolError) (fs : List Failure)
      → tallied (signature canonical_args tool args e) fs ≡ alike (tool, args, e) fs
  unfolding tallied signature
  tallied-alike tool args e [] = refl
  tallied-alike tool args e ((t, a, f) ∷ fs) =
      let blocks = counts-is_blocked f in let ih = tallied-alike tool args e fs in ground arith

  -- A failure counts for its own signature only, and not at all when it is blocked.
  tally :
      (is : Bool) (k key : Signature) (strikes : Strikes) (fs : List Failure)
      → count_of k strikes ≡ tallied k fs
      → count_of key strikes ≡ tallied key fs
      → count_of k
          (either is
            (strikes, none)
            (insert key (count_of key strikes + 1) strikes, some (count_of key strikes + 1))).0
        ≡ (if is then tallied k fs else if key =? k then tallied k fs + 1 else tallied k fs)
  tally true k key strikes fs h hkey = h
  tally false k key strikes fs h hkey = elim (Bool-cases (key =? k)) [
    | inl same ↦ rw same (
        count_of-insert key k strikes
        ∙ rw same (ap (λ n. n + 1) (hkey ∙ ap (λ j. tallied j fs) ((signature_iff key k).0 same))))
    | inr other ↦ rw other (count_of-insert key k strikes ∙ rw other h)
  ]

  count-strikes_of : (k : Signature) (fs : List Failure) → count_of k (strikes_of fs) ≡ tallied k fs
  unfolding record_strike get tallied
  count-strikes_of k [] = refl
  count-strikes_of k ((tool, args, e) ∷ fs) =
      let key = signature canonical_args tool args e in
      tally (is_blocked e) k key (strikes_of fs) fs (count-strikes_of k fs)
        (count-strikes_of key fs)

  -- The count that a failure is given is one more than the earlier failures with its tool, its
  -- canonical arguments and its error's class, without the blocked ones; and a blocked call is given
  -- none.
  pub record_strike-count :
      (tool args : Text) (e : ToolError) (fs : List Failure)
      → (record_strike canonical_args (strikes_of fs) tool args e).1
        ≡ (if counts e then some (alike (tool, args, e) fs + 1) else none)
  unfolding record_strike
  record_strike-count tool args e fs =
      by_block (is_blocked e) (counts e) (counts-is_blocked e) _
        (count-strikes_of (signature canonical_args tool args e) fs ∙ tallied-alike tool args e fs)
    where
      by_block :
          (is c : Bool)
          → c ≡ not is
          → (m : Strikes) {n k : ℕ} → n ≡ k
          → (either is (strikes_of fs, none) (m, some (n + 1))).1
            ≡ (if c then some (k + 1) else none)
      by_block true c same m h = rw same refl
      by_block false c same m h = rw same (ap (λ n. some (n + 1)) h)
