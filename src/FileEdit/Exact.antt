-- ===== src/FileEdit/Exact.antt =====
-- tools/file_edit.rs: the exact rung, and what a replacement of all of its matches comes to.
use kitaebot.Common.{
  ℕ, zero, suc, ◌+◌, ◌-◌, ◌<◌, ◌≡◌, ◌⊎◌, inl, inr, refl, ap, ◌∙◌, true, false, List, [], ◌∷◌, ◌++◌,
  Text, length, drop, arith, Bool-cases, ==_iff,
}
use kitaebot.FileEdit.Matching.{Span, starts_with, match_indices}

-- The text with every match of `old` replaced, from the left: the first match of all, and then
-- behind it.
pub data Replaced (old new : Text) : Text → Text → Type 0 where
  kept : (s : Text) → ((k : ℕ) → starts_with old (drop k s) ≡ false) → Replaced old new s s
  next :
      {s out : Text} (pre post r : Text)
      → s ≡ pre ++ (old ++ post)
      → ((k : ℕ) → k < length pre → starts_with old (drop k s) ≡ false)
      → Replaced old new post r
      → out ≡ pre ++ (new ++ r)
      → Replaced old new s out

pub starts_with-split : (old s : Text) → starts_with old s ≡ true → s ≡ old ++ drop (length old) s
unfolding starts_with
starts_with-split [] s h = refl
starts_with-split (b ∷ old) [] h = cc
starts_with-split (b ∷ old) (c ∷ s) h = ground (arith, ==_iff b c, starts_with-split old s)

drop-nil : {A : Type 0} (k : ℕ) → drop {A = A} k [] ≡ []
drop-nil zero = refl
drop-nil (suc k) = refl

match_indices-skip :
    (old : Text) (pos k : ℕ) (s : Text)
    → match_indices old pos k s ≡ match_indices old (pos + k) 0 (drop k s)
unfolding match_indices
match_indices-skip old pos zero s = ap (λ p. match_indices old p 0 s) (omega arith)
match_indices-skip old pos (suc k) [] = refl
match_indices-skip old pos (suc k) (b ∷ s) =
    match_indices-skip old (pos + 1) k s ∙ ap (λ p. match_indices old p 0 (drop k s)) (omega arith)

-- No match at all, or the first one and those behind it.
pub record First (old : Text) (pos : ℕ) (s : Text) : Type 0 where
  pub pre : Text
  pub post : Text
  pub whole : s ≡ pre ++ (old ++ post)
  pub first : (k : ℕ) → k < length pre → starts_with old (drop k s) ≡ false
  pub spans :
      match_indices old pos 0 s
      ≡ record { start = pos + length pre; len = length old }
        ∷ match_indices old (pos + length pre + length old) 0 post

here_step :
    (old : Text) (pos c : ℕ) (s : Text)
    → starts_with old (c ∷ s) ≡ true
    → match_indices old pos 0 (c ∷ s)
      ≡ record { start = pos; len = length old } ∷ match_indices old (pos + 1) (length old - 1) s
unfolding match_indices
here_step old pos c s e = rw (e, match_indices)

later_step :
    (old : Text) (pos c : ℕ) (s : Text)
    → starts_with old (c ∷ s) ≡ false
    → match_indices old pos 0 (c ∷ s) ≡ match_indices old (pos + 1) 0 s
unfolding match_indices
later_step old pos c s e = rw (e, match_indices)

absent_cons :
    (old : Text) (c : ℕ) (s : Text) (n : ℕ)
    → starts_with old (c ∷ s) ≡ false
    → ((k : ℕ) → k < n → starts_with old (drop k s) ≡ false)
    → (k : ℕ) → k < suc n
    → starts_with old (drop k (c ∷ s)) ≡ false
absent_cons old c s n e h zero lt = e
absent_cons old c s n e h (suc k) lt = h k (omega arith)

absent_nil : (b : ℕ) (old : Text) (k : ℕ) → starts_with (b ∷ old) (drop k []) ≡ false
unfolding starts_with
absent_nil b old k = rw (drop-nil {A = ℕ} k)

pub scan :
    (b : ℕ) (old : Text) (pos : ℕ) (s : Text)
    → (((k : ℕ) → starts_with (b ∷ old) (drop k s) ≡ false)
        × (match_indices (b ∷ old) pos 0 s ≡ []))
      ⊎ First (b ∷ old) pos s
unfolding match_indices
scan b old pos [] = inl (absent_nil b old, unfold match_indices in refl)
scan b old pos (c ∷ s) = elim (Bool-cases (starts_with (b ∷ old) (c ∷ s))) [
  | inl e ↦ inr (record {
    pre = [];
    post = drop (length old) s;
    whole = starts_with-split (b ∷ old) (c ∷ s) e;
    first = λ k h. absurd (omega arith);
    spans =
        here_step (b ∷ old) pos c s e
        ∙ spans_cong (omega arith) (
            match_indices-skip (b ∷ old) (pos + 1) (length (b ∷ old) - 1) s
            ∙ at_drop {q = pos + 0 + suc (length old)} {m = length old} s (omega arith)
                (omega arith));
  })
  | inr e ↦ elim (scan b old (pos + 1) s) [
    | inl (absent, empty) ↦ inl (
      λ k. absent_cons (b ∷ old) c s (suc k) e (λ j lt. absent j) k (omega arith),
      later_step (b ∷ old) pos c s e ∙ empty,
    )
    | inr f ↦ inr (record {
      pre = c ∷ f.pre;
      post = f.post;
      whole = ap (λ t. c ∷ t) f.whole;
      first = absent_cons (b ∷ old) c s (length f.pre) e f.first;
      spans =
          later_step (b ∷ old) pos c s e
          ∙ f.spans
          ∙ spans_cong (omega arith) (
              at_drop {q = pos + suc (length f.pre) + suc (length old)} {n = 0} {m = 0} f.post
                (omega arith) refl);
    })
  ]
]
  where
    spans_cong :
        {p q : ℕ} {rest rest' : List Span}
        → p ≡ q
        → rest ≡ rest'
        → ◌≡◌ {A = List Span}
            (record { start = p; len = length (b ∷ old) } ∷ rest)
            (record { start = q; len = length (b ∷ old) } ∷ rest')
    spans_cong h k = rw (h, k)

    at_drop :
        {p q n m : ℕ} (t : Text)
        → p ≡ q
        → n ≡ m
        → match_indices (b ∷ old) p 0 (drop n t) ≡ match_indices (b ∷ old) q 0 (drop m t)
    at_drop t h k = rw (h, k)
