-- ===== src/Texts/Utf8.antt =====
-- What of UTF-8 the cuts of a text rest on: a lead byte is followed by as many continuation bytes
-- as it announces.
use kitaebot.Common.{
  ℕ, zero, suc, ◌≡◌, refl, sym, ap, ◌∙◌, true, false, [], ◌∷◌, ◌++◌, Text, Option, none, some, ltb,
  if◌then◌else◌, arith, Bool-cases, inl, inr,
}
use kitaebot.Texts.{goes_on, starts_char}

-- The continuation bytes that a byte announces.
unfoldable pub announced : ℕ → Option ℕ
unfolding goes_on
announced b =
    if goes_on b
    then none
    else some (if ltb b 128 then 0 else if ltb b 224 then 1 else if ltb b 240 then 2 else 3)

-- The continuation bytes that are missing behind a text, where `k` were in front of it.
unfoldable pub missing : ℕ → Text → Option ℕ
unfolding announced goes_on
missing k [] = some k
missing zero (b ∷ s) = elim (announced b) [ none ↦ none | some n ↦ missing n s ]
missing (suc k) (b ∷ s) = let rest = missing k s in if goes_on b then rest else none

abbrev pub IsWhole : Text → Type 0
IsWhole s = missing 0 s ≡ some 0

abbrev then_missing : Option ℕ → Text → Option ℕ
then_missing none s = none
then_missing (some k) s = missing k s

missing-append : (k : ℕ) (s t : Text) → missing k (s ++ t) ≡ then_missing (missing k s) t
unfolding missing
missing-append k [] t = refl
missing-append zero (b ∷ s) t = after (announced b) (λ n. missing-append n s t)
  where
    after :
        (a : Option ℕ)
        → ((n : ℕ) → missing n (s ++ t) ≡ then_missing (missing n s) t)
        → elim a [ none ↦ none | some n ↦ missing n (s ++ t) ]
          ≡ then_missing (elim a [ none ↦ none | some n ↦ missing n s ]) t
    after none ih = refl
    after (some n) ih = ih n
missing-append (suc k) (b ∷ s) t = elim (Bool-cases (goes_on b)) [
  | inl e ↦ rw e (missing-append k s t)
  | inr e ↦ rw e
]

pub IsWhole-append : (s t : Text) → IsWhole s → IsWhole t → IsWhole (s ++ t)
IsWhole-append s t hs ht = missing-append 0 s t ∙ ap (λ m. then_missing m t) hs ∙ ht

-- Nothing is left behind a whole text but a whole text.
pub IsWhole-rest : (s t : Text) → IsWhole s → IsWhole (s ++ t) → IsWhole t
IsWhole-rest s t hs h = sym (ap (λ m. then_missing m t) hs) ∙ sym (missing-append 0 s t) ∙ h

lead_byte : (b : ℕ) (s : Text) → IsWhole (b ∷ s) → goes_on b ≡ false
unfolding missing announced
lead_byte b s h = ground arith

pub IsWhole-starts_char : (s : Text) → IsWhole s → starts_char s ≡ true
unfolding starts_char
IsWhole-starts_char [] h = refl
IsWhole-starts_char (b ∷ s) h = rw (lead_byte b s h)

-- A whole text that is not empty is found on a boundary only.
pub IsWhole-front :
    (s : Text) (b : ℕ) (old : Text) (post : Text)
    → IsWhole (b ∷ old)
    → IsWhole (s ++ (b ∷ old ++ post))
    → IsWhole s
unfolding missing announced
IsWhole-front s b old post hold h =
    go (missing 0 s) (sym (missing-append 0 s (b ∷ old ++ post)) ∙ h)
  where
    go : (m : Option ℕ) → then_missing m (b ∷ old ++ post) ≡ some 0 → m ≡ some 0
    go none e = cc
    go (some zero) e = refl
    go (some (suc k)) e = ground (arith, lead_byte b old hold)

pub newline-IsWhole : IsWhole (10 ∷ [])
unfolding missing announced
newline-IsWhole = refl

-- A newline parts a whole text into whole texts.
pub IsWhole-at_newline : (l t : Text) → IsWhole (l ++ (10 ∷ t)) → IsWhole l × IsWhole t
IsWhole-at_newline l t h =
    let line = IsWhole-front l 10 [] t newline-IsWhole h in
    (line, IsWhole-rest (10 ∷ []) t newline-IsWhole (IsWhole-rest l (10 ∷ t) line h))
