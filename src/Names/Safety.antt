-- ===== src/Names/Safety.antt =====
-- What a sanitized name cannot hold, and when it can be turned back.
use kitaebot.Common.{ℕ, ◌≡◌, ◌≢◌, refl, [], ◌∷◌, ◌==◌, ◌&&◌, Text, All, arith, Bool-cases, inl, inr}
use kitaebot.Names.{without_nul, without_dots, dashed, sanitize_name, desanitize_name, display_name}

-- No two dots in a row.
abbrev pub NoDots : Text → Type 0
NoDots [] = Unit {0}
NoDots (c ∷ []) = Unit {0}
NoDots (c ∷ d ∷ s) = ((c ≡ b'.') → (d ≡ b'.') → ⊥) × NoDots (d ∷ s)

-- Neither a separator of paths nor a NUL.
abbrev pub IsPlain : ℕ → Type 0
IsPlain c = (c ≢ b'/') × (c ≢ 0)

without_nul-All : (s : Text) → All (λ c. c ≢ 0) (without_nul s)
unfolding without_nul
without_nul-All [] = tt
without_nul-All (c ∷ s) = ground (arith, without_nul-All s)

without_dots-All : (s : Text) → All (λ c. c ≢ 0) s → All (λ c. c ≢ 0) (without_dots s)
unfolding without_dots
without_dots-All [] h = tt
without_dots-All (c ∷ []) h = h
without_dots-All (c ∷ d ∷ s) (hc, (hd, hs)) =
    ground (arith, without_dots-All s hs, without_dots-All (d ∷ s) (hd, hs))

dashed-All : (s : Text) → All (λ c. c ≢ 0) s → All IsPlain (dashed s)
unfolding dashed
dashed-All [] h = tt
dashed-All (c ∷ s) (hc, hs) = ground (arith, dashed-All s hs)

without_dots-head : (c : ℕ) (s : Text) → c ≢ b'.' → (rest : Text) × without_dots (c ∷ s) ≡ c ∷ rest
unfolding without_dots
without_dots-head c [] h = ([], refl)
without_dots-head c (d ∷ s) h = (without_dots (d ∷ s), ground arith)

NoDots-cons : (c : ℕ) (s : Text) → c ≢ b'.' → NoDots s → NoDots (c ∷ s)
NoDots-cons c [] h k = tt
NoDots-cons c (d ∷ s) h k = ((λ e. absurd (h e)), k)

NoDots-next :
    (c d : ℕ) (s : Text)
    → (c ≡ b'.' → d ≢ b'.')
    → NoDots (without_dots (d ∷ s))
    → NoDots (c ∷ without_dots (d ∷ s))
NoDots-next c d s apart h = elim (Bool-cases (d == b'.')) [
  | inl e ↦ NoDots-cons c (without_dots (d ∷ s)) (λ p. apart p (ground arith)) h
  | inr e ↦ let (rest, same) = without_dots-head d s (ground arith) in rw same (apart, rw same at h)
]

without_dots-NoDots : (s : Text) → NoDots (without_dots s)
unfolding without_dots
without_dots-NoDots [] = tt
without_dots-NoDots (c ∷ []) = tt
without_dots-NoDots (c ∷ d ∷ s) = elim (Bool-cases (c == b'.' && d == b'.')) [
  | inl e ↦ rw e (without_dots-NoDots s)
  | inr e ↦ rw e (NoDots-next c d s (λ p q. ground arith) (without_dots-NoDots (d ∷ s)))
]

dashed-NoDots : (s : Text) → NoDots s → NoDots (dashed s)
unfolding dashed
dashed-NoDots [] h = tt
dashed-NoDots (c ∷ []) h = ground arith
dashed-NoDots (c ∷ d ∷ s) (h, hs) = let ih = dashed-NoDots (d ∷ s) hs in ground arith

-- A sanitized name holds no slash, no NUL and no two dots in a row.
pub sanitize_name-Safe :
    (name : Text) → All IsPlain (sanitize_name name) × NoDots (sanitize_name name)
unfolding sanitize_name
sanitize_name-Safe name = (
  dashed-All _ (without_dots-All _ (without_nul-All name)),
  dashed-NoDots _ (without_dots-NoDots (without_nul name)),
)

-- No dash stands before another or before a slash.
abbrev pub NoDash : Text → Type 0
NoDash [] = Unit {0}
NoDash (c ∷ []) = Unit {0}
NoDash (c ∷ d ∷ s) = (c ≡ b'-' → (d ≢ b'-') × (d ≢ b'/')) × NoDash (d ∷ s)

desanitize-dashed : (s : Text) → NoDash s → desanitize_name (dashed s) ≡ s
unfolding desanitize_name dashed
desanitize-dashed [] h = refl
desanitize-dashed (c ∷ []) h = ground arith
desanitize-dashed (c ∷ d ∷ s) (h, hs) = let ih = desanitize-dashed (d ∷ s) hs in ground arith

without_nul-id : (s : Text) → All (λ c. c ≢ 0) s → without_nul s ≡ s
unfolding without_nul
without_nul-id [] h = refl
without_nul-id (c ∷ s) (hc, hs) = let ih = without_nul-id s hs in ground arith

without_dots-id : (s : Text) → NoDots s → without_dots s ≡ s
unfolding without_dots
without_dots-id [] h = refl
without_dots-id (c ∷ []) h = refl
without_dots-id (c ∷ d ∷ s) (h, hs) = let ih = without_dots-id (d ∷ s) hs in ground arith

-- A name without NULs, without two dots in a row and without a dash before another dash or a slash
-- is displayed as it was given.
pub display_name-sanitize_name :
    (name : Text)
    → All (λ c. c ≢ 0) name
    → NoDots name
    → NoDash name
    → display_name (sanitize_name name) ≡ name
unfolding display_name sanitize_name
display_name-sanitize_name name nul dots dash =
    rw (without_nul-id name nul, without_dots-id name dots, desanitize-dashed name dash)
