-- ===== src/Trust/Spellings.antt =====
-- The two spellings of a bot's login.
use kitaebot.Common.{
  ◌≡◌, refl, Bool, true, false, List, [], ◌∷◌, ◌++◌, any, none, some, Text, codes, ◌=?◌, list_key,
  nat_key, same_list_iff, if◌then◌else◌, length, arith, Bool-cases, inl, inr, In, ap, length-append,
}
use kitaebot.Trust.{Trust, lower, same_login, strip_suffix, bot_login, allows}

strip_suffix-append : (s : Text) → strip_suffix (codes "[bot]") (s ++ codes "[bot]") ≡ some s
unfolding strip_suffix
strip_suffix-append [] = refl
strip_suffix-append (c ∷ s) = elim (Bool-cases ((c ∷ s ++ codes "[bot]") =? codes "[bot]")) [
  | inl e ↦ absurd (longer e)
  | inr e ↦ rw (e, strip_suffix-append s)
]
  where
    longer : ((c ∷ s ++ codes "[bot]") =? codes "[bot]") ≡ true → ⊥
    longer e =
        let same =
          ap (λ (x : Text). length x)
            ((same_list_iff (c ∷ s ++ codes "[bot]") (codes "[bot]")).0 e) in
        omega (arith, same, length-append s (codes "[bot]"))

same_login_refl : (s : Text) → same_login s s ≡ true
unfolding same_login
same_login_refl s = (same_list_iff (lower s) (lower s)).1 refl

any-In : (p : Text → Bool) (x : Text) (xs : List Text) → In x xs → p x ≡ true → any p xs ≡ true
any-In p x [] i h = elim i [ ]
any-In p x (y ∷ xs) (inl e) h = rw (← e, h)
any-In p x (y ∷ xs) (inr i) h = let ih = any-In p x xs i h in ground arith

-- A listed bot is allowed by its own login and by the login with the suffix `[bot]`, which the
-- REST interface adds.
pub allows_bot :
    (t : Trust) (b : Text)
    → In b t.bots
    → strip_suffix (codes "[bot]") b ≡ none
    → (allows t b ≡ true) × (allows t (b ++ codes "[bot]") ≡ true)
unfolding allows bot_login
allows_bot t b i plain = (
  through b (rw (bot_login, plain)),
  through (b ++ codes "[bot]") (rw (bot_login, strip_suffix-append b)),
)
  where
    passes : (p q r : Bool) → r ≡ true → (if p then true else if q then true else r) ≡ true
    passes true q r h = refl
    passes false true r h = refl
    passes false false r h = h

    through : (login : Text) → bot_login login ≡ b → allows t login ≡ true
    through login same =
        passes (same_login login t.owner) (any (λ u. same_login u login) t.users) _
          (rw same (any-In (λ c. same_login c b) b t.bots i (same_login_refl b)))
