-- ===== src/Duty/Schedule/Parse.antt =====
-- What the two notations of a schedule accept, and the values they give.
use mathlib.Core.List.{foldl, cons-ne-nil}
use kitaebot.Common.{
  ℕ, zero, suc, ◌+◌, ◌-◌, ◌*◌, ◌/◌, ◌%◌, ◌≤◌, ◌<◌, ◌≡◌, ◌≢◌, ◌⊎◌, refl, sym, ap, ◌∙◌, inl, inr,
  true, false, some, List, [], ◌∷◌, ◌++◌, arith, All, ok, Bool-cases, Option-cases, ◌==◌,
}
use kitaebot.Duty.Schedule.{
  u64_mod, day, digits_value, nonempty_value, parse_uint, split_last, is_continuation, unit_seconds,
  positive, interval, parse_every, split_colon, time_of, parse_daily,
}

abbrev pub IsDigit : ℕ → Type 0
IsDigit c = (b'0' ≤ c) × (c ≤ b'9')

-- The number that digits spell behind `n`, with no bound.
abbrev pub value : ℕ → List ℕ → ℕ
value = foldl (λ n c. n * 10 + (c - b'0'))

le-value : (s : List ℕ) (n : ℕ) → n ≤ value n s
le-value [] n = omega arith
le-value (c ∷ s) n = omega (arith, le-value s (n * 10 + (c - b'0')))

digits_value_sound :
    (k : ℕ) (s : List ℕ) (n r : ℕ)
    → n < k
    → digits_value k s n ≡ some r
    → All IsDigit s × (r ≡ value n s) × (r < k)
unfolding digits_value
digits_value_sound k [] n r fits h = ground arith
digits_value_sound k (c ∷ s) n r fits h =
    ground (arith, digits_value_sound k s (n * 10 + (c - b'0')) r)

digits_value_complete :
    (k : ℕ) (s : List ℕ) (n : ℕ)
    → All IsDigit s
    → value n s < k
    → digits_value k s n ≡ some (value n s)
unfolding digits_value
digits_value_complete k [] n _ _ = refl
digits_value_complete k (c ∷ s) n (hc, hs) fits =
    let m = n * 10 + (c - b'0') in ground (arith, digits_value_complete k s m hs fits, le-value s m)

-- The digits behind an optional plus sign.
abbrev pub unsigned : List ℕ → List ℕ
unsigned [] = []
unsigned (c ∷ s) = elim (c == b'+') [ true ↦ s | false ↦ c ∷ s ]

nonempty_value_sound :
    (k : ℕ) (s : List ℕ) (r : ℕ)
    → 0 < k
    → nonempty_value k s ≡ some r
    → (s ≢ []) × All IsDigit s × (r ≡ value 0 s) × (r < k)
unfolding nonempty_value
nonempty_value_sound k [] r hk h = cc
nonempty_value_sound k (c ∷ s) r hk h =
    let (digits, exact, fits) = digits_value_sound k (c ∷ s) 0 r hk h in
    (cons-ne-nil c s, digits, exact, fits)

pub parse_uint_sound :
    (k : ℕ) (s : List ℕ) (r : ℕ)
    → 0 < k
    → parse_uint k s ≡ some r
    → (unsigned s ≢ []) × All IsDigit (unsigned s) × (r ≡ value 0 (unsigned s)) × (r < k)
unfolding parse_uint
parse_uint_sound k [] r hk h = cc
parse_uint_sound k (c ∷ s) r hk h = elim (Bool-cases (c == b'+')) [
  | inl e ↦ rw (e, unsigned) (nonempty_value_sound k s r hk (rw e at h))
  | inr e ↦ rw (e, unsigned) (nonempty_value_sound k (c ∷ s) r hk (rw e at h))
]

pub parse_uint_complete :
    (k : ℕ) (s : List ℕ)
    → s ≢ []
    → All IsDigit s
    → value 0 s < k
    → parse_uint k s ≡ some (value 0 s)
unfolding parse_uint
parse_uint_complete k [] h _ _ = absurd (h refl)
parse_uint_complete k (c ∷ s) h (hc, hs) fits =
    ground (arith, digits_value_complete k (c ∷ s) 0 (hc, hs) fits)

split_last-append : (s : List ℕ) (u : ℕ) → split_last (s ++ u ∷ []) ≡ (s, u ∷ [])
unfolding split_last
split_last-append [] u = refl
split_last-append (c ∷ []) u = refl
split_last-append (c ∷ d ∷ s) u = rw (split_last-append (d ∷ s) u)

split_last-join : (s : List ℕ) → (split_last s).0 ++ (split_last s).1 ≡ s
unfolding split_last
split_last-join [] = refl
split_last-join (c ∷ []) = refl
split_last-join (c ∷ d ∷ s) = rw (split_last-join (d ∷ s))

unit_seconds-ascii :
    (u scale : ℕ) → unit_seconds (u ∷ []) ≡ some scale → is_continuation (u ∷ []) ≡ false
unfolding unit_seconds is_continuation
unit_seconds-ascii u scale h = ground arith

-- The units: seconds, minutes, hours and days.
abbrev pub Scales : ℕ → ℕ → Type 0
Scales u scale =
    ((u ≡ b's') × (scale ≡ 1))
    ⊎ ((u ≡ b'm') × (scale ≡ 60))
    ⊎ ((u ≡ b'h') × (scale ≡ 3600))
    ⊎ ((u ≡ b'd') × (scale ≡ 86400))

Scales-unit_seconds : (u scale : ℕ) → Scales u scale → unit_seconds (u ∷ []) ≡ some scale
unfolding unit_seconds
Scales-unit_seconds u scale h = ground arith

unit_seconds-Scales :
    (unit : List ℕ) (scale : ℕ)
    → unit_seconds unit ≡ some scale
    → (u : ℕ) × (unit ≡ u ∷ []) × Scales u scale
unfolding unit_seconds
unit_seconds-Scales [] scale h = cc
unit_seconds-Scales (u ∷ v ∷ s) scale h = cc
unit_seconds-Scales (u ∷ []) scale h = (u, refl, ground arith)

interval_complete :
    (s unit : List ℕ) (scale : ℕ)
    → s ≢ []
    → All IsDigit s
    → unit_seconds unit ≡ some scale
    → 0 < value 0 s * scale
    → value 0 s * scale < u64_mod
    → value 0 s < u64_mod
    → interval s unit ≡ ok (value 0 s * scale)
unfolding interval
interval_complete s unit scale h digits e pos fits small =
    rw (interval, parse_uint_complete u64_mod s h digits small, e) (ground arith)

factor_lt : (n m k : ℕ) → 0 < n * m → n * m < k → n < k
factor_lt n zero k p q = absurd (omega arith)
factor_lt n (suc m) k p q = grind arith

-- A number written with at least one digit and then a unit is read as the number times the
-- seconds of the unit, if that is positive and fits 64 bits.
pub parse_every_complete :
    (s : List ℕ) (u scale : ℕ)
    → s ≢ []
    → All IsDigit s
    → Scales u scale
    → 0 < value 0 s * scale
    → value 0 s * scale < u64_mod
    → parse_every (s ++ u ∷ []) ≡ ok (value 0 s * scale)
unfolding parse_every
parse_every_complete s u scale h digits known pos fits =
    let unit = Scales-unit_seconds u scale known in
    rw (parse_every, split_last-append s u, unit_seconds-ascii u scale unit)
      (interval_complete s (u ∷ []) scale h digits unit pos fits
        (factor_lt (value 0 s) scale u64_mod pos fits))

abbrev pub ReadsAs : List ℕ → ℕ → ℕ → ℕ → Type 0
ReadsAs digits u scale n =
    (unsigned digits ≢ [])
    × All IsDigit (unsigned digits)
    × Scales u scale
    × (n ≡ (value 0 (unsigned digits) * scale) % u64_mod)
    × (0 < n)

positive_sound : (m n : ℕ) → positive m ≡ ok n → (n ≡ m) × (0 < n)
unfolding positive
positive_sound m n h = ground arith

interval_sound :
    (digits unit : List ℕ) (n : ℕ)
    → interval digits unit ≡ ok n
    → (u : ℕ) × (unit ≡ u ∷ []) × ((scale : ℕ) × ReadsAs digits u scale n)
unfolding interval
interval_sound digits unit n h = elim (Option-cases (parse_uint u64_mod digits)) [
  | inl e ↦ absurd (cc (rw (e, interval) at h))
  | inr (m, e) ↦ elim (Option-cases (unit_seconds unit)) [
    | inl f ↦ absurd (cc (rw (e, f, interval) at h))
    | inr (scale, f) ↦
        let (apart, digits_ok, exact, _) = parse_uint_sound u64_mod digits m (omega arith) e in
        let (product, pos) = positive_sound ((m * scale) % u64_mod) n (rw (e, f, interval) at h) in
        let (u, one, known) = unit_seconds-Scales unit scale f in
        (u, one, (scale, (apart, digits_ok, known, rw (← exact) product, pos)))
  ]
]

-- Whatever is accepted is positive, and is the product, wrapped to 64 bits, of a number in
-- digits behind an optional plus sign and the seconds of the unit, the one letter behind it.
pub parse_every_sound :
    (s : List ℕ) (n : ℕ)
    → parse_every s ≡ ok n
    → (digits : List ℕ) × (u : ℕ) × (s ≡ digits ++ u ∷ [])
      × ((scale : ℕ) × ReadsAs digits u scale n)
unfolding parse_every
parse_every_sound s n h = elim (Bool-cases (is_continuation (split_last s).1)) [
  | inl e ↦ absurd (cc (rw e at h))
  | inr e ↦
      let (u, one, reads) = interval_sound (split_last s).0 (split_last s).1 n (rw e at h) in
      ((split_last s).0, u, sym (split_last-join s) ∙ ap (λ t. (split_last s).0 ++ t) one, reads)
]

time_of_bound : (hh mm : List ℕ) (n : ℕ) → time_of hh mm ≡ ok n → n < day
unfolding time_of
time_of_bound hh mm n h = ground arith

-- Whatever is accepted is a time of day.
pub parse_daily_bound : (s : List ℕ) (n : ℕ) → parse_daily s ≡ ok n → n < day
unfolding parse_daily
parse_daily_bound s n h = elim (Option-cases (split_colon s)) [
  | inl e ↦ absurd (cc (rw (e, parse_daily) at h))
  | inr ((hh, mm), e) ↦ time_of_bound hh mm n (rw (e, parse_daily) at h)
]

-- Two decimal digits.
abbrev pub two_digits : ℕ → List ℕ
two_digits n = (b'0' + n / 10) ∷ (b'0' + n % 10) ∷ []

-- Each minute of the day is read back from its notation `HH:MM`.
pub parse_daily-print :
    (hours minutes : ℕ)
    → hours < 24
    → minutes < 60
    → parse_daily (two_digits hours ++ b':' ∷ two_digits minutes) ≡ ok (hours * 3600 + minutes * 60)
unfolding parse_daily
parse_daily-print hours minutes h m = ground arith
