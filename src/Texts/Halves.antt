-- ===== src/Texts/Halves.antt =====
-- text.rs and context/mod.rs: what a truncated output keeps.
use kitaebot.Common.{
  false, ℕ, zero, suc, ◌+◌, ◌-◌, ◌*◌, ◌/◌, ◌≤◌, ◌<◌, ◌≡◌, ◌⊎◌, inl, inr, refl, ap, sym, ◌∙◌,
  Bool-cases, List, [], ◌∷◌, ◌++◌, Text, length, take, drop, take-append-drop, arith, leb,
}
use kitaebot.Types.{estimate_tokens}
use kitaebot.Texts.{
  prefix, suffix, floor_char_boundary, next_start, truncation_marker, truncate_tool_output,
}
use kitaebot.Texts.Cuts.{length-prefix}

next_start_bounds :
    (s : Text) (n : ℕ) → n ≤ length s → (n ≤ next_start s n) × (next_start s n ≤ length s)
unfolding next_start
next_start_bounds [] n h = (omega arith, omega arith)
next_start_bounds (b ∷ s) zero h =
    let (ih, ih') = next_start_bounds s zero (omega arith) in (ground arith, ground arith)
next_start_bounds (b ∷ s) (suc n) h =
    let (ih, ih') = next_start_bounds s n (omega arith) in (omega arith, omega arith)

length-drop : {A : Type 0} (n : ℕ) (xs : List A) → length (drop n xs) ≡ length xs - n
length-drop zero xs = omega arith
length-drop (suc n) [] = omega arith
length-drop (suc n) (x ∷ xs) = omega (arith, length-drop n xs)

drop-nil : {A : Type 0} (n : ℕ) → drop {A = A} n [] ≡ []
drop-nil zero = refl
drop-nil (suc n) = refl

drop-drop : {A : Type 0} (a d c : ℕ) (xs : List A) → c ≡ a + d → drop d (drop a xs) ≡ drop c xs
drop-drop zero d c xs h = let same : d ≡ c = omega arith in ap (λ n. drop n xs) same
drop-drop (suc a) d c [] h = drop-nil d ∙ sym (drop-nil c)
drop-drop (suc a) d zero (x ∷ xs) h = let absurdity : ⊥ = omega arith in elim absurdity [ ]
drop-drop (suc a) d (suc c) (x ∷ xs) h = drop-drop a d c xs (omega arith)

three_parts :
    {A : Type 0} (a c : ℕ) (xs : List A)
    → a ≤ c
    → xs ≡ take a xs ++ (take (c - a) (drop a xs) ++ drop c xs)
three_parts a c xs h =
    sym (take-append-drop a xs)
    ∙ ap (λ ys. take a xs ++ ys)
        (sym (take-append-drop (c - a) (drop a xs))
          ∙ ap (λ ys. take (c - a) (drop a xs) ++ ys) (drop-drop a (c - a) c xs (omega arith)))

take_own_length : {A : Type 0} (n : ℕ) (xs : List A) → take (length (take n xs)) xs ≡ take n xs
take_own_length zero xs = refl
take_own_length (suc n) [] = refl
take_own_length (suc n) (x ∷ xs) = ap (λ ys. x ∷ ys) (take_own_length n xs)

head_again : (s : Text) (n : ℕ) → take (length (prefix s n)) s ≡ prefix s n
unfolding prefix
head_again s n = take_own_length (floor_char_boundary s n) s

length-suffix : (s : Text) (n : ℕ) → n ≤ length s → length (suffix s n) ≤ n
unfolding suffix
length-suffix s n h =
    let bounds = next_start_bounds s (length s - n) (omega arith) in
    let dropped = length-drop (next_start s (length s - n)) s in omega arith

-- Where the two halves do not meet, they and what is between them are the whole text.
halves_whole :
    (s : Text) (n : ℕ)
    → n + n ≤ length s
    → s
      ≡ prefix s n
        ++ (take
              (length s - length (suffix s n) - length (prefix s n))
              (drop (length (prefix s n)) s)
            ++ suffix s n)
unfolding suffix
halves_whole s n h =
    let c = next_start s (length s - n) in
    let bounds = next_start_bounds s (length s - n) (omega arith) in
    let short = length-prefix s n in
    let back : length s - length (drop c s) ≡ c = omega (arith, length-drop c s) in
    let parts = three_parts (length (prefix s n)) c s (omega arith) in
    let between : Text → ℕ → Text =
      λ xs m. xs ++ (take (m - length (prefix s n)) (drop (length (prefix s n)) s) ++ drop c s) in
    parts ∙ ap (λ xs. between xs c) (head_again s n) ∙ ap (λ m. between (prefix s n) m) (sym back)

-- The head and the tail of a truncated output, and what was between them.
pub record Halves (content out : Text) (max_tokens : ℕ) : Type 0 where
  pub head : Text
  pub middle : Text
  pub tail : Text
  pub whole : content ≡ head ++ (middle ++ tail)
  pub kept : out ≡ head ++ (truncation_marker (estimate_tokens middle) ++ tail)
  pub short_head : length head ≤ 2 * max_tokens
  pub short_tail : length tail ≤ 2 * max_tokens

cut :
    (content : Text) (n : ℕ)
    → (n < estimate_tokens content)
    → Halves content (truncate_tool_output content n) n
unfolding truncate_tool_output estimate_tokens
cut content n h =
    let keep = n * 4 / 2 in
    let fits : keep + keep ≤ length content = omega arith in
    let short = length-prefix content keep in
    let short' = length-suffix content keep (omega arith) in
    let long : leb (estimate_tokens content) n ≡ false = ground arith in
    record {
      head = prefix content keep;
      middle =
          take (length content - length (suffix content keep) - length (prefix content keep))
            (drop (length (prefix content keep)) content);
      tail = suffix content keep;
      whole = halves_whole content keep fits;
      kept = rw (long) refl;
      short_head = omega arith;
      short_tail = omega arith;
    }

-- A tool's output within its token budget is left as it is. A longer one is cut into a head and a
-- tail, each of at most two bytes per token of the budget, around a marker with the estimated tokens
-- of exactly what was left out.
pub truncate_tool_output-Halves :
    (content : Text) (max_tokens : ℕ)
    → ((estimate_tokens content ≤ max_tokens) × (truncate_tool_output content max_tokens ≡ content))
      ⊎ ((max_tokens < estimate_tokens content)
          × Halves content (truncate_tool_output content max_tokens) max_tokens)
unfolding truncate_tool_output
truncate_tool_output-Halves content max_tokens =
    elim (Bool-cases (leb (estimate_tokens content) max_tokens)) [
      | inl e ↦ inl (ground arith, rw (truncate_tool_output, e) refl)
      | inr e ↦
          let long : max_tokens < estimate_tokens content = ground arith in
          inr (long, cut content max_tokens long)
    ]
