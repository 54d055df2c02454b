-- ===== src/Lcm/Transcript/Greedy.antt =====
-- context/lcm/engine.rs: what the clamp on a transcript keeps.
use kitaebot.Common.{
  ℕ, suc, ◌+◌, ◌≤◌, ◌<◌, ◌≡◌, ◌⊎◌, inl, inr, refl, ap, sym, subst, ◌∙◌, Bool, true, false, ◌&&◌,
  List, [], ◌∷◌, ◌++◌, some, keep_if, length, sum_of, arith, Bool-cases, Option-cases, ltb, leb,
  lt→ltb,
}
use kitaebot.Lcm.Store.{MessageRow, to_i64}
use kitaebot.Lcm.Transcript.{pending_rows, cutoff, below_cutoff, span_since, i64_max}

-- Rows in strictly ascending order of `seq`, from `lo` on, all below the largest `i64`.
unfoldable pub InOrder : ℕ → List MessageRow → Type 0
InOrder lo [] = Unit
InOrder lo (r ∷ rs) = (lo ≤ r.seq) × (r.seq < i64_max) × InOrder (suc r.seq) rs

unfoldable pub tokens : List MessageRow → ℕ
tokens rows = sum_of (λ r. r.token_count) rows

keep_none :
    (c lo : ℕ) (rows : List MessageRow)
    → InOrder lo rows
    → c ≤ lo
    → keep_if (λ r. ltb r.seq c) rows ≡ []
unfolding InOrder
keep_none c lo [] h le = refl
keep_none c lo (r ∷ rs) (h, h', o) le =
    let ih = keep_none c (suc r.seq) rs o (omega arith) in ground arith

keep_all :
    (lo : ℕ) (rows : List MessageRow)
    → InOrder lo rows
    → keep_if (λ r. ltb r.seq i64_max) rows ≡ rows
unfolding InOrder
keep_all lo [] h = refl
keep_all lo (r ∷ rs) (h, h', o) = let ih = keep_all (suc r.seq) rs o in ground arith

from_lower : (lo lo' : ℕ) (rows : List MessageRow) → lo' ≤ lo → InOrder lo rows → InOrder lo' rows
unfolding InOrder
from_lower lo lo' [] le h = tt
from_lower lo lo' (r ∷ rs) le (h, h', o) = (omega arith, h', o)

some_injective : {A : Type 0} (a b : A) → some a ≡ some b → a ≡ b
some_injective a b h = cc

keep_if-InOrder :
    (p : MessageRow → Bool) (lo : ℕ) (rows : List MessageRow)
    → InOrder lo rows
    → InOrder lo (keep_if p rows)
unfolding InOrder
keep_if-InOrder p lo [] h = tt
keep_if-InOrder p lo (r ∷ rs) (h, h', o) = elim (Bool-cases (p r)) [
  | inl e ↦ rw (keep_if, e) (h, h', keep_if-InOrder p (suc r.seq) rs o)
  | inr e ↦
      rw (keep_if, e)
        (from_lower (suc r.seq) lo (keep_if p rs) (omega arith)
          (keep_if-InOrder p (suc r.seq) rs o))
]

module _ (max_tokens : ℕ) where
  cutoff_above :
      (kept : Bool) (total lo : ℕ) (rows : List MessageRow) (c : ℕ)
      → InOrder lo rows
      → cutoff max_tokens kept total rows ≡ some c
      → lo ≤ c
  unfolding cutoff InOrder
  cutoff_above kept total lo [] c h e = cc
  cutoff_above kept total lo (r ∷ rs) c (h, h', o) e =
      elim (Bool-cases (kept && ltb max_tokens (total + r.token_count))) [
        | inl f ↦ let same : r.seq ≡ c = some_injective r.seq c (rw (cutoff, f) at e) in omega arith
        | inr f ↦
            let ih =
              cutoff_above true (total + r.token_count) (suc r.seq) rs c o (rw (cutoff, f) at e) in
            omega arith
      ]

  -- A row stays when it lies below the cutoff of the rows behind it.
  below_cutoff_row :
      (total : ℕ) (r : MessageRow) (rs : List MessageRow)
      → r.seq < i64_max
      → InOrder (suc r.seq) rs
      → below_cutoff (cutoff max_tokens true total rs) (r ∷ rs)
        ≡ r ∷ below_cutoff (cutoff max_tokens true total rs) rs
  unfolding below_cutoff
  below_cutoff_row total r rs h o = elim (Option-cases (cutoff max_tokens true total rs)) [
    | inl e ↦ rw (below_cutoff, e, lt→ltb r.seq i64_max h) refl
    | inr (c, e) ↦
        rw (below_cutoff, e, lt→ltb r.seq c (cutoff_above true total (suc r.seq) rs c o e)) refl
  ]

  -- The first row that is left out would leave the budget.
  unfoldable pub Over : ℕ → List MessageRow → List MessageRow → Type 0
  Over total part [] = Unit
  Over total part (r ∷ rs) = max_tokens < total + tokens part + r.token_count

  -- The first rows, as many as the budget allows behind `total`.
  record Within (total : ℕ) (rows part : List MessageRow) : Type 0 where
    rest : List MessageRow
    whole : rows ≡ part ++ rest
    fits : (part ≡ []) ⊎ (total + tokens part ≤ max_tokens)
    stops : Over total part rest

  Over-on :
      (total : ℕ) (r : MessageRow) (part rest : List MessageRow)
      → Over (total + r.token_count) part rest
      → Over total (r ∷ part) rest
  unfolding Over tokens
  Over-on total r part [] h = tt
  Over-on total r part (q ∷ qs) h = omega arith

  Over-first :
      (r : MessageRow) (part rest : List MessageRow)
      → Over r.token_count part rest
      → Over 0 (r ∷ part) rest
  unfolding Over tokens
  Over-first r part [] h = tt
  Over-first r part (q ∷ qs) h = omega arith

  Within-stop :
      (total : ℕ) (r : MessageRow) (rs : List MessageRow)
      → max_tokens < total + r.token_count
      → Within total (r ∷ rs) []
  unfolding tokens Over
  Within-stop total r rs h = record {
    rest = r ∷ rs;
    whole = refl;
    fits = inl refl;
    stops = omega arith;
  }

  Within-step :
      (total : ℕ) (r : MessageRow) (rs part : List MessageRow)
      → total + r.token_count ≤ max_tokens
      → Within (total + r.token_count) rs part
      → Within total (r ∷ rs) (r ∷ part)
  unfolding tokens
  Within-step total r rs part h w = record {
    rest = w.rest;
    whole = ap (λ ms. r ∷ ms) w.whole;
    fits =
        inr (elim w.fits [
          | inl e ↦ let none_yet = ap tokens e in omega arith
          | inr le ↦ omega arith
        ]);
    stops = Over-on total r part w.rest w.stops;
  }

  cutoff-Within :
      (total lo : ℕ) (rows : List MessageRow)
      → InOrder lo rows
      → Within total rows (below_cutoff (cutoff max_tokens true total rows) rows)
  unfolding cutoff InOrder tokens below_cutoff Over
  cutoff-Within total lo [] h = record { rest = []; whole = refl; fits = inl refl; stops = tt }
  cutoff-Within total lo (r ∷ rs) (h, h', o) =
      elim (Bool-cases (ltb max_tokens (total + r.token_count))) [
        | inl f ↦
            let at_once : cutoff max_tokens true total (r ∷ rs) ≡ some r.seq =
              rw (cutoff, f) refl in
            let cut = ap (λ c. below_cutoff c (r ∷ rs)) at_once in
            let out = keep_none r.seq r.seq (r ∷ rs) (omega arith, h', o) (omega arith) in
            subst (Within total (r ∷ rs)) (sym (cut ∙ out)) (Within-stop total r rs (ground arith))
        | inr f ↦
            let part = below_cutoff (cutoff max_tokens true (total + r.token_count) rs) rs in
            let on : cutoff max_tokens true total (r ∷ rs)
                ≡ cutoff max_tokens true (total + r.token_count) rs =
              rw (cutoff, f) refl in
            let cut = ap (λ c. below_cutoff c (r ∷ rs)) on in
            let ih = cutoff-Within (total + r.token_count) (suc r.seq) rs o in
            subst (Within total (r ∷ rs))
              (sym (cut ∙ below_cutoff_row (total + r.token_count) r rs h' o))
              (Within-step total r rs part (ground arith) ih)
      ]

  -- The span that is handed out: the first pending rows, at least one if any, as many as the budget
  -- allows.
  pub record Clamped (rows part : List MessageRow) : Type 0 where
    pub rest : List MessageRow
    pub whole : rows ≡ part ++ rest
    pub starts : (rows ≡ []) ⊎ (1 ≤ length part)
    pub fits : (length part ≤ 1) ⊎ (tokens part ≤ max_tokens)
    pub stops : Over 0 part rest

  first-Clamped :
      (r : MessageRow) (rs part : List MessageRow)
      → Within r.token_count rs part
      → Clamped (r ∷ rs) (r ∷ part)
  unfolding tokens
  first-Clamped r rs part w = record {
    rest = w.rest;
    whole = ap (λ ms. r ∷ ms) w.whole;
    starts = inr (omega arith);
    fits = elim w.fits [
      | inl e ↦ let size = ap (λ (ms : List MessageRow). length ms) e in inl (omega arith)
      | inr le ↦ inr (omega arith)
    ];
    stops = Over-first r part w.rest w.stops;
  }

  first_rows :
      (lo : ℕ) (rows : List MessageRow)
      → InOrder lo rows
      → Clamped rows (below_cutoff (cutoff max_tokens false 0 rows) rows)
  unfolding cutoff InOrder tokens below_cutoff Over
  first_rows lo [] h = record {
    rest = [];
    whole = refl;
    starts = inl refl;
    fits = inl (omega arith);
    stops = tt;
  }
  first_rows lo (r ∷ rs) (h, h', o) =
      let part = below_cutoff (cutoff max_tokens true (0 + r.token_count) rs) rs in
      let within =
        subst (λ n. Within n rs part) (omega arith)
          (cutoff-Within (0 + r.token_count) (suc r.seq) rs o) in
      subst (Clamped (r ∷ rs)) (sym (below_cutoff_row (0 + r.token_count) r rs h' o))
        (first-Clamped r rs part within)

  -- The transcript since a position is the longest run of the messages from there on that fits the
  -- budget, but at least one message where any is pending, when the rows are in the order of `seq`.
  pub span_since-Clamped :
      (after : ℕ) (rows : List MessageRow)
      → InOrder 0 rows
      → Clamped (pending_rows after rows) (span_since after max_tokens rows)
  unfolding span_since pending_rows
  span_since-Clamped after rows h =
      first_rows 0 (pending_rows after rows)
        (keep_if-InOrder (λ r. leb (to_i64 after) r.seq) 0 rows h)
