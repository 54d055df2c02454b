-- ===== src/FileEdit/Windows.antt =====
-- tools/file_edit.rs: what the spans of the fuzzy rungs are of the file.
mod Heads
pub use Heads.{nl, NoReturns, newline_if, ended, Behind}
use kitaebot.Common.{
  ℕ, ◌+◌, ◌≡◌, ◌⊎◌, inl, inr, refl, sym, ap, subst, ◌∙◌, true, false, List, [], ◌∷◌, ◌++◌,
  append_assoc, append-nil, map, Text, length, length-append, arith, All, In, ◌==◌, list_key,
  nat_key, Bool-cases, ==_iff,
}
use kitaebot.FileEdit.Windows.Heads.{Lined, done, end, more, lines-Lined, Head, head_of}
use kitaebot.FileEdit.Lines.{lines, onto_line, join}
use kitaebot.FileEdit.Matching.{Span, window_fits, window_len, spans_from, window_spans, windows_of}

-- What a span of a fuzzy rung is: whole lines that the rung takes for the wanted ones, with the
-- newlines between them, and with the one behind them where another line follows.
pub record Window (normalize : Text → Text) (content : Text) (ls needle : List Text) (offset : ℕ)
    (span : Span) : Type 0 where
  pub before : List Text
  pub first : Text
  pub others : List Text
  pub after : List Text
  pub mid : Text
  pub post : Text
  pub split : ls ≡ before ++ (first ∷ others ++ after)
  pub fits : map normalize (first ∷ others) ≡ needle
  pub whole : content ≡ ended before ++ (mid ++ post)
  pub at : span.start ≡ offset + length (ended before)
  pub long : span.len ≡ length mid
  pub text : mid ≡ join nl (first ∷ others) ++ newline_if after
  pub behind : Behind after post

module _ (normalize : Text → Text) (n : Text) (ns : List Text) where
  here :
      {s : Text} {ls : List Text} (offset : ℕ)
      → Head normalize s ls (n ∷ ns)
      → Window normalize s ls
          (n ∷ ns)
          offset
          (record { start = offset; len = window_len (length (n ∷ ns)) ls })
  here offset w = record {
    before = [];
    first = w.first;
    others = w.others;
    after = w.after;
    mid = w.mid;
    post = w.post;
    split = w.split;
    fits = w.fits;
    whole = w.whole;
    at = omega arith;
    long = w.long;
    text = w.text;
    behind = w.behind;
  }

  below :
      {s : Text} {ls : List Text} (l t : Text) (offset : ℕ) (span : Span)
      → s ≡ l ++ (nl ++ t)
      → Window normalize t ls (n ∷ ns) (offset + length l + 1) span
      → Window normalize s (l ∷ ls) (n ∷ ns) offset span
  below l t offset span e w = record {
    before = l ∷ w.before;
    first = w.first;
    others = w.others;
    after = w.after;
    mid = w.mid;
    post = w.post;
    split = ap (λ ks. l ∷ ks) w.split;
    fits = w.fits;
    whole =
        e
        ∙ ap (λ u. l ++ (nl ++ u)) w.whole
        ∙ sym (append_assoc l (nl ++ ended w.before) (w.mid ++ w.post));
    at = omega (arith, w.at, length-append l (nl ++ ended w.before));
    long = w.long;
    text = w.text;
    behind = w.behind;
  }

  In-spans_from :
      (offset : ℕ) (l : Text) (ls : List Text) (span : Span)
      → In span (spans_from normalize offset (n ∷ ns) (l ∷ ls))
      → ((window_fits normalize (n ∷ ns) (l ∷ ls) ≡ true)
          × (span ≡ record { start = offset; len = window_len (length (n ∷ ns)) (l ∷ ls) }))
        ⊎ In span (spans_from normalize (offset + length l + 1) (n ∷ ns) ls)
  unfolding spans_from
  In-spans_from offset l ls span i = elim (Bool-cases (window_fits normalize (n ∷ ns) (l ∷ ls))) [
    | inl e ↦ first e (rw (e, spans_from) at i)
    | inr e ↦ inr (rw (e, spans_from) at i)
  ]
    where
      first :
          window_fits normalize (n ∷ ns) (l ∷ ls) ≡ true
          → In span (
              record { start = offset; len = window_len (length (n ∷ ns)) (l ∷ ls) }
              ∷ spans_from normalize (offset + length l + 1) (n ∷ ns) ls)
          → ((window_fits normalize (n ∷ ns) (l ∷ ls) ≡ true)
              × (span ≡ record { start = offset; len = window_len (length (n ∷ ns)) (l ∷ ls) }))
            ⊎ In span (spans_from normalize (offset + length l + 1) (n ∷ ns) ls)
      first e (inl same) = inl (e, same)
      first e (inr later) = inr later

  spans-Window :
      (s : Text) (ls : List Text) (offset : ℕ) (span : Span)
      → Lined s ls
      → In span (spans_from normalize offset (n ∷ ns) ls)
      → Window normalize s ls (n ∷ ns) offset span
  spans-Window _ _ offset span done i = absurd (unfold spans_from in i)
  spans-Window _ _ offset span (end l) i = elim (In-spans_from offset l [] span i) [
    | inl (fits, same) ↦
        subst (Window normalize l (l ∷ []) (n ∷ ns) offset) (sym same)
          (here offset (head_of normalize n ns l (l ∷ []) (end l) fits))
    | inr later ↦ absurd (unfold spans_from in later)
  ]
  spans-Window s _ offset span (more {ls = ls} l t e h) i =
      elim (In-spans_from offset l ls span i) [
        | inl (fits, same) ↦
            subst (Window normalize s (l ∷ ls) (n ∷ ns) offset) (sym same)
              (here offset (head_of normalize n ns s (l ∷ ls) (more l t e h) fits))
        | inr later ↦
            below l t offset span e (spans-Window t ls (offset + length l + 1) span h later)
      ]

-- In a file without carriage returns every span of a fuzzy rung is a window of whole lines that the
-- rung takes for the wanted ones, in their order. Where a line follows, the newline between is part
-- of the span.
pub window_spans-Window :
    (normalize : Text → Text) (content old : Text) (span : Span)
    → NoReturns content
    → In span (window_spans normalize content old)
    → Window normalize content (lines content) (map normalize (lines old)) 0 span
window_spans-Window normalize content old span clean i =
    go (map normalize (lines old)) (unfold window_spans in i)
  where
    go :
        (needle : List Text)
        → In span (windows_of normalize content needle)
        → Window normalize content (lines content) needle 0 span
    go [] i = absurd (unfold windows_of in i)
    go (n ∷ ns) i =
        spans-Window normalize n ns content (lines content) 0 span (lines-Lined content clean)
          (unfold windows_of in i)
