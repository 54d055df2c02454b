-- ===== src/FileEdit/Windows/Heads.antt =====
-- tools/file_edit.rs: a text and its lines, and a window at the start of a text.
use kitaebot.Common.{
  ℕ, ◌≡◌, ◌⊎◌, inl, inr, refl, sym, ap, ◌∙◌, true, false, List, [], ◌∷◌, ◌++◌, append_assoc,
  append-nil, map, Text, length, length-append, arith, All, ◌==◌, list_key, nat_key, Bool-cases,
  ==_iff,
}
use kitaebot.FileEdit.Lines.{lines, onto_line, join}
use kitaebot.FileEdit.Matching.{window_fits, window_len}

abbrev pub nl : Text
nl = 10 ∷ []

abbrev pub NoReturns : Text → Type 0
NoReturns s = All (λ b. (b == 13) ≡ false) s

-- A text and its lines: each but the last has its newline.
pub data Lined : Text → List Text → Type 0 where
  done : Lined [] []
  end : (l : Text) → Lined l (l ∷ [])
  more :
      {s : Text} {ls : List Text} (l t : Text) → s ≡ l ++ (nl ++ t) → Lined t ls → Lined s (l ∷ ls)

onto-Lined : (b : ℕ) (s : Text) (ls : List Text) → Lined s ls → Lined (b ∷ s) (onto_line b ls)
unfolding onto_line
onto-Lined b _ _ done = end (b ∷ [])
onto-Lined b _ _ (end l) = end (b ∷ l)
onto-Lined b s _ (more l t e h) = more (b ∷ l) t (ap (λ u. b ∷ u) e) h

pub lines-Lined : (s : Text) → NoReturns s → Lined s (lines s)
unfolding lines
lines-Lined [] h = done
lines-Lined (b ∷ s) (hb, h) = elim (Bool-cases (b == 10)) [
  | inl e ↦ rw e (more [] s (ap (λ c. c ∷ s) ((==_iff b 10).0 e)) (lines-Lined s h))
  | inr e ↦ rw (e, hb) (onto-Lined b s (lines s) (lines-Lined s h))
]

-- The newline behind a window, where a line follows.
abbrev pub newline_if : List Text → Text
newline_if [] = []
newline_if (l ∷ ls) = nl

-- The lines, each with its newline.
abbrev pub ended : List Text → Text
ended [] = []
ended (l ∷ ls) = l ++ (nl ++ ended ls)

-- Behind the last line there is nothing, or its newline.
abbrev pub Behind : List Text → Text → Type 0
Behind [] post = (post ≡ []) ⊎ (post ≡ nl)
Behind (l ∷ ls) post = Unit {0}

Lined-nil : {s : Text} {ls : List Text} → Lined s ls → ls ≡ [] → s ≡ []
Lined-nil done e = refl
Lined-nil (end l) e = cc
Lined-nil (more l t h h') e = cc

-- A window at the start of a text.
pub record Head (normalize : Text → Text) (s : Text) (ls needle : List Text) : Type 0 where
  pub first : Text
  pub others : List Text
  pub after : List Text
  pub mid : Text
  pub post : Text
  pub split : ls ≡ first ∷ others ++ after
  pub fits : map normalize (first ∷ others) ≡ needle
  pub whole : s ≡ mid ++ post
  pub long : window_len (length needle) ls ≡ length mid
  pub text : mid ≡ join nl (first ∷ others) ++ newline_if after
  pub behind : Behind after post

module _ (normalize : Text → Text) where
  first_fits :
      (n : Text) (ns : List Text) (l : Text) (ls : List Text)
      → window_fits normalize (n ∷ ns) (l ∷ ls) ≡ true
      → (normalize l ≡ n) × (window_fits normalize ns ls ≡ true)
  unfolding window_fits
  first_fits n ns l ls h = ground (arith, (list_key {A = ℕ}).same_iff (normalize l) n)

  only_fits :
      (n l : Text) (ls : List Text)
      → window_fits normalize (n ∷ []) (l ∷ ls) ≡ true
      → map normalize (l ∷ []) ≡ n ∷ []
  only_fits n l ls h = ap (λ w. w ∷ []) (first_fits n [] l ls h).0

  single :
      (n : Text) (s : Text) (ls : List Text)
      → Lined s ls
      → window_fits normalize (n ∷ []) ls ≡ true
      → Head normalize s ls (n ∷ [])
  unfolding window_fits window_len join
  single n _ _ done h = cc
  single n _ _ (end l) h = record {
    first = l;
    others = [];
    after = [];
    mid = l;
    post = [];
    split = refl;
    fits = only_fits n l [] h;
    whole = sym (append-nil l);
    long = refl;
    text = sym (append-nil l);
    behind = inl refl;
  }
  single n s _ (more {ls = []} l t e h') h = record {
    first = l;
    others = [];
    after = [];
    mid = l;
    post = nl ++ t;
    split = refl;
    fits = only_fits n l [] h;
    whole = e;
    long = refl;
    text = sym (append-nil l);
    behind = inr (ap (λ u. nl ++ u) (Lined-nil h' refl));
  }
  single n s _ (more {ls = m ∷ ms} l t e h') h = record {
    first = l;
    others = [];
    after = m ∷ ms;
    mid = l ++ nl;
    post = t;
    split = refl;
    fits = only_fits n l (m ∷ ms) h;
    whole = e ∙ sym (append_assoc l nl t);
    long = omega (arith, length-append l nl);
    text = refl;
    behind = tt;
  }

  -- One more line in front of a window.
  wider :
      (n : Text) (ns : List Text) (l t s : Text) (m : Text) (ms : List Text)
      → s ≡ l ++ (nl ++ t)
      → normalize l ≡ n
      → Head normalize t (m ∷ ms) ns
      → Head normalize s (l ∷ m ∷ ms) (n ∷ ns)
  unfolding window_len join
  wider n ns l t s m ms e fit w = record {
    first = l;
    others = w.first ∷ w.others;
    after = w.after;
    mid = l ++ (nl ++ w.mid);
    post = w.post;
    split = ap (λ ls. l ∷ ls) w.split;
    fits = ap (λ k. k ∷ map normalize (w.first ∷ w.others)) fit ∙ ap (λ ks. n ∷ ks) w.fits;
    whole = e ∙ ap (λ u. l ++ (nl ++ u)) w.whole ∙ sym (append_assoc l (nl ++ w.mid) w.post);
    long = omega (arith, w.long, length-append l (nl ++ w.mid));
    text =
        ap (λ u. l ++ (nl ++ u)) w.text
        ∙ sym (append_assoc l (nl ++ join nl (w.first ∷ w.others)) (newline_if w.after));
    behind = w.behind;
  }

  pub head_of :
      (n : Text) (ns : List Text) (s : Text) (ls : List Text)
      → Lined s ls
      → window_fits normalize (n ∷ ns) ls ≡ true
      → Head normalize s ls (n ∷ ns)
  head_of n [] s ls h fits = single n s ls h fits
  head_of n (k ∷ ks) _ _ done fits = absurd (unfold window_fits in cc)
  head_of n (k ∷ ks) _ _ (end l) fits = absurd (too_short (first_fits n (k ∷ ks) l [] fits).1)
    where
      too_short : window_fits normalize (k ∷ ks) [] ≡ true → ⊥
      too_short e = unfold window_fits in cc
  head_of n (k ∷ ks) s _ (more {ls = []} l t e h) fits =
      absurd (too_short (first_fits n (k ∷ ks) l [] fits).1)
    where
      too_short : window_fits normalize (k ∷ ks) [] ≡ true → ⊥
      too_short e = unfold window_fits in cc
  head_of n (k ∷ ks) s _ (more {ls = m ∷ ms} l t e h) fits =
      let (fit, rest) = first_fits n (k ∷ ks) l (m ∷ ms) fits in
      wider n (k ∷ ks) l t s m ms e fit (head_of k ks t (m ∷ ms) h rest)
