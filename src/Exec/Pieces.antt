-- ===== src/Exec/Pieces.antt =====
-- tools/exec.rs: the scans agree with the quoting of the shell.
use kitaebot.Common.{
  ℕ, ◌≡◌, refl, ap, ◌∙◌, Bool, true, false, ◌&&◌, List, [], ◌∷◌, ◌++◌, append_assoc, Text, none,
  any, All, Bool-cases, inl, inr, ◌==◌, if◌then◌else◌,
}
use kitaebot.Exec.Quotes.{
  QuoteState, double, single, unquoted, turn, is_separator, is_redirect, is_bare, split_from,
  redirects_from, split_unquoted_separators, has_unquoted_redirection,
}

-- A character between double quotes, as it is or behind a backslash.
pub data Item : Type 0 where
  plain : ℕ → Item
  behind : ℕ → Item

-- What a command with closed quotes is made of.
pub data Piece : Type 0 where
  bare : ℕ → Piece
  escape : ℕ → Piece
  doubled : List Item → Piece
  singled : Text → Piece

abbrev pub item_text : Item → Text
item_text (plain c) = c ∷ []
item_text (behind c) = b'\\' ∷ c ∷ []

abbrev pub items_text : List Item → Text
items_text [] = []
items_text (i ∷ is) = item_text i ++ items_text is

abbrev pub piece_text : Piece → Text
piece_text (bare c) = c ∷ []
piece_text (escape c) = b'\\' ∷ c ∷ []
piece_text (doubled is) = b'"' ∷ items_text is ++ b'"' ∷ []
piece_text (singled t) = b'\'' ∷ t ++ b'\'' ∷ []

abbrev pub command_text : List Piece → Text
command_text [] = []
command_text (p ∷ ps) = piece_text p ++ command_text ps

abbrev pub IsItem : Item → Type 0
IsItem (plain c) = ((c == b'"') ≡ false) × ((c == b'\\') ≡ false)
IsItem (behind c) = Unit {0}

-- No piece has a quote or a backslash where it would be read as one.
abbrev pub IsPiece : Piece → Type 0
IsPiece (bare c) = ((c == b'\\') ≡ false) × ((c == b'"') ≡ false) × ((c == b'\'') ≡ false)
IsPiece (escape c) = Unit {0}
IsPiece (doubled is) = All IsItem is
IsPiece (singled t) = All (λ c. (c == b'\'') ≡ false) t

-- Cut at the bare separators only.
unfoldable pub segments : Text → List Piece → List Text
segments current [] = current ∷ []
segments current (bare c ∷ ps) =
    if is_separator c then current ∷ segments [] ps else segments (current ++ c ∷ []) ps
segments current (escape c ∷ ps) = segments (current ++ piece_text (escape c)) ps
segments current (doubled is ∷ ps) = segments (current ++ piece_text (doubled is)) ps
segments current (singled t ∷ ps) = segments (current ++ piece_text (singled t)) ps

unfoldable pub redirects : Piece → Bool
redirects (bare c) = is_redirect c
redirects (escape c) = false
redirects (doubled is) = false
redirects (singled t) = false

plain_step :
    (current : Text) (state : QuoteState) (c : ℕ) (s : Text)
    → turn state c ≡ none
    → (is_bare state && is_separator c) ≡ false
    → split_from current state false (c ∷ s) ≡ split_from (current ++ c ∷ []) state false s
unfolding split_from
plain_step current state c s e f = rw (split_from, e, f) refl

cut_step :
    (current : Text) (c : ℕ) (s : Text)
    → turn unquoted c ≡ none
    → is_separator c ≡ true
    → split_from current unquoted false (c ∷ s) ≡ current ∷ split_from [] unquoted false s
unfolding split_from is_bare
cut_step current c s e f = rw (split_from, e, f) refl

turn-single : (c : ℕ) → (c == b'\'') ≡ false → turn single c ≡ none
unfolding turn
turn-single c h = rw h

turn_double : (c : ℕ) → IsItem (plain c) → turn double c ≡ none
unfolding turn
turn_double c (hq, hb) = rw (hq, hb)

turn_bare : (c : ℕ) → IsPiece (bare c) → turn unquoted c ≡ none
unfolding turn
turn_bare c (hb, hq, hs) = rw (hb, hq, hs)

in_single :
    (current t s : Text)
    → All (λ c. (c == b'\'') ≡ false) t
    → split_from current single false (t ++ (b'\'' ∷ s))
      ≡ split_from (current ++ (t ++ b'\'' ∷ [])) unquoted false s
unfolding split_from turn is_bare
in_single current [] s h = refl
in_single current (c ∷ t) s (hc, h) =
    plain_step current single c (t ++ (b'\'' ∷ s)) (turn-single c hc) refl
    ∙ in_single (current ++ c ∷ []) t s h
    ∙ ap (λ u. split_from u unquoted false s) (append_assoc current (c ∷ []) (t ++ b'\'' ∷ []))

in_double :
    (current : Text) (is : List Item) (s : Text)
    → All IsItem is
    → split_from current double false (items_text is ++ (b'"' ∷ s))
      ≡ split_from (current ++ (items_text is ++ b'"' ∷ [])) unquoted false s
unfolding split_from turn is_bare
in_double current [] s h = refl
in_double current (plain c ∷ is) s (hc, h) =
    plain_step current double c (items_text is ++ (b'"' ∷ s)) (turn_double c hc) refl
    ∙ in_double (current ++ c ∷ []) is s h
    ∙ ap (λ u. split_from u unquoted false s)
        (append_assoc current (c ∷ []) (items_text is ++ b'"' ∷ []))
in_double current (behind c ∷ is) s (u, h) =
    in_double ((current ++ b'\\' ∷ []) ++ c ∷ []) is s h
    ∙ ap (λ u. split_from u unquoted false s)
        (append_assoc (current ++ b'\\' ∷ []) (c ∷ []) (items_text is ++ b'"' ∷ [])
          ∙ append_assoc current (b'\\' ∷ []) (c ∷ items_text is ++ b'"' ∷ []))

split_from-segments :
    (current : Text) (ps : List Piece)
    → All IsPiece ps
    → split_from current unquoted false (command_text ps) ≡ segments current ps
unfolding split_from segments turn is_bare
split_from-segments current [] h = refl
split_from-segments current (bare c ∷ ps) (hc, h) = elim (Bool-cases (is_separator c)) [
  | inl e ↦
      cut_step current c (command_text ps) (turn_bare c hc) e
      ∙ rw e (ap (λ ss. current ∷ ss) (split_from-segments [] ps h))
  | inr e ↦
      plain_step current unquoted c (command_text ps) (turn_bare c hc) e
      ∙ rw e (split_from-segments (current ++ c ∷ []) ps h)
]
split_from-segments current (escape c ∷ ps) (u, h) =
    ap (λ t. split_from t unquoted false (command_text ps))
      (append_assoc current (b'\\' ∷ []) (c ∷ []))
    ∙ split_from-segments (current ++ piece_text (escape c)) ps h
split_from-segments current (doubled is ∷ ps) (hi, h) =
    ap (λ t. split_from (current ++ b'"' ∷ []) double false t)
      (append_assoc (items_text is) (b'"' ∷ []) (command_text ps))
    ∙ in_double (current ++ b'"' ∷ []) is (command_text ps) hi
    ∙ ap (λ t. split_from t unquoted false (command_text ps))
        (append_assoc current (b'"' ∷ []) (items_text is ++ b'"' ∷ []))
    ∙ split_from-segments (current ++ piece_text (doubled is)) ps h
split_from-segments current (singled t ∷ ps) (ht, h) =
    ap (λ u. split_from (current ++ b'\'' ∷ []) single false u)
      (append_assoc t (b'\'' ∷ []) (command_text ps))
    ∙ in_single (current ++ b'\'' ∷ []) t (command_text ps) ht
    ∙ ap (λ u. split_from u unquoted false (command_text ps))
        (append_assoc current (b'\'' ∷ []) (t ++ b'\'' ∷ []))
    ∙ split_from-segments (current ++ piece_text (singled t)) ps h

pass_step :
    (state : QuoteState) (c : ℕ) (s : Text)
    → turn state c ≡ none
    → (is_bare state && is_redirect c) ≡ false
    → redirects_from state false (c ∷ s) ≡ redirects_from state false s
unfolding redirects_from
pass_step state c s e f = rw (redirects_from, e, f) refl

stop_step :
    (c : ℕ) (s : Text)
    → turn unquoted c ≡ none
    → is_redirect c ≡ true
    → redirects_from unquoted false (c ∷ s) ≡ true
unfolding redirects_from is_bare
stop_step c s e f = rw (redirects_from, e, f) refl

past_single :
    (t s : Text)
    → All (λ c. (c == b'\'') ≡ false) t
    → redirects_from single false (t ++ (b'\'' ∷ s)) ≡ redirects_from unquoted false s
unfolding redirects_from turn is_bare
past_single [] s h = refl
past_single (c ∷ t) s (hc, h) =
    pass_step single c (t ++ (b'\'' ∷ s)) (turn-single c hc) refl ∙ past_single t s h

past_double :
    (is : List Item) (s : Text)
    → All IsItem is
    → redirects_from double false (items_text is ++ (b'"' ∷ s)) ≡ redirects_from unquoted false s
unfolding redirects_from turn is_bare
past_double [] s h = refl
past_double (plain c ∷ is) s (hc, h) =
    pass_step double c (items_text is ++ (b'"' ∷ s)) (turn_double c hc) refl ∙ past_double is s h
past_double (behind c ∷ is) s (u, h) = past_double is s h

redirects_from-command_text :
    (ps : List Piece)
    → All IsPiece ps
    → redirects_from unquoted false (command_text ps) ≡ any redirects ps
unfolding redirects_from redirects turn is_bare
redirects_from-command_text [] h = refl
redirects_from-command_text (bare c ∷ ps) (hc, h) = elim (Bool-cases (is_redirect c)) [
  | inl e ↦ stop_step c (command_text ps) (turn_bare c hc) e ∙ rw e
  | inr e ↦
      pass_step unquoted c (command_text ps) (turn_bare c hc) e
      ∙ rw e (redirects_from-command_text ps h)
]
redirects_from-command_text (escape c ∷ ps) (u, h) = redirects_from-command_text ps h
redirects_from-command_text (doubled is ∷ ps) (hi, h) =
    ap (redirects_from double false) (append_assoc (items_text is) (b'"' ∷ []) (command_text ps))
    ∙ past_double is (command_text ps) hi
    ∙ redirects_from-command_text ps h
redirects_from-command_text (singled t ∷ ps) (ht, h) =
    ap (redirects_from single false) (append_assoc t (b'\'' ∷ []) (command_text ps))
    ∙ past_single t (command_text ps) ht
    ∙ redirects_from-command_text ps h

-- A command of bare characters, escapes and closed quotes is split at its bare separators only, with
-- everything else of it left as it is, and has a redirection exactly where one is bare.
pub scans-pieces :
    (ps : List Piece)
    → All IsPiece ps
    → (split_unquoted_separators (command_text ps) ≡ segments [] ps)
      × (has_unquoted_redirection (command_text ps) ≡ any redirects ps)
unfolding split_unquoted_separators has_unquoted_redirection
scans-pieces ps h = (split_from-segments [] ps h, redirects_from-command_text ps h)
