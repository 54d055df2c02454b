-- ===== src/FileEdit/Splices.antt =====
-- tools/file_edit.rs: `splice` and `splice_all`.
use kitaebot.Common.{
  ℕ, zero, suc, ◌+◌, ◌<◌, ◌≡◌, inl, inr, refl, sym, ap, subst, ◌∙◌, true, List, [], ◌∷◌, ◌++◌,
  append_assoc, Text, some, length, length-append, take, drop, arith, le→leb,
}
use kitaebot.Texts.{starts_char}
use kitaebot.Texts.Utf8.{IsWhole, IsWhole-append, IsWhole-rest, IsWhole-front, IsWhole-starts_char}
use kitaebot.FileEdit.{splice, splice_here, splice_all}
use kitaebot.FileEdit.Matching.{Span, match_indices}
use kitaebot.FileEdit.Exact.{Replaced, kept, next, First, scan}

take-front : {A : Type 0} (xs ys : List A) → take (length xs) (xs ++ ys) ≡ xs
take-front [] ys = refl
take-front (x ∷ xs) ys = ap (λ zs. x ∷ zs) (take-front xs ys)

drop-front : {A : Type 0} (xs ys : List A) → drop (length xs) (xs ++ ys) ≡ ys
drop-front [] ys = refl
drop-front (x ∷ xs) ys = drop-front xs ys

drop-both : {A : Type 0} (xs ys zs : List A) → drop (length xs + length ys) (xs ++ (ys ++ zs)) ≡ zs
drop-both xs ys zs =
    ap (λ n. drop n (xs ++ (ys ++ zs))) (sym (length-append xs ys))
    ∙ ap (drop (length (xs ++ ys))) (sym (append_assoc xs ys zs))
    ∙ drop-front (xs ++ ys) zs

-- A part between boundaries is replaced, and nothing else.
pub splice-parts :
    (pre old post new : Text)
    → starts_char (old ++ post) ≡ true
    → starts_char post ≡ true
    → splice (pre ++ (old ++ post)) (length pre) (length old) new ≡ some (pre ++ (new ++ post))
unfolding splice
splice-parts pre old post new h k = rw (
  drop-front pre (old ++ post),
  drop-both pre old post,
  take-front pre (old ++ post),
  h,
  k,
  le→leb (length pre + length old) (length (pre ++ (old ++ post)))
      (omega (arith, length-append pre (old ++ post), length-append old post)),
)

splice_at :
    (done pre old post new : Text)
    → starts_char (old ++ post) ≡ true
    → starts_char post ≡ true
    → splice (((done ++ pre) ++ old) ++ post) (length done + length pre) (length old) new
      ≡ some (done ++ (pre ++ (new ++ post)))
splice_at done pre old post new h k =
    ap (λ t. splice t (length done + length pre) (length old) new)
      (append_assoc (done ++ pre) old post)
    ∙ ap (λ n. splice ((done ++ pre) ++ (old ++ post)) n (length old) new)
        (sym (length-append done pre))
    ∙ splice-parts (done ++ pre) old post new h k
    ∙ ap some (append_assoc done pre (new ++ post))

-- What is left of a text from one of its parts on, when every match from there on is replaced.
pub record Rest (old new done s : Text) (spans : List Span) : Type 0 where
  pub out : Text
  pub spliced : splice_all (done ++ s) spans new ≡ some (done ++ out)
  pub replaced : Replaced old new s out
  pub whole : IsWhole out

module _ (b : ℕ) (old new : Text) (hold : IsWhole (b ∷ old)) (hnew : IsWhole new) where
  -- A match in front of a part in which all are replaced.
  led_by :
      (done s : Text) (f : First (b ∷ old) (length done) s)
      → IsWhole s
      → Rest
          (b ∷ old)
          new
          ((done ++ f.pre) ++ b ∷ old)
          f.post
          (match_indices (b ∷ old) (length done + length f.pre + length (b ∷ old)) 0 f.post)
      → Rest (b ∷ old) new done s (match_indices (b ∷ old) (length done) 0 s)
  unfolding splice_all splice_here
  led_by done s f hs rest =
      let whole : IsWhole (f.pre ++ (b ∷ old ++ f.post)) = subst IsWhole f.whole hs in
      let hpre = IsWhole-front f.pre b old f.post hold whole in
      record {
        out = f.pre ++ (new ++ rest.out);
        spliced =
            ap (λ ss. splice_all (done ++ s) ss new) f.spans
            ∙ ap
                (splice_here (record { start = length done + length f.pre; len = length (b ∷ old) })
                  new)
                (ap
                    (λ t.
                      splice_all t
                        (match_indices (b ∷ old) (length done + length f.pre + length (b ∷ old)) 0
                          f.post)
                        new)
                    (same_text f.pre f.post f.whole)
                  ∙ rest.spliced)
            ∙ splice_at done f.pre (b ∷ old) rest.out new
                (IsWhole-starts_char (b ∷ old ++ rest.out)
                  (IsWhole-append (b ∷ old) rest.out hold rest.whole))
                (IsWhole-starts_char rest.out rest.whole);
        replaced = next f.pre f.post rest.out f.whole f.first rest.replaced refl;
        whole =
            IsWhole-append f.pre (new ++ rest.out) hpre
              (IsWhole-append new rest.out hnew rest.whole);
      }
    where
      same_text :
          (pre post : Text)
          → s ≡ pre ++ (b ∷ old ++ post)
          → done ++ s ≡ ((done ++ pre) ++ b ∷ old) ++ post
      same_text pre post e =
          ap (λ t. done ++ t) e
          ∙ sym (append_assoc done pre (b ∷ old ++ post))
          ∙ sym (append_assoc (done ++ pre) (b ∷ old) post)

  -- `n` bounds the text that is left.
  spliced_behind :
      (n : ℕ) (done s : Text)
      → length s < n
      → IsWhole s
      → Rest (b ∷ old) new done s (match_indices (b ∷ old) (length done) 0 s)
  unfolding splice_all
  spliced_behind zero done s bound hs = absurd (omega arith)
  spliced_behind (suc n) done s bound hs = elim (scan b old (length done) s) [
    | inl (absent, empty) ↦ record {
      out = s;
      spliced = ap (λ ss. splice_all (done ++ s) ss new) empty;
      replaced = kept s absent;
      whole = hs;
    }
    | inr f ↦
        let shorter : length f.post < n = left_shorter f.pre f.post f.whole in
        led_by done s f hs (
          subst
            (λ p.
              Rest (b ∷ old) new ((done ++ f.pre) ++ b ∷ old) f.post
                (match_indices (b ∷ old) p 0 f.post))
            (place f.pre)
            (spliced_behind n ((done ++ f.pre) ++ b ∷ old) f.post shorter
              (post_whole f.pre f.post f.whole)))
  ]
    where
      left_shorter : (pre post : Text) → s ≡ pre ++ (b ∷ old ++ post) → length post < n
      left_shorter pre post e =
          omega (arith, ap length e, length-append pre (b ∷ old ++ post), length-append old post)

      place :
          (pre : Text)
          → length ((done ++ pre) ++ b ∷ old) ≡ length done + length pre + length (b ∷ old)
      place pre = omega (arith, length-append (done ++ pre) (b ∷ old), length-append done pre)

      post_whole : (pre post : Text) → s ≡ pre ++ (b ∷ old ++ post) → IsWhole post
      post_whole pre post e =
          let whole : IsWhole (pre ++ (b ∷ old ++ post)) = subst IsWhole e hs in
          IsWhole-rest (b ∷ old) post hold
            (IsWhole-rest pre (b ∷ old ++ post) (IsWhole-front pre b old post hold whole) whole)

  pub splice_all-Replaced :
      (content : Text)
      → IsWhole content
      → (out : Text) × (splice_all content (match_indices (b ∷ old) 0 0 content) new ≡ some out)
        × Replaced (b ∷ old) new content out
  splice_all-Replaced content h =
      let rest = spliced_behind (suc (length content)) [] content (omega arith) h in
      (rest.out, rest.spliced, rest.replaced)
