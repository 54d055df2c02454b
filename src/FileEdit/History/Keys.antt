-- ===== src/FileEdit/History/Keys.antt =====
-- tools/file_edit.rs: the paths and payloads that the operations of `EditHistory` leave.
use kitaebot.Common.{
  ℕ, ◌≤◌, ◌≡◌, refl, Bool, true, false, not, ◌||◌, List, [], ◌∷◌, ◌++◌, Text, length, length-append,
  keep_if, arith, All, Bool-cases, inl, inr, ◌=?◌, list_key, nat_key, get, insert,
}
use kitaebot.FileEdit.History.{remove, is_tracked, ring_of, pushed_back}

abbrev pub keys : List (Text × List ℕ) → List Text
keys [] = []
keys ((p, ring) ∷ m) = p ∷ keys m

abbrev pub is_in : Text → List Text → Bool
is_in p [] = false
is_in p (q ∷ qs) = (q =? p) || is_in p qs

abbrev pub Distinct : List Text → Type 0
Distinct [] = Unit {0}
Distinct (p ∷ ps) = (is_in p ps ≡ false) × Distinct ps

abbrev pub Short : Text × List ℕ → Type 0
Short (p, ring) = length ring ≤ 8

pub is_tracked-keys : (p : Text) (m : List (Text × List ℕ)) → is_tracked p m ≡ is_in p (keys m)
unfolding is_tracked
is_tracked-keys p [] = refl
is_tracked-keys p ((q, ring) ∷ m) = ground (arith, is_tracked-keys p m)

pub keys-remove :
    (p : Text) (m : List (Text × List ℕ)) → keys (remove p m) ≡ keep_if (λ q. not (q =? p)) (keys m)
unfolding remove
keys-remove p [] = refl
keys-remove p ((q, ring) ∷ m) = ground (arith, keys-remove p m)

pub keep_all :
    (p : Text) (qs : List Text) → is_in p qs ≡ false → keep_if (λ q. not (q =? p)) qs ≡ qs
keep_all p [] h = refl
keep_all p (q ∷ qs) h = ground (arith, keep_all p qs)

pub is_in-keep_if :
    (r p : Text) (qs : List Text)
    → is_in r qs ≡ false
    → is_in r (keep_if (λ q. not (q =? p)) qs) ≡ false
is_in-keep_if r p [] h = refl
is_in-keep_if r p (q ∷ qs) h = ground (arith, is_in-keep_if r p qs)

pub Distinct-keep_if :
    (p : Text) (qs : List Text) → Distinct qs → Distinct (keep_if (λ q. not (q =? p)) qs)
Distinct-keep_if p [] d = tt
Distinct-keep_if p (q ∷ qs) (n, d) = elim (Bool-cases (q =? p)) [
  | inl e ↦ rw e (Distinct-keep_if p qs d)
  | inr e ↦ rw e (is_in-keep_if q p qs n, Distinct-keep_if p qs d)
]

pub length-keep_if :
    (p : Text) (qs : List Text) → length (keep_if (λ q. not (q =? p)) qs) ≤ length qs
length-keep_if p [] = omega arith
length-keep_if p (q ∷ qs) = ground (arith, length-keep_if p qs)

pub is_in-snoc : (r p : Text) (qs : List Text) → is_in r (qs ++ p ∷ []) ≡ (is_in r qs || (p =? r))
is_in-snoc r p [] = ground arith
is_in-snoc r p (q ∷ qs) = ground (arith, is_in-snoc r p qs)

pub Distinct-snoc :
    (p : Text) (qs : List Text) → Distinct qs → is_in p qs ≡ false → Distinct (qs ++ p ∷ [])
Distinct-snoc p [] d h = (refl, tt)
Distinct-snoc p (q ∷ qs) (n, d) h = (
  ground
      (arith, is_in-snoc q p qs, (list_key {A = ℕ}).same_iff p q, (list_key {A = ℕ}).same_iff q p),
  Distinct-snoc p qs d (ground arith),
)

pub Short-remove : (p : Text) (m : List (Text × List ℕ)) → All Short m → All Short (remove p m)
unfolding remove
Short-remove p [] a = tt
Short-remove p ((q, ring) ∷ m) (s, a) = ground (arith, Short-remove p m a)

pub Short-insert :
    (p : Text) (ring : List ℕ) (m : List (Text × List ℕ))
    → length ring ≤ 8
    → All Short m
    → All Short (insert p ring m)
unfolding insert
Short-insert p ring [] s a = (s, tt)
Short-insert p ring ((q, r) ∷ m) s (t, a) = ground (arith, Short-insert p ring m s a)

pub Short-get : (p : Text) (m : List (Text × List ℕ)) → All Short m → length (ring_of (get p m)) ≤ 8
unfolding get ring_of
Short-get p [] a = omega arith
Short-get p ((q, ring) ∷ m) (s, a) = ground (arith, Short-get p m a)

pub keys-insert_new :
    (p : Text) (ring : List ℕ) (m : List (Text × List ℕ))
    → is_in p (keys m) ≡ false
    → keys (insert p ring m) ≡ keys m ++ p ∷ []
unfolding insert
keys-insert_new p ring [] h = refl
keys-insert_new p ring ((q, r) ∷ m) h = ground (arith, keys-insert_new p ring m)

pub keys-insert_old :
    (p : Text) (ring : List ℕ) (m : List (Text × List ℕ))
    → is_in p (keys m) ≡ true
    → keys (insert p ring m) ≡ keys m
unfolding insert
keys-insert_old p ring [] h = cc
keys-insert_old p ring ((q, r) ∷ m) h =
    ground (arith, keys-insert_old p ring m, (list_key {A = ℕ}).same_iff q p)

pub length-pushed_back : (n : ℕ) (ring : List ℕ) → length ring ≤ 8 → length (pushed_back n ring) ≤ 8
unfolding pushed_back
length-pushed_back n [] h = omega arith
length-pushed_back n (r ∷ ring) h =
    ground (arith, length-append ring (n ∷ []), length-append (r ∷ ring) (n ∷ []))
