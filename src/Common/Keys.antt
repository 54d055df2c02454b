-- ===== src/Common/Keys.antt =====
-- Decidable keys as an interface, and maps as association lists over it (`HashMap`, `BTreeMap`).
use Prim.Native.Nat.{ℕ}
use mathlib.Core.Path.{◌≡◌, refl}
use mathlib.Core.Logic.{◌↔◌}
use mathlib.Core.Bool.{Bool, true, false, ◌&&◌}
use mathlib.Core.List.{List, [], ◌∷◌}
use mathlib.Core.Option.{Option, none, some}
use native.Mathlib.Omega.{arith}
use kitaebot.Common.Tests.{◌==◌, ==_iff, if◌then◌else◌}

pub record Key {ℓ} (K : Type ℓ) : Type ℓ where
  pub same : K → K → Bool
  pub same_iff : (a b : K) → (same a b ≡ true) ↔ (a ≡ b)

instance abbrev pub nat_key : Key ℕ
nat_key = record { same = ◌==◌; same_iff = ==_iff }

abbrev pub same_list {ℓ} : {A : Type ℓ} → (A → A → Bool) → List A → List A → Bool
same_list eq [] [] = true
same_list eq (x ∷ xs) (y ∷ ys) = eq x y && same_list eq xs ys
same_list eq _ _ = false

module _ {ℓ} {A : Type ℓ} ⦃e : Key A⦄ where
  pub same_list_sound : (xs ys : List A) → same_list e.same xs ys ≡ true → xs ≡ ys
  same_list_sound [] [] h = refl
  same_list_sound (x ∷ xs) (y ∷ ys) h = ground (arith, e.same_iff x y, same_list_sound xs ys)
  same_list_sound [] (y ∷ ys) h = cc
  same_list_sound (x ∷ xs) [] h = cc

  same_list_refl : (xs : List A) → same_list e.same xs xs ≡ true
  same_list_refl [] = refl
  same_list_refl (x ∷ xs) = ground (arith, e.same_iff x x, same_list_refl xs)

  pub same_list_iff : (xs ys : List A) → (same_list e.same xs ys ≡ true) ↔ (xs ≡ ys)
  same_list_iff xs ys = (same_list_sound xs ys, λ p. rw p (same_list_refl ys))

instance abbrev pub list_key {ℓ} : {A : Type ℓ} ⦃e : Key A⦄ → Key (List A)
list_key ⦃e⦄ = record { same = same_list e.same; same_iff = same_list_iff }

module _ {ℓ κ} {A : Type ℓ} {B : Type κ} ⦃e : Key A⦄ ⦃f : Key B⦄ where
  abbrev pub same_pair : A × B → A × B → Bool
  same_pair (a, b) (c, d) = e.same a c && f.same b d

  pub same_pair_iff : (p q : A × B) → (same_pair p q ≡ true) ↔ (p ≡ q)
  same_pair_iff (a, b) (c, d) = (
    λ h. ground (arith, e.same_iff a c, f.same_iff b d),
    λ h. ground (arith, e.same_iff a c, f.same_iff b d),
  )

instance abbrev pub pair_key {ℓ κ} : {A : Type ℓ} {B : Type κ} ⦃e : Key A⦄ ⦃f : Key B⦄ → Key (A × B)
pair_key = record { same = same_pair; same_iff = same_pair_iff }

-- A text is the list of its bytes.
abbrev pub Text : Type 0
Text = List ℕ

infix 50 ◌=?◌
abbrev pub ◌=?◌ {ℓ} : {K : Type ℓ} ⦃e : Key K⦄ → K → K → Bool
◌=?◌ ⦃e⦄ = e.same

module _ {ℓ κ} {K : Type ℓ} {V : Type κ} ⦃e : Key K⦄ where
  unfoldable pub get : K → List (K × V) → Option V
  get k [] = none
  get k ((j, v) ∷ m) = if e.same j k then some v else get k m

  unfoldable pub insert : K → V → List (K × V) → List (K × V)
  insert k v [] = (k, v) ∷ []
  insert k v ((j, w) ∷ m) = if e.same j k then (k, v) ∷ m else (j, w) ∷ insert k v m

  pub get-insert :
      (k j : K) (v : V) (m : List (K × V))
      → get j (insert k v m) ≡ (if e.same k j then some v else get j m)
  unfolding get insert
  get-insert k j v [] = refl
  get-insert k j v ((i, w) ∷ m) =
      ground (arith, e.same_iff k j, e.same_iff i k, e.same_iff i j, get-insert k j v m)
