-- ===== src/Prelude/Filter.antt =====
-- What passes a filter.
use mathlib.Core.Path.{◌≡◌, refl, ap, ◌∙◌}
use mathlib.Core.Bool.{Bool, true, false, Bool-set}
use mathlib.Core.HLevel.{×_prop}
use mathlib.Core.Logic.{∥∥₁_elim}
use mathlib.Core.List.{List, [], ◌∷◌, Mem, Memᴰ, Mem-prop, not-mem-nil}
use raftoral.Prelude.Tests.{if◌then◌else◌}
use raftoral.Prelude.Lists.{All, filter_by, is_empty}

module _ {ℓ} {A : Type ℓ} (p : A → Bool) where
  Memᴰ-filter : (x : A) (xs : List A) → Memᴰ x (filter_by p xs) → Memᴰ x xs × (p x ≡ true)
  Memᴰ-filter x [] m = absurd (not-mem-nil ∣ m ∣₁)
  Memᴰ-filter x (y ∷ xs) m = go (p y) refl m (Memᴰ-filter x xs)
    where
      go :
          (b : Bool)
          → p y ≡ b
          → Memᴰ x (if b then y ∷ filter_by p xs else filter_by p xs)
          → (Memᴰ x (filter_by p xs) → Memᴰ x xs × (p x ≡ true))
          → Memᴰ x (y ∷ xs) × (p x ≡ true)
      go true e (Memᴰ.head same) ih = (Memᴰ.head same, ap p same ∙ e)
      go true e (Memᴰ.tail m) ih = (Memᴰ.tail (ih m).0, (ih m).1)
      go false e m ih = (Memᴰ.tail (ih m).0, (ih m).1)

  -- What passes is from the list, and passes the test.
  pub mem-filter_by : {x : A} (xs : List A) → Mem x (filter_by p xs) → Mem x xs × (p x ≡ true)
  mem-filter_by {x} xs m =
      ∥∥₁_elim m (×_prop Mem-prop (Bool-set _ _))
        (λ d. (∣ (Memᴰ-filter x xs d).0 ∣₁, (Memᴰ-filter x xs d).1))

  -- What holds of all that passes holds of all that the test accepts.
  pub All-of-filter {κ} :
      (P : A → Type κ) (xs : List A) → All P (filter_by p xs) → All (λ x. p x ≡ true → P x) xs
  All-of-filter P [] h = tt
  All-of-filter P (x ∷ xs) h = go (p x) refl h (All-of-filter P xs)
    where
      go :
          (b : Bool)
          → p x ≡ b
          → All P (if b then x ∷ filter_by p xs else filter_by p xs)
          → (All P (filter_by p xs) → All (λ y. p y ≡ true → P y) xs)
          → All (λ y. p y ≡ true → P y) (x ∷ xs)
      go true e h ih = (λ _. h.0, ih h.1)
      go false e h ih = (λ t. cc, ih h)

pub All-of-empty {ℓ κ} : {A : Type ℓ} (P : A → Type κ) (xs : List A) → is_empty xs ≡ true → All P xs
All-of-empty P [] e = tt
All-of-empty P (x ∷ xs) e = cc
