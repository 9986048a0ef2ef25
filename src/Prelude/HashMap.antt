-- ===== src/Prelude/HashMap.antt =====
-- `HashMap` as an association list. Its order stands for the order in which the source iterates,
-- so what holds for every list holds for every iteration order.
use mathlib.Core.Path.{◌≡◌, refl}
use mathlib.Core.Bool.{Bool}
use mathlib.Core.List.{List, [], ◌∷◌}
use mathlib.Core.Option.{Option, none, some}
use native.Mathlib.Omega.{arith}
use raftoral.Prelude.Tests.{if◌then◌else◌}
use raftoral.Prelude.Eq.{Eq, ◌==◌}

abbrev pub HashMap {ℓ κ} : Type ℓ → Type κ → Type (ℓ ⊔ κ)
HashMap K V = List (K × V)

module _ {ℓ κ} {K : Type ℓ} {V : Type κ} ⦃e : Eq K⦄ where
  unfoldable pub get : K → HashMap K V → Option V
  get k [] = none
  get k ((j, v) ∷ m) = if j == k then some v else get k m

  unfoldable pub insert : K → V → HashMap K V → HashMap K V
  insert k v [] = (k, v) ∷ []
  insert k v ((j, w) ∷ m) = let rest = insert k v m in if j == k then (k, v) ∷ m else (j, w) ∷ rest

  unfoldable pub remove : K → HashMap K V → HashMap K V
  remove k [] = []
  remove k ((j, w) ∷ m) = let rest = remove k m in if j == k then rest else (j, w) ∷ rest

  -- `retain` with a test on the key alone.
  unfoldable pub retain : (K → Bool) → HashMap K V → HashMap K V
  retain p [] = []
  retain p ((j, w) ∷ m) = let rest = retain p m in if p j then (j, w) ∷ rest else rest

  pub get-insert :
      (k j : K) (v : V) (m : HashMap K V)
      → get j (insert k v m) ≡ (if k == j then some v else get j m)
  unfolding get insert
  get-insert k j v [] = refl
  get-insert k j v ((i, w) ∷ m) =
      ground (arith, e.beq_iff k j, e.beq_iff i k, e.beq_iff i j, get-insert k j v m)

  pub get-remove :
      (k j : K) (m : HashMap K V) → get j (remove k m) ≡ (if k == j then none else get j m)
  unfolding get remove
  get-remove k j [] = ground arith
  get-remove k j ((i, w) ∷ m) =
      ground (arith, e.beq_iff k j, e.beq_iff i k, e.beq_iff i j, get-remove k j m)

  pub get-retain :
      (p : K → Bool) (j : K) (m : HashMap K V)
      → get j (retain p m) ≡ (if p j then get j m else none)
  unfolding get retain
  get-retain p j [] = ground arith
  get-retain p j ((i, w) ∷ m) = ground (arith, e.beq_iff i j, get-retain p j m)

  -- The same entries, in whatever order.
  abbrev pub SameMap : HashMap K V → HashMap K V → Type (ℓ ⊔ κ)
  SameMap m n = (k : K) → get k m ≡ get k n

  pub SameMap-insert :
      (k : K) (v : V) (m n : HashMap K V) → SameMap m n → SameMap (insert k v m) (insert k v n)
  SameMap-insert k v m n h j = ground (arith, get-insert k j v m, get-insert k j v n, h j)

  pub SameMap-remove : (k : K) (m n : HashMap K V) → SameMap m n → SameMap (remove k m) (remove k n)
  SameMap-remove k m n h j = ground (arith, get-remove k j m, get-remove k j n, h j)

  pub SameMap-retain :
      (p : K → Bool) (m n : HashMap K V) → SameMap m n → SameMap (retain p m) (retain p n)
  SameMap-retain p m n h j = ground (arith, get-retain p j m, get-retain p j n, h j)
