-- ===== src/Prelude/Sort.antt =====
-- The stable sorts of the standard library, by insertion.
use mathlib.Core.Path.{◌≡◌, refl, sym, subst}
use mathlib.Core.Bool.{Bool, true, false}
use mathlib.Core.List.{List, [], ◌∷◌, Mem, Perm, mem-cons_self}
use mathlib.Core.List.Perm
use native.Mathlib.Omega.{arith}
use Prim.Native.Nat.{ℕ, ◌+◌, ◌≤◌}
use raftoral.Prelude.Tests.{if◌then◌else◌, leb, Bool-cases}
use raftoral.Prelude.Lists.{All, All-map, length}
use mathlib.Core.Logic.{inl, inr}

perm_if {ℓ} :
    {A : Type ℓ} {xs ys zs : List A} (b : Bool)
    → Perm xs zs
    → Perm ys zs
    → Perm (if b then xs else ys) zs
perm_if true h k = h
perm_if false h k = k

module _ {ℓ} {A : Type ℓ} (before : A → A → Bool) where
  -- `x` stands first among equals: it came first.
  unfoldable pub insert_by : A → List A → List A
  insert_by x [] = x ∷ []
  insert_by x (y ∷ ys) = let rest = insert_by x ys in if before x y then x ∷ y ∷ ys else y ∷ rest

  unfoldable pub sort_by : List A → List A
  sort_by [] = []
  sort_by (x ∷ xs) = insert_by x (sort_by xs)

  pub insert_by-perm : (x : A) (xs : List A) → Perm (insert_by x xs) (x ∷ xs)
  unfolding insert_by
  insert_by-perm x [] = Perm.refl (x ∷ [])
  insert_by-perm x (y ∷ ys) =
      perm_if (before x y) (Perm.refl (x ∷ y ∷ ys))
        (Perm.trans (Perm.cons y (insert_by-perm x ys)) (Perm.swap x y ys))

  pub sort_by-perm : (xs : List A) → Perm (sort_by xs) xs
  unfolding sort_by
  sort_by-perm [] = Perm.refl []
  sort_by-perm (x ∷ xs) = Perm.trans (insert_by-perm x (sort_by xs)) (Perm.cons x (sort_by-perm xs))

  length-insert_by : (x : A) (xs : List A) → length (insert_by x xs) ≡ length xs + 1
  unfolding insert_by
  length-insert_by x [] = omega arith
  length-insert_by x (y ∷ ys) = ground (arith, length-insert_by x ys)

  pub length-sort_by : (xs : List A) → length (sort_by xs) ≡ length xs
  unfolding sort_by
  length-sort_by [] = refl
  length-sort_by (x ∷ xs) = omega (arith, length-insert_by x (sort_by xs), length-sort_by xs)

  insert_by-All {κ} :
      (P : A → Type κ) (x : A) (xs : List A) → P x → All P xs → All P (insert_by x xs)
  unfolding insert_by
  insert_by-All P x [] p h = (p, h)
  insert_by-All P x (y ∷ ys) p h = elim (Bool-cases (before x y)) [
    | inl e ↦ rw e (p, h)
    | inr e ↦ rw e (h.0, insert_by-All P x ys p h.1)
  ]

  pub sort_by-All {κ} : (P : A → Type κ) (xs : List A) → All P xs → All P (sort_by xs)
  unfolding sort_by
  sort_by-All P [] h = h
  sort_by-All P (x ∷ xs) h = insert_by-All P x (sort_by xs) h.0 (sort_by-All P xs h.1)

-- `before` decides a total preorder `R`.
pub record Decides {ℓ} {A : Type ℓ} (before : A → A → Bool) (R : A → A → Type 0) : Type ℓ where
  pub if_true : (a b : A) → before a b ≡ true → R a b
  pub if_false : (a b : A) → before a b ≡ false → R b a
  pub chain : (a b c : A) → R a b → R b c → R a c

abbrev pub IsSorted {ℓ} : {A : Type ℓ} → (A → A → Type 0) → List A → Type 0
IsSorted R [] = Unit
IsSorted R (x ∷ xs) = All (R x) xs × IsSorted R xs

module _ {ℓ} {A : Type ℓ} {before : A → A → Bool} {R : A → A → Type 0} (d : Decides before R) where
  insert_by-IsSorted : (x : A) (xs : List A) → IsSorted R xs → IsSorted R (insert_by before x xs)
  unfolding insert_by
  insert_by-IsSorted x [] h = (tt, tt)
  insert_by-IsSorted x (y ∷ ys) h = elim (Bool-cases (before x y)) [
    | inl e ↦
        let xy = d.if_true x y e in
        rw e ((xy, All-map (R y) (R x) (λ z yz. d.chain x y z xy yz) ys h.0), h)
    | inr e ↦
        rw e (insert_by-All before (R y) x ys (d.if_false x y e) h.0, insert_by-IsSorted x ys h.1)
  ]

  pub sort_by-IsSorted : (xs : List A) → IsSorted R (sort_by before xs)
  unfolding sort_by
  sort_by-IsSorted [] = tt
  sort_by-IsSorted (x ∷ xs) = insert_by-IsSorted x (sort_by before xs) (sort_by-IsSorted xs)

-- `sort_by_key`, and with `Reverse` of the key.
module _ {ℓ} {A : Type ℓ} (key : A → ℕ) where
  abbrev pub ascending : A → A → Bool
  ascending a b = leb (key a) (key b)

  abbrev pub descending : A → A → Bool
  descending a b = leb (key b) (key a)

  pub ascending-Decides : Decides ascending (λ a b. key a ≤ key b)
  ascending-Decides = record {
    if_true = λ a b h. ground arith;
    if_false = λ a b h. ground arith;
    chain = λ a b c h k. omega arith;
  }

  pub descending-Decides : Decides descending (λ a b. key b ≤ key a)
  descending-Decides = record {
    if_true = λ a b h. ground arith;
    if_false = λ a b h. ground arith;
    chain = λ a b c h k. omega arith;
  }

module _ {ℓ κ} {A : Type ℓ} (before : A → A → Bool) (P : A → Type κ) where
  All-of-if :
      (b : Bool) (x y : A) (ys zs : List A)
      → (All P zs → All P (x ∷ ys))
      → All P (if b then x ∷ y ∷ ys else y ∷ zs)
      → All P (x ∷ y ∷ ys)
  All-of-if true x y ys zs f h = h
  All-of-if false x y ys zs f h = let rest = f h.1 in (rest.0, (h.0, rest.1))

  All-of-insert : (x : A) (xs : List A) → All P (insert_by before x xs) → All P (x ∷ xs)
  unfolding insert_by
  All-of-insert x [] h = h
  All-of-insert x (y ∷ ys) h =
      All-of-if (before x y) x y ys (insert_by before x ys) (All-of-insert x ys) h

  All-of-sort : (xs : List A) → All P (sort_by before xs) → All P xs
  unfolding sort_by
  All-of-sort [] h = h
  All-of-sort (x ∷ xs) h =
      let both = All-of-insert x (sort_by before xs) h in (both.0, All-of-sort xs both.1)

module _ {ℓ} {A : Type ℓ} {before : A → A → Bool} {R : A → A → Type 0} (d : Decides before R) where
  reflexive : (a : A) → R a a
  reflexive a = elim (Bool-cases (before a a)) [
    | inl e ↦ d.if_true a a e
    | inr e ↦ d.if_false a a e
  ]

  -- The first element of a sorted list is from the list and stands before every other.
  pub sort_by-first :
      (xs : List A) (m : A) (rest : List A) → sort_by before xs ≡ m ∷ rest → Mem m xs × All (R m) xs
  sort_by-first xs m rest e =
      let sorted : IsSorted R (m ∷ rest) = subst (IsSorted R) e (sort_by-IsSorted d xs) in
      (
        (Perm.mem_iff (sort_by-perm before xs)).0 (subst (Mem m) (sym e) mem-cons_self),
        All-of-sort before (R m) xs (subst (All (R m)) (sym e) (reflexive m, sorted.0)),
      )

  -- Sorting nothing away: only the empty list sorts to the empty list.
  pub sort_by-nil : (xs : List A) → sort_by before xs ≡ [] → xs ≡ []
  sort_by-nil xs e = Perm.eq-nil (subst (λ l. Perm xs l) e (Perm.symm (sort_by-perm before xs)))
