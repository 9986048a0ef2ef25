-- ===== src/Prelude/Sets.antt =====
-- `contains` and `retain` of a `Vec`, with their laws.
use mathlib.Core.Path.{◌≡◌, refl}
use mathlib.Core.Bool.{Bool, false, not, ◌&&◌, ◌||◌}
use mathlib.Core.List.{List, [], ◌∷◌, ◌++◌}
use native.Mathlib.Omega.{arith}
use raftoral.Prelude.Eq.{Eq, ◌==◌}
use raftoral.Prelude.Lists.{filter_by}

module _ {ℓ} {A : Type ℓ} ⦃e : Eq A⦄ where
  unfoldable pub contains : A → List A → Bool
  contains a [] = false
  contains a (x ∷ xs) = x == a || contains a xs

  -- `retain(|id| id != a)`
  unfoldable pub without : A → List A → List A
  without a xs = filter_by (λ x. not (x == a)) xs

  pub contains-append_one :
      (a b : A) (xs : List A) → contains a (xs ++ b ∷ []) ≡ (b == a || contains a xs)
  unfolding contains
  contains-append_one a b [] = refl
  contains-append_one a b (x ∷ xs) = ground (arith, contains-append_one a b xs)

  pub contains-without :
      (a b : A) (xs : List A) → contains a (without b xs) ≡ (not (b == a) && contains a xs)
  unfolding contains without
  contains-without a b [] = ground arith
  contains-without a b (x ∷ xs) =
      ground (arith, contains-without a b xs, e.beq_iff x a, e.beq_iff x b, e.beq_iff b a)
