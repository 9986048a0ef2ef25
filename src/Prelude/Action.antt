-- ===== src/Prelude/Action.antt =====
-- Methods that change a state and may fail. What was written before a failure stays written.
use raftoral.Prelude.Result.{Result, ok, err}

abbrev pub Action {ℓ κ μ} : Type ℓ → Type κ → Type μ → Type (ℓ ⊔ κ ⊔ μ)
Action S E A = S → S × Result E A

module _ {ℓ κ μ} {S : Type ℓ} {E : Type κ} {A : Type μ} where
  abbrev pub pure : A → Action S E A
  pure a s = (s, ok a)

  abbrev pub raise : E → Action S E A
  raise e s = (s, err e)

  abbrev pub lift : Result E A → Action S E A
  lift r s = (s, r)

  -- A method that reads the state and may fail.
  abbrev pub reads : (S → Result E A) → Action S E A
  reads f s = (s, f s)

module _ {ℓ κ μ ν} {S : Type ℓ} {E : Type κ} {A : Type μ} {B : Type ν} where
  abbrev pub continue : S → Result E A → (A → Action S E B) → S × Result E B
  continue s (ok a) f = f a s
  continue s (err e) f = (s, err e)

  infixl 5 ◌>>=◌ ◌>>◌
  abbrev pub ◌>>=◌ : Action S E A → (A → Action S E B) → Action S E B
  ◌>>=◌ m f s = let (s', r) = m s in continue s' r f

  abbrev pub ◌>>◌ : Action S E A → Action S E B → Action S E B
  m >> n = m >>= λ _. n
