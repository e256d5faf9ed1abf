-- ===== src/Failure/Effects.antt =====
-- Code that reads and writes a state and may throw. A throw leaves what was written, until a
-- transaction rolls it back (`db.transaction` of drizzle).
use flyer_g_be.Base.{Bool, true, false}

pub data Result {ℓ κ} (E : Type ℓ) (A : Type κ) : Type (ℓ ⊔ κ) where
  ok : A → Result E A
  throw : E → Result E A

abbrev pub Action : Type 0 → Type 0 → Type 0 → Type 0
Action S E A = S → Result E A × S

module _ {S E : Type 0} where
  abbrev pub get : Action S E S
  get s = (ok s, s)

  abbrev pub modify : (S → S) → Action S E Unit
  modify f s = (ok tt, f s)

  -- `throw` under a test: an early exit
  abbrev pub throw_if : Bool → E → Action S E Unit
  throw_if true e s = (throw e, s)
  throw_if false e s = (ok tt, s)

module _ {S E A : Type 0} where
  abbrev pub pure : A → Action S E A
  pure a s = (ok a, s)

  abbrev pub raise : E → Action S E A
  raise e s = (throw e, s)

  -- What a transaction leaves: the new state, or the old one if its body threw.
  abbrev pub settle : S → Result E A × S → Result E A × S
  settle before (ok a, after) = (ok a, after)
  settle before (throw e, after) = (throw e, before)

  abbrev pub transaction : Action S E A → Action S E A
  transaction body s = settle s (body s)

module _ {S E A B : Type 0} where
  abbrev pub continue : Result E A × S → (A → Action S E B) → Result E B × S
  continue (ok a, s) f = f a s
  continue (throw e, s) f = (throw e, s)

  infixl 5 ◌>>=◌
  abbrev pub ◌>>=◌ : Action S E A → (A → Action S E B) → Action S E B
  ◌>>=◌ m f s = continue (m s) f

module _ {S E B : Type 0} where
  infixl 5 ◌>>◌
  abbrev pub ◌>>◌ : Action S E Unit → Action S E B → Action S E B
  ◌>>◌ m k s = continue (m s) (λ _. k)
