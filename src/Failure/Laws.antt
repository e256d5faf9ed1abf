-- ===== src/Failure/Laws.antt =====
-- What a transaction and a chain of actions leave, read backwards from a result.
use flyer_g_be.Base.{◌≡◌, ◌⊎◌, inl, inr, refl, ap}
use flyer_g_be.Failure.{Result, ok, throw, Action, settle, transaction}

module _ {S E A : Type 0} where
  -- A transaction is rolled back, or its body came through.
  pub transaction-cases :
      (body : Action S E A) (s : S)
      → ((transaction body s).1 ≡ s)
        ⊎ ((a : A) × (after : S) × (body s ≡ (ok a, after)) × (transaction body s ≡ (ok a, after)))
  transaction-cases body s = by_outcome (body s) refl
    where
      by_outcome :
          (r : Result E A × S)
          → body s ≡ r
          → ((transaction body s).1 ≡ s)
            ⊎ ((a : A) × (after : S) × (body s ≡ (ok a, after))
                × (transaction body s ≡ (ok a, after)))
      by_outcome (ok a, after) e = inr (a, after, e, ap (settle s) e)
      by_outcome (throw x, after) e = inl (ap (λ r. (settle s r).1) e)
