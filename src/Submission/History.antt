-- ===== src/Submission/History.antt =====
-- How the rows of src/db/schema.ts's `submissions` change from one state to a later one: which
-- columns stay, and that the version counts the changes.
pub mod Steps
use flyer_g_be.Base.{
  ℕ, ◌<◌, ◌≡◌, refl, ◌⊎◌, inl, inr, Bool, true, false, Bool-cases, List, [], ◌∷◌, arith,
}
use flyer_g_be.Submission.Data.{Submission}
use flyer_g_be.Submission.Store.{find_row, update_rows}

-- A row and the same row later: who made it, when, and of which kind is fixed, and it is unchanged
-- or has a higher version.
pub record Grows (r s : Submission) : Type 0 where
  pub id : r.id ≡ s.id
  pub type : r.type ≡ s.type
  pub requester_id : r.requester_id ≡ s.requester_id
  pub created_at : r.created_at ≡ s.created_at
  pub versions : (r ≡ s) ⊎ (r.version < s.version)

Grows-refl : (r : Submission) → Grows r r
Grows-refl r = record {
  id = refl;
  type = refl;
  requester_id = refl;
  created_at = refl;
  versions = inl refl;
}

Grows-trans : (r s t : Submission) → Grows r s → Grows s t → Grows r t
Grows-trans r s t h k = ground arith

-- A table and the same table later.
abbrev pub Evolves : List Submission → List Submission → Type 0
Evolves [] [] = Unit
Evolves (r ∷ rs) (s ∷ ss) = Grows r s × Evolves rs ss
Evolves _ _ = ⊥

pub Evolves-refl : (rs : List Submission) → Evolves rs rs
Evolves-refl [] = tt
Evolves-refl (r ∷ rs) = (Grows-refl r, Evolves-refl rs)

pub Evolves-trans : (rs ss ts : List Submission) → Evolves rs ss → Evolves ss ts → Evolves rs ts
Evolves-trans [] [] [] h k = tt
Evolves-trans (r ∷ rs) (s ∷ ss) (t ∷ ts) (g, h) (g', k) =
    (Grows-trans r s t g g', Evolves-trans rs ss ts h k)
Evolves-trans [] [] (t ∷ ts) h k = absurd k
Evolves-trans [] (s ∷ ss) ts h k = absurd h
Evolves-trans (r ∷ rs) [] ts h k = absurd h
Evolves-trans (r ∷ rs) (s ∷ ss) [] h k = absurd k

-- A statement that grows each row it hits.
pub update_rows-Evolves :
    (hit : Submission → Bool) (set : Submission → Submission) (rows : List Submission)
    → ((r : Submission) → hit r ≡ true → Grows r (set r))
    → Evolves rows (update_rows hit set rows)
unfolding update_rows
update_rows-Evolves hit set [] grow = tt
update_rows-Evolves hit set (r ∷ rows) grow = elim (Bool-cases (hit r)) [
  | inl e ↦ rw e (grow r e, update_rows-Evolves hit set rows grow)
  | inr e ↦ rw e (Grows-refl r, update_rows-Evolves hit set rows grow)
]
