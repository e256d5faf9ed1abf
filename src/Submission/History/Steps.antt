-- ===== src/Submission/History/Steps.antt =====
-- What a later state of the rows says about one row.
use flyer_g_be.Base.{
  ℕ, ◌<◌, ◌==◌, ◌≡◌, ◌≢◌, refl, inl, inr, Bool-cases, some, List, [], ◌∷◌, All, count, arith,
  ==_iff,
}
use flyer_g_be.Submission.Data.{Submission}
use flyer_g_be.Submission.Store.{find_row, is_current}
use flyer_g_be.Submission.History.{Grows, Evolves}

-- `id` is the primary key.
abbrev pub IsKeyed : List Submission → Type 0
IsKeyed [] = Unit
IsKeyed (r ∷ rs) = All (λ s. s.id ≢ r.id) rs × IsKeyed rs

-- The row is still there, unchanged or with a higher version.
pub find_row-Evolves :
    (id : ℕ) (rs ss : List Submission) (r : Submission)
    → Evolves rs ss
    → find_row id rs ≡ some r
    → (s : Submission) × (find_row id ss ≡ some s) × Grows r s
unfolding find_row
find_row-Evolves id [] [] r h e = cc
find_row-Evolves id [] (s ∷ ss) r h e = absurd h
find_row-Evolves id (r' ∷ rs) [] r h e = absurd h
find_row-Evolves id (r' ∷ rs) (s ∷ ss) r (g, h) e = elim (Bool-cases (r'.id == id)) [
  | inl same ↦ (s, ground arith, ground arith)
  | inr other ↦
      let (s', f, k) = find_row-Evolves id rs ss r h (ground arith) in (s', ground arith, k)
]

All-ids-Evolves :
    {id id' : ℕ} (rs ss : List Submission)
    → id ≡ id'
    → Evolves rs ss
    → All (λ s. s.id ≢ id) rs
    → All (λ s. s.id ≢ id') ss
All-ids-Evolves [] [] e h k = tt
All-ids-Evolves [] (s ∷ ss) e h k = absurd h
All-ids-Evolves (r ∷ rs) [] e h k = absurd h
All-ids-Evolves (r ∷ rs) (s ∷ ss) e (g, h) (n, k) = (ground arith, All-ids-Evolves rs ss e h k)

pub IsKeyed-Evolves : (rs ss : List Submission) → Evolves rs ss → IsKeyed rs → IsKeyed ss
IsKeyed-Evolves [] [] h k = tt
IsKeyed-Evolves [] (s ∷ ss) h k = absurd h
IsKeyed-Evolves (r ∷ rs) [] h k = absurd h
IsKeyed-Evolves (r ∷ rs) (s ∷ ss) (g, h) (n, k) =
    (All-ids-Evolves rs ss g.id h n, IsKeyed-Evolves rs ss h k)

-- With the key, the row that the conditional write hits is the one that `findRow` gives.
pub count-eq-zero :
    {id : ℕ} (current : Submission) (rs : List Submission)
    → id ≡ current.id
    → All (λ s. s.id ≢ id) rs
    → count (is_current current) rs ≡ 0
count-eq-zero current [] e h = refl
count-eq-zero current (r ∷ rs) e (n, h) = ground (arith, count-eq-zero current rs e h)

pub version_of_count :
    (current : Submission) (rs : List Submission) (s : Submission)
    → IsKeyed rs
    → 0 < count (is_current current) rs
    → find_row current.id rs ≡ some s
    → s.version ≡ current.version
unfolding find_row
version_of_count current [] s k h e = cc
version_of_count current (r ∷ rs) s (n, k) h e = elim (Bool-cases (r.id == current.id)) [
  | inl same ↦ let none_left = count-eq-zero current rs ((==_iff _ _).0 same) n in ground arith
  | inr other ↦ version_of_count current rs s k (ground arith) (ground arith)
]

-- What the conditional write hits, `findRow` finds.
pub find_row_of_count :
    (current : Submission) (rs : List Submission)
    → 0 < count (is_current current) rs
    → (s : Submission) × (find_row current.id rs ≡ some s)
unfolding find_row
find_row_of_count current [] h = absurd (omega arith)
find_row_of_count current (r ∷ rs) h = elim (Bool-cases (r.id == current.id)) [
  | inl same ↦ (r, rw same)
  | inr other ↦ let (s, e) = find_row_of_count current rs (ground arith) in (s, ground arith)
]

pub version-ne_of_count :
    (current : Submission) (rs : List Submission) (s : Submission)
    → find_row current.id rs ≡ some s
    → count (is_current current) rs ≡ 0
    → s.version ≢ current.version
unfolding find_row
version-ne_of_count current [] s e h = cc
version-ne_of_count current (r ∷ rs) s e h = elim (Bool-cases (r.id == current.id)) [
  | inl same ↦ ground arith
  | inr other ↦ version-ne_of_count current rs s (ground arith) (ground arith)
]
