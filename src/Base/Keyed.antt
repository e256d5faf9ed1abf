-- ===== src/Base/Keyed.antt =====
-- Rows of a table with an id, which no two of them share.
use Prim.Native.Nat.{ℕ}
use mathlib.Core.Path.{◌≡◌, refl, sym, ap, ◌∙◌, subst}
use mathlib.Core.Logic.{◌≢◌, ◌⊎◌, inl, inr}
use mathlib.Core.Bool.{Bool, true}
use mathlib.Core.Option.{none, some}
use mathlib.Core.List.{List, [], ◌∷◌, ◌++◌, map}
use native.Mathlib.Omega.{arith}
use flyer_g_be.Base.Tests.{if◌then◌else◌, ◌==◌, Bool-cases}
use flyer_g_be.Base.Lists.{All, find?, filter}

module _ {A : Type 0} where
  -- A row that is among the rows
  abbrev pub In : A → List A → Type 0
  In row [] = ⊥
  In row (r ∷ rows) = (r ≡ row) ⊎ In row rows

  pub All-In : (P : A → Type 0) (row : A) (rows : List A) → All P rows → In row rows → P row
  All-In P row [] h i = absurd i
  All-In P row (r ∷ rows) (h, hs) (inl e) = subst P e h
  All-In P row (r ∷ rows) (h, hs) (inr i) = All-In P row rows hs i

  pub In-map :
      (set : A → A) (row : A) (rows : List A) → In row rows → set row ≡ row → In row (map set rows)
  In-map set row [] i h = i
  In-map set row (r ∷ rows) (inl e) h = inl (ap set e ∙ h)
  In-map set row (r ∷ rows) (inr i) h = inr (In-map set row rows i h)

  pub In-append : (more : List A) (row : A) (rows : List A) → In row rows → In row (rows ++ more)
  In-append more row [] i = absurd i
  In-append more row (r ∷ rows) (inl e) = inl e
  In-append more row (r ∷ rows) (inr i) = inr (In-append more row rows i)

  pub In-filter :
      (p : A → Bool) (row : A) (rows : List A)
      → In row (filter p rows)
      → In row rows × (p row ≡ true)
  In-filter p row [] i = absurd i
  In-filter p row (r ∷ rows) i = elim (Bool-cases (p r)) [
    | inl e ↦ elim (subst (λ b. In row (if b then r ∷ filter p rows else filter p rows)) e i) [
      | inl same ↦ (inl same, ap p (sym same) ∙ e)
      | inr j ↦ let (k, h) = In-filter p row rows j in (inr k, h)
    ]
    | inr e ↦
        let j = subst (λ b. In row (if b then r ∷ filter p rows else filter p rows)) e i in
        let (k, h) = In-filter p row rows j in (inr k, h)
  ]

  pub All-map :
      (P Q : A → Type 0) (set : A → A) (rows : List A)
      → ((row : A) → P row → Q (set row))
      → All P rows
      → All Q (map set rows)
  All-map P Q set [] keep h = tt
  All-map P Q set (r ∷ rows) keep (h, hs) = (keep r h, All-map P Q set rows keep hs)

  pub All-append :
      (P : A → Type 0) (rows : List A) (row : A) → All P rows → P row → All P (rows ++ row ∷ [])
  All-append P [] row h new = (new, tt)
  All-append P (r ∷ rows) row (h, hs) new = (h, All-append P rows row hs new)

  pub All-weaken :
      (P Q : A → Type 0) (rows : List A) → ((row : A) → P row → Q row) → All P rows → All Q rows
  All-weaken P Q [] weaken h = tt
  All-weaken P Q (row ∷ rows) weaken (h, hs) = (weaken row h, All-weaken P Q rows weaken hs)

  pub All-filter :
      (P : A → Type 0) (keep : A → Bool) (rows : List A) → All P rows → All P (filter keep rows)
  All-filter P keep [] h = tt
  All-filter P keep (row ∷ rows) (h, hs) = elim (Bool-cases (keep row)) [
    | inl e ↦ rw e (h, All-filter P keep rows hs)
    | inr e ↦ rw e (All-filter P keep rows hs)
  ]

  pub All-both :
      (P Q R : A → Type 0) (rows : List A)
      → ((row : A) → P row → Q row → R row)
      → All P rows
      → All Q rows
      → All R rows
  All-both P Q R [] both h i = tt
  All-both P Q R (r ∷ rows) both (h, hs) (i, is) = (both r h i, All-both P Q R rows both hs is)

  -- Rows that are given are in `find?`'s result.
  pub find?-In :
      (p : A → Bool) (rows : List A) (row : A)
      → find? p rows ≡ some row
      → In row rows × (p row ≡ true)
  find?-In p [] row e = absurd (ground arith)
  find?-In p (r ∷ rows) row e = elim (Bool-cases (p r)) [
    | inl h ↦ (inl (ground arith), ground arith)
    | inr h ↦ let (i, k) = find?-In p rows row (ground arith) in (inr i, k)
  ]

module _ {A : Type 0} (id : A → ℕ) where
  -- No two rows have the same id.
  abbrev pub Distinct : List A → Type 0
  Distinct [] = Unit
  Distinct (row ∷ rows) = All (λ r. id r ≢ id row) rows × Distinct rows

  -- The rows with the id of a row are this row.
  abbrev pub Apart : A → A → Type 0
  Apart row r = id r ≡ id row → r ≡ row

  All-Apart : (row : A) (rows : List A) → All (λ r. id r ≢ id row) rows → All (Apart row) rows
  All-Apart row [] h = tt
  All-Apart row (r ∷ rows) (h, hs) = (λ e. absurd (h e), All-Apart row rows hs)

  pub In-Apart : (row : A) (rows : List A) → In row rows → Distinct rows → All (Apart row) rows
  In-Apart row [] i h = tt
  In-Apart row (r ∷ rows) (inl e) (h, hs) =
      (λ _. e, All-Apart row rows (subst (λ x. All (λ s. id s ≢ id x) rows) e h))
  In-Apart row (r ∷ rows) (inr i) (h, hs) =
      (λ e. absurd (All-In (λ s. id s ≢ id r) row rows h i (sym e)), In-Apart row rows i hs)

  pub Distinct-map :
      (set : A → A) (rows : List A)
      → ((row : A) → id (set row) ≡ id row)
      → Distinct rows
      → Distinct (map set rows)
  Distinct-map set [] keep h = tt
  Distinct-map set (r ∷ rows) keep (h, hs) = (
    All-map (λ s. id s ≢ id r) (λ s. id s ≢ id (set r)) set rows
        (λ s apart e. apart (sym (keep s) ∙ e ∙ keep r)) h,
    Distinct-map set rows keep hs,
  )

  pub Distinct-append :
      (rows : List A) (row : A)
      → Distinct rows
      → All (λ r. id r ≢ id row) rows
      → Distinct (rows ++ row ∷ [])
  Distinct-append [] row h apart = (tt, tt)
  Distinct-append (r ∷ rows) row (h, hs) (apart, aparts) = (
    All-append (λ s. id s ≢ id r) rows row h (λ e. apart (sym e)),
    Distinct-append rows row hs aparts,
  )

  -- Looking for the id of a row that is there finds the row.
  pub find?-Apart :
      (row : A) (rows : List A)
      → In row rows
      → All (Apart row) rows
      → find? (λ r. id r == id row) rows ≡ some row
  find?-Apart row [] i h = absurd i
  find?-Apart row (r ∷ rows) i (h, hs) = elim (Bool-cases (id r == id row)) [
    | inl e ↦ let same = h (ground arith) in ground arith
    | inr e ↦ elim i [
      | inl same ↦ absurd (ground (arith, ap id same))
      | inr j ↦ ground (arith, find?-Apart row rows j hs)
    ]
  ]

  pub find?-map :
      (set : A → A) (key : ℕ) (rows : List A)
      → ((row : A) → id (set row) ≡ id row)
      → find? (λ r. id r == key) (map set rows)
        ≡ elim (find? (λ r. id r == key) rows) [ none ↦ none | some row ↦ some (set row) ]
  find?-map set key [] keep = refl
  find?-map set key (r ∷ rows) keep = ground (arith, keep r, find?-map set key rows keep)
