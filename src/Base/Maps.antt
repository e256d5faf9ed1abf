-- ===== src/Base/Maps.antt =====
-- The source's `Map` with keys that are only compared: its entries in the order of insertion. `set`
-- on a key that is there keeps the entry's place.
use Prim.Native.Nat.{ℕ, ◌+◌, ◌≤◌}
use mathlib.Core.Path.{◌≡◌, refl, subst}
use mathlib.Core.Logic.{inl, inr}
use mathlib.Core.Bool.{Bool, true, false}
use mathlib.Core.Option.{Option, none, some}
use mathlib.Core.List.{List, [], ◌∷◌}
use native.Mathlib.Omega.{arith}
use flyer_g_be.Base.Tests.{if◌then◌else◌, ◌==◌, Bool-cases}
use flyer_g_be.Base.Lists.{length, All}

abbrev pub Map {ℓ} : Type ℓ → Type ℓ
Map A = List (ℕ × A)

module _ {ℓ} {A : Type ℓ} where
  unfoldable pub get : ℕ → Map A → Option A
  get k [] = none
  get k ((j, a) ∷ m) = if j == k then some a else get k m

  unfoldable pub put : ℕ → A → Map A → Map A
  put k a [] = (k, a) ∷ []
  put k a ((j, b) ∷ m) = if j == k then (k, a) ∷ m else (j, b) ∷ put k a m

  unfoldable pub delete : ℕ → Map A → Map A
  delete k [] = []
  delete k ((j, b) ∷ m) = let rest = delete k m in if j == k then rest else (j, b) ∷ rest

  pub get-put :
      (k j : ℕ) (a : A) (m : Map A) → get j (put k a m) ≡ (if k == j then some a else get j m)
  unfolding get put
  get-put k j a [] = refl
  get-put k j a ((i, b) ∷ m) = ground (arith, get-put k j a m)

  pub get-delete : (k j : ℕ) (m : Map A) → get j (delete k m) ≡ (if k == j then none else get j m)
  unfolding get delete
  get-delete k j [] = ground arith
  get-delete k j ((i, b) ∷ m) = ground (arith, get-delete k j m)

  pub delete-put : (k : ℕ) (a : A) (m : Map A) → delete k (put k a m) ≡ delete k m
  unfolding put delete
  delete-put k a [] = ground arith
  delete-put k a ((j, b) ∷ m) = ground (arith, delete-put k a m)

  pub put-put : (k : ℕ) (a b : A) (m : Map A) → put k b (put k a m) ≡ put k b m
  unfolding put
  put-put k a b [] = ground arith
  put-put k a b ((j, c) ∷ m) = ground (arith, put-put k a b m)

  pub length-put-pos : (k : ℕ) (a : A) (m : Map A) → 1 ≤ length (put k a m)
  unfolding put
  length-put-pos k a [] = omega arith
  length-put-pos k a ((j, b) ∷ m) = ground arith

  pub length-put-le : (k : ℕ) (a : A) (m : Map A) → length (put k a m) ≤ length m + 1
  unfolding put
  length-put-le k a [] = omega arith
  length-put-le k a ((j, b) ∷ m) = ground (arith, length-put-le k a m)

  pub length-delete-le : (k : ℕ) (m : Map A) → length (delete k m) ≤ length m
  unfolding delete
  length-delete-le k [] = omega arith
  length-delete-le k ((j, b) ∷ m) = ground (arith, length-delete-le k m)

-- What holds of each value.
module _ {ℓ κ} {A : Type ℓ} (P : A → Type κ) where
  abbrev pub Values : Map A → Type κ
  Values m = All (λ e. P e.1) m

  Values-if : (b : Bool) (m n : Map A) → Values m → Values n → Values (if b then m else n)
  Values-if true m n p q = p
  Values-if false m n p q = q

  pub Values-get : (k : ℕ) (m : Map A) (a : A) → Values m → get k m ≡ some a → P a
  unfolding get
  Values-get k [] a h e = cc
  Values-get k ((j, b) ∷ m) a (q, h) e = elim (Bool-cases (j == k)) [
    | inl same ↦ let is : b ≡ a = ground arith in subst P is q
    | inr other ↦ Values-get k m a h (ground arith)
  ]

  pub Values-put : (k : ℕ) (a : A) (m : Map A) → P a → Values m → Values (put k a m)
  unfolding put
  Values-put k a [] p h = (p, tt)
  Values-put k a ((j, b) ∷ m) p (q, h) =
      Values-if (j == k) ((k, a) ∷ m) ((j, b) ∷ put k a m) (p, h) (q, Values-put k a m p h)

  pub Values-delete : (k : ℕ) (m : Map A) → Values m → Values (delete k m)
  unfolding delete
  Values-delete k [] h = tt
  Values-delete k ((j, b) ∷ m) (q, h) =
      let rest = Values-delete k m h in
      Values-if (j == k) (delete k m) ((j, b) ∷ delete k m) rest (q, rest)
