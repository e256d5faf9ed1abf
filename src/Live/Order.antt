-- ===== src/Live/Order.antt =====
-- The order in which src/live/resolve-live.ts looks through the layers of the groups.
use flyer_g_be.Base.{
  ℕ, ◌≤◌, ◌≡◌, refl, Bool, true, Bool-cases, leb, if◌then◌else◌, some, inl, inr, List, [], ◌∷◌,
  find?, any, subst, ◌⊎◌, All, arith,
}
use flyer_g_be.Live.{LiveLayer, insert, newest_first}

module _ {A B : Type 0} where
  pub IsOrdered : List (LiveLayer A B) → Type 0
  IsOrdered [] = Unit
  IsOrdered (x ∷ xs) = All (λ y. y.set_at ≤ x.set_at) xs × IsOrdered xs

  All-insert :
      (P : LiveLayer A B → Type 0) (x : LiveLayer A B) (xs : List (LiveLayer A B))
      → P x
      → All P xs
      → All P (insert x xs)
  unfolding insert
  All-insert P x [] p h = (p, tt)
  All-insert P x (y ∷ xs) p (q, h) = elim (Bool-cases (leb y.set_at x.set_at)) [
    | inl e ↦ rw e (p, (q, h))
    | inr e ↦ rw e (q, All-insert P x xs p h)
  ]

  All-le :
      (m n : ℕ) (xs : List (LiveLayer A B))
      → m ≤ n
      → All (λ y. y.set_at ≤ m) xs
      → All (λ y. y.set_at ≤ n) xs
  All-le m n [] l h = tt
  All-le m n (y ∷ xs) l (q, h) = (omega arith, All-le m n xs l h)

  insert-IsOrdered :
      (x : LiveLayer A B) (xs : List (LiveLayer A B)) → IsOrdered xs → IsOrdered (insert x xs)
  unfolding IsOrdered insert
  insert-IsOrdered x [] h = (tt, tt)
  insert-IsOrdered x (y ∷ xs) (h, o) = elim (Bool-cases (leb y.set_at x.set_at)) [
    | inl e ↦
        let l : y.set_at ≤ x.set_at = ground arith in
        rw e ((l, All-le y.set_at x.set_at xs l h), (h, o))
    | inr e ↦
        rw e (All-insert (λ z. z.set_at ≤ y.set_at) x xs (ground arith) h, insert-IsOrdered x xs o)
  ]

  pub newest_first-IsOrdered : (xs : List (LiveLayer A B)) → IsOrdered (newest_first xs)
  unfolding newest_first IsOrdered
  newest_first-IsOrdered [] = tt
  newest_first-IsOrdered (x ∷ xs) = insert-IsOrdered x (newest_first xs) (newest_first-IsOrdered xs)

  any-insert :
      (p : LiveLayer A B → Bool) (x : LiveLayer A B) (xs : List (LiveLayer A B))
      → any p (insert x xs) ≡ any p (x ∷ xs)
  unfolding insert
  any-insert p x [] = refl
  any-insert p x (y ∷ xs) = ground (arith, any-insert p x xs)

  pub any-newest_first :
      (p : LiveLayer A B → Bool) (xs : List (LiveLayer A B)) → any p (newest_first xs) ≡ any p xs
  unfolding newest_first
  any-newest_first p [] = refl
  any-newest_first p (x ∷ xs) =
      ground (arith, any-insert p x (newest_first xs), any-newest_first p xs)

  All-weaken :
      (p : LiveLayer A B → Bool) (n : ℕ) (xs : List (LiveLayer A B))
      → All (λ x. x.set_at ≤ n) xs
      → All (λ x. p x ≡ true → x.set_at ≤ n) xs
  All-weaken p n [] h = tt
  All-weaken p n (x ∷ xs) (q, h) = ((λ _. q), All-weaken p n xs h)

  pub find-newest :
      (p : LiveLayer A B → Bool) (xs : List (LiveLayer A B)) (g : LiveLayer A B)
      → IsOrdered xs
      → find? p xs ≡ some g
      → All (λ x. p x ≡ true → x.set_at ≤ g.set_at) xs
  unfolding IsOrdered
  find-newest p [] g o e = cc
  find-newest p (y ∷ xs) g (h, o) e = elim (Bool-cases (p y)) [
    | inl hit ↦
        let same : y ≡ g = ground arith in
        (
          (λ k. rw same (omega arith)),
          All-weaken p g.set_at xs (subst (λ z. All (λ x. x.set_at ≤ z.set_at) xs) same h),
        )
    | inr miss ↦ ((λ k. absurd (ground arith)), find-newest p xs g o (ground arith))
  ]

  abbrev pub IsAmong : LiveLayer A B → List (LiveLayer A B) → Type 0
  IsAmong g [] = ⊥
  IsAmong g (x ∷ xs) = (x ≡ g) ⊎ IsAmong g xs

  pub find-IsAmong :
      (p : LiveLayer A B → Bool) (xs : List (LiveLayer A B)) (g : LiveLayer A B)
      → find? p xs ≡ some g
      → IsAmong g xs
  find-IsAmong p [] g e = cc
  find-IsAmong p (x ∷ xs) g e = elim (Bool-cases (p x)) [
    | inl hit ↦ inl (ground arith)
    | inr miss ↦ inr (find-IsAmong p xs g (ground arith))
  ]

  insert-IsAmong :
      (g x : LiveLayer A B) (xs : List (LiveLayer A B))
      → IsAmong g (insert x xs)
      → IsAmong g (x ∷ xs)
  unfolding insert
  insert-IsAmong g x [] h = h
  insert-IsAmong g x (y ∷ xs) h = elim (Bool-cases (leb y.set_at x.set_at)) [
    | inl e ↦ subst (λ b. IsAmong g (if b then x ∷ y ∷ xs else y ∷ insert x xs)) e h
    | inr e ↦ elim (subst (λ b. IsAmong g (if b then x ∷ y ∷ xs else y ∷ insert x xs)) e h) [
      | inl is ↦ inr (inl is)
      | inr k ↦ elim (insert-IsAmong g x xs k) [ inl is ↦ inl is | inr later ↦ inr (inr later) ]
    ]
  ]

  pub newest_first-IsAmong :
      (g : LiveLayer A B) (xs : List (LiveLayer A B)) → IsAmong g (newest_first xs) → IsAmong g xs
  unfolding newest_first
  newest_first-IsAmong g [] h = h
  newest_first-IsAmong g (x ∷ xs) h = elim (insert-IsAmong g x (newest_first xs) h) [
    | inl is ↦ inl is
    | inr k ↦ inr (newest_first-IsAmong g xs k)
  ]

  All-of_insert :
      (P : LiveLayer A B → Type 0) (x : LiveLayer A B) (xs : List (LiveLayer A B))
      → All P (insert x xs)
      → All P (x ∷ xs)
  unfolding insert
  All-of_insert P x [] h = h
  All-of_insert P x (y ∷ xs) h = elim (Bool-cases (leb y.set_at x.set_at)) [
    | inl e ↦ subst (λ b. All P (if b then x ∷ y ∷ xs else y ∷ insert x xs)) e h
    | inr e ↦
        let (q, k) = subst (λ b. All P (if b then x ∷ y ∷ xs else y ∷ insert x xs)) e h in
        let (p, rest) = All-of_insert P x xs k in (p, (q, rest))
  ]

  pub All-of_newest_first :
      (P : LiveLayer A B → Type 0) (xs : List (LiveLayer A B)) → All P (newest_first xs) → All P xs
  unfolding newest_first
  All-of_newest_first P [] h = h
  All-of_newest_first P (x ∷ xs) h =
      let (p, rest) = All-of_insert P x (newest_first xs) h in (p, All-of_newest_first P xs rest)
