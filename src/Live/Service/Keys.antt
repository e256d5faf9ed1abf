-- ===== src/Live/Service/Keys.antt =====
-- The rows of the table of src/live/live.service.ts, by their keys.
use flyer_g_be.Base.{
  ℕ, ◌==◌, ◌≡◌, refl, inl, inr, true, false, ◌&&◌, Bool-cases, if◌then◌else◌, none, some, List, [],
  ◌∷◌, ◌++◌, map, any, arith,
}
use flyer_g_be.Live.Service.{
  LiveScope, same_scope, Layer, LiveState, is_of, layer_of, put_layer, put_state, remove_state,
}

-- One key of the table
module _ (scope : LiveScope) (id : ℕ) (layer : Layer) where
  put_layer-of :
      (s : LiveScope) (i : ℕ) (row : LiveState)
      → is_of s i (put_layer scope id layer row) ≡ is_of s i row
  put_layer-of s i row = ground arith

  map-same :
      (rows : List LiveState)
      → any (is_of scope id) rows ≡ true
      → layer_of scope id (map (put_layer scope id layer) rows) ≡ some layer
  unfolding layer_of
  map-same [] h = absurd (ground arith)
  map-same (row ∷ rows) h = elim (Bool-cases (is_of scope id row)) [
    | inl e ↦ rw (put_layer-of scope id row, e) refl
    | inr e ↦ rw (put_layer-of scope id row, e) (map-same rows (ground arith))
  ]

  kept-other :
      (s : LiveScope) (i : ℕ) (row : LiveState)
      → (same_scope s scope && (i == id)) ≡ false
      → is_of s i row ≡ true
      → put_layer scope id layer row ≡ row
  kept-other s i row other h = ground arith

  map-other :
      (s : LiveScope) (i : ℕ) (rows : List LiveState)
      → (same_scope s scope && (i == id)) ≡ false
      → layer_of s i (map (put_layer scope id layer) rows) ≡ layer_of s i rows
  unfolding layer_of
  map-other s i [] other = refl
  map-other s i (row ∷ rows) other = elim (Bool-cases (is_of s i row)) [
    | inl e ↦ rw (put_layer-of s i row, e, kept-other s i row other e) refl
    | inr e ↦ rw (put_layer-of s i row, e) (map-other s i rows other)
  ]

  append-same :
      (rows : List LiveState)
      → any (is_of scope id) rows ≡ false
      → layer_of scope id (rows ++ record { scope = scope; scope_id = id; layer = layer } ∷ [])
        ≡ some layer
  unfolding layer_of
  append-same [] h = ground arith
  append-same (row ∷ rows) h =
      let no : is_of scope id row ≡ false = ground arith in rw no (append-same rows (ground arith))

  append-other :
      (s : LiveScope) (i : ℕ) (rows : List LiveState)
      → (same_scope s scope && (i == id)) ≡ false
      → layer_of s i (rows ++ record { scope = scope; scope_id = id; layer = layer } ∷ [])
        ≡ layer_of s i rows
  unfolding layer_of
  append-other s i [] other = ground arith
  append-other s i (row ∷ rows) other = elim (Bool-cases (is_of s i row)) [
    | inl e ↦ rw e refl
    | inr e ↦ rw e (append-other s i rows other)
  ]

  pub layer_of-put_state :
      (s : LiveScope) (i : ℕ) (rows : List LiveState)
      → layer_of s i (put_state scope id layer rows)
        ≡ (if same_scope s scope && (i == id) then some layer else layer_of s i rows)
  layer_of-put_state s i rows = elim (Bool-cases (same_scope s scope && (i == id))) [
    | inl same ↦ rw same (at_key s i same)
    | inr other ↦ rw other (elim (Bool-cases (any (is_of scope id) rows)) [
      | inl e ↦ rw e (map-other s i rows other)
      | inr e ↦ rw e (append-other s i rows other)
    ])
  ]
    where
      at_own : layer_of scope id (put_state scope id layer rows) ≡ some layer
      at_own = elim (Bool-cases (any (is_of scope id) rows)) [
        | inl e ↦ rw e (map-same rows e)
        | inr e ↦ rw e (append-same rows e)
      ]

      at_key :
          (s : LiveScope) (i : ℕ)
          → (same_scope s scope && (i == id)) ≡ true
          → layer_of s i (put_state scope id layer rows) ≡ some layer
      at_key s i same =
          let one : s ≡ scope = ground arith in
          let two : i ≡ id = ground arith in rw (one, two) at_own

module _ (scope : LiveScope) (id : ℕ) where
  remove-same : (rows : List LiveState) → layer_of scope id (remove_state scope id rows) ≡ none
  unfolding layer_of
  remove-same [] = refl
  remove-same (row ∷ rows) = elim (Bool-cases (is_of scope id row)) [
    | inl e ↦ rw e (remove-same rows)
    | inr e ↦ rw (e, e) (remove-same rows)
  ]

  not-other :
      (s : LiveScope) (i : ℕ) (row : LiveState)
      → (same_scope s scope && (i == id)) ≡ false
      → is_of scope id row ≡ true
      → is_of s i row ≡ false
  not-other s i row other h = ground arith

  remove-other :
      (s : LiveScope) (i : ℕ) (rows : List LiveState)
      → (same_scope s scope && (i == id)) ≡ false
      → layer_of s i (remove_state scope id rows) ≡ layer_of s i rows
  unfolding layer_of
  remove-other s i [] other = refl
  remove-other s i (row ∷ rows) other = elim (Bool-cases (is_of scope id row)) [
    | inl e ↦ rw (e, not-other s i row other e) (remove-other s i rows other)
    | inr e ↦ elim (Bool-cases (is_of s i row)) [
      | inl k ↦ rw (e, k) refl
      | inr k ↦ rw (e, k) (remove-other s i rows other)
    ]
  ]

  pub layer_of-remove_state :
      (s : LiveScope) (i : ℕ) (rows : List LiveState)
      → layer_of s i (remove_state scope id rows)
        ≡ (if same_scope s scope && (i == id) then none else layer_of s i rows)
  layer_of-remove_state s i rows = elim (Bool-cases (same_scope s scope && (i == id))) [
    | inl same ↦
        let one : s ≡ scope = ground arith in
        let two : i ≡ id = ground arith in rw same (rw (one, two) (remove-same rows))
    | inr other ↦ rw other (remove-other s i rows other)
  ]
