-- ===== src/Idempotency/Statements.antt =====
-- src/common/idempotency/idempotency.service.ts: the statements on the table as values, and how each
-- of them leaves the row under a key.
use flyer_g_be.Base.{
  ℕ, ◌≤◌, ◌==◌, ◌≡◌, ◌≢◌, ◌⊎◌, ap, subst, ◌∙◌, All, inl, inr, refl, Bool, true, false, Bool-cases,
  ◌&&◌, if◌then◌else◌, Option, none, some, Option-cases, List, [], ◌∷◌, ◌++◌, filter, arith,
}
use flyer_g_be.Idempotency.{
  KeyRow, claimed, is_in_progress, is_at, find_key, claiming, may_take_over, replace, try_claim,
  answer, claim, complete, release, delete_expired,
}

-- The statements that requests and the cleanup run on the table.
pub data Statement (A : Type 0) : Type 0 where
  claim_of : (scope key fingerprint now : ℕ) → Statement A
  complete_of : (scope key : ℕ) → Option A → Statement A
  release_of : (scope key : ℕ) → Statement A
  cleanup : (now : ℕ) → Statement A

-- Two keys are the same, or differ in one of their parts.
keys-cases : (s k scope key : ℕ) → ((scope ≢ s) ⊎ (key ≢ k)) ⊎ ((s ≡ scope) × (k ≡ key))
keys-cases s k scope key = elim (Bool-cases (scope == s && key == k)) [
  | inl same ↦ inr (ground arith, ground arith)
  | inr other ↦
      inl
        (elim (Bool-cases (scope == s)) [ inl e ↦ inr (ground arith) | inr e ↦ inl (ground arith) ])
]

module _ {A : Type 0} where
  unfoldable pub run : Statement A → List (KeyRow A) → List (KeyRow A)
  run (claim_of scope key fingerprint now) rows = (claim scope key fingerprint now rows).0
  run (complete_of scope key body) rows = complete scope key body rows
  run (release_of scope key) rows = release scope key rows
  run (cleanup now) rows = (delete_expired now rows).0

  -- From the newest statement to the oldest.
  abbrev pub run_all : List (Statement A) → List (KeyRow A) → List (KeyRow A)
  run_all [] rows = rows
  run_all (s ∷ ss) rows = run s (run_all ss rows)

  -- How each statement leaves the row under a key.
  find-append :
      (scope key : ℕ) (rows : List (KeyRow A)) (row : KeyRow A)
      → find_key scope key (rows ++ row ∷ []) ≡ elim (find_key scope key rows) [
        | none ↦ if is_at scope key row then some row else none
        | some r ↦ some r
      ]
  unfolding find_key
  find-append scope key [] row = refl
  find-append scope key (r ∷ rows) row = ground (arith, find-append scope key rows row)

  -- The row under the key that a statement changes, and under another key.
  pub find-replace :
      (s k : ℕ) (set : KeyRow A → KeyRow A) (rows : List (KeyRow A)) (row : KeyRow A)
      → is_at s k (set row) ≡ true
      → find_key s k rows ≡ some row
      → find_key s k (replace s k set rows) ≡ some (set row)
  unfolding find_key replace
  find-replace s k set [] row same e = cc
  find-replace s k set (r ∷ rows) row same e = elim (Bool-cases (is_at s k r)) [
    | inl hit ↦ ground arith
    | inr miss ↦ ground (arith, find-replace s k set rows row same)
  ]

  is_at_other :
      (s k scope key : ℕ) (r : KeyRow A)
      → (scope ≢ s) ⊎ (key ≢ k)
      → is_at scope key r ≡ true
      → is_at s k r ≡ false
  is_at_other s k scope key r n h = ground arith

  find-replace-other :
      (s k scope key : ℕ) (set : KeyRow A → KeyRow A) (rows : List (KeyRow A))
      → (scope ≢ s) ⊎ (key ≢ k)
      → ((r : KeyRow A) → is_at scope key r ≡ true → is_at scope key (set r) ≡ true)
      → find_key s k (replace scope key set rows) ≡ find_key s k rows
  unfolding find_key replace
  find-replace-other s k scope key set [] n same = refl
  find-replace-other s k scope key set (r ∷ rows) n same =
      let rest = find-replace-other s k scope key set rows n same in
      elim (Bool-cases (is_at scope key r)) [
        | inl hit ↦
            rw
              (
                hit,
                is_at_other s k scope key r n hit,
                is_at_other s k scope key (set r) n (same r hit),
              )
              rest
        | inr miss ↦ rw miss (ap (λ o. if is_at s k r then some r else o) rest)
      ]

  find-filter :
      (s k : ℕ) (keep : KeyRow A → Bool) (rows : List (KeyRow A)) (row : KeyRow A)
      → keep row ≡ true
      → find_key s k rows ≡ some row
      → find_key s k (filter keep rows) ≡ some row
  unfolding find_key
  find-filter s k keep [] row h e = cc
  find-filter s k keep (r ∷ rows) row h e = ground (arith, find-filter s k keep rows row h)

  pub find_key-is_at :
      (s k : ℕ) (rows : List (KeyRow A)) (row : KeyRow A)
      → find_key s k rows ≡ some row
      → is_at s k row ≡ true
  unfolding find_key
  find_key-is_at s k [] row e = cc
  find_key-is_at s k (r ∷ rows) row e = ground (arith, find_key-is_at s k rows row)

  -- A statement that does not touch the row under a key: it is about another key, or a claim before
  -- the row expires and, while the row is in progress, before its lock does; or a cleanup before it
  -- expires, or a release once it is completed.
  abbrev pub IsQuiet : ℕ → ℕ → KeyRow A → Statement A → Type 0
  IsQuiet s k row (claim_of scope key fingerprint now) =
      ((scope ≢ s) ⊎ (key ≢ k))
      ⊎ ((now ≤ row.expires_at) × ((is_in_progress row.status ≡ false) ⊎ (now ≤ row.locked_until)))
  IsQuiet s k row (complete_of scope key body) = (scope ≢ s) ⊎ (key ≢ k)
  IsQuiet s k row (release_of scope key) =
      ((scope ≢ s) ⊎ (key ≢ k)) ⊎ (is_in_progress row.status ≡ false)
  IsQuiet s k row (cleanup now) = now ≤ row.expires_at

  pub not_taken_over :
      (fingerprint now : ℕ) (row : KeyRow A)
      → now ≤ row.expires_at
      → (is_in_progress row.status ≡ false) ⊎ (now ≤ row.locked_until)
      → may_take_over fingerprint now row ≡ false
  unfolding may_take_over
  not_taken_over fingerprint now row h k = ground arith

  pub claim-kept :
      (s k fingerprint now : ℕ) (rows : List (KeyRow A)) (row : KeyRow A)
      → find_key s k rows ≡ some row
      → may_take_over fingerprint now row ≡ false
      → claim s k fingerprint now rows ≡ (rows, answer fingerprint (some row))
  unfolding claim try_claim
  claim-kept s k fingerprint now rows row e h = ground arith

  claim-other :
      (s k scope key fingerprint now : ℕ) (rows : List (KeyRow A)) (row : KeyRow A)
      → (scope ≢ s) ⊎ (key ≢ k)
      → find_key s k rows ≡ some row
      → find_key s k (claim scope key fingerprint now rows).0 ≡ some row
  unfolding claim try_claim
  claim-other s k scope key fingerprint now rows row n e =
      elim (Option-cases (find_key scope key rows)) [
        | inl none_there ↦ ground (arith, find-append s k rows (claiming scope key fingerprint now))
        | inr (r, there) ↦ elim (Bool-cases (may_take_over fingerprint now r)) [
          | inl over ↦ ground (
            arith,
            find-replace-other s k scope key (λ _. claiming scope key fingerprint now) rows n
                (λ _ _. ground arith),
          )
          | inr kept ↦ ground arith
        ]
      ]

  claim_same-kept :
      (s k scope key fingerprint now : ℕ) (rows : List (KeyRow A)) (row : KeyRow A)
      → s ≡ scope
      → k ≡ key
      → find_key s k rows ≡ some row
      → may_take_over fingerprint now row ≡ false
      → (claim scope key fingerprint now rows).0 ≡ rows
  claim_same-kept s k scope key fingerprint now rows row p q e h =
      let e' : find_key scope key rows ≡ some row =
        subst (λ x. find_key x key rows ≡ some row) p
          (subst (λ y. find_key s y rows ≡ some row) q e) in
      rw (claim-kept scope key fingerprint now rows row e' h) refl

  run-quiet :
      (s k : ℕ) (st : Statement A) (rows : List (KeyRow A)) (row : KeyRow A)
      → IsQuiet s k row st
      → find_key s k rows ≡ some row
      → find_key s k (run st rows) ≡ some row
  unfolding run complete release delete_expired
  run-quiet s k (claim_of scope key fingerprint now) rows row (inl n) e =
      claim-other s k scope key fingerprint now rows row n e
  run-quiet s k (claim_of scope key fingerprint now) rows row (inr (h, l)) e =
      elim (keys-cases s k scope key) [
        | inl n ↦ claim-other s k scope key fingerprint now rows row n e
        | inr (p, q) ↦
            rw
              (claim_same-kept s k scope key fingerprint now rows row p q e
                (not_taken_over fingerprint now row h l))
              e
      ]
  run-quiet s k (complete_of scope key body) rows row n e =
      find-replace-other s k scope key _ rows n (λ _ h. h) ∙ e
  run-quiet s k (release_of scope key) rows row h e =
      find-filter s k _ rows row (ground (arith, find_key-is_at s k rows row e)) e
  run-quiet s k (cleanup now) rows row h e = find-filter s k _ rows row (ground arith) e

  pub run_all-quiet :
      (s k : ℕ) (sts : List (Statement A)) (rows : List (KeyRow A)) (row : KeyRow A)
      → All (IsQuiet s k row) sts
      → find_key s k rows ≡ some row
      → find_key s k (run_all sts rows) ≡ some row
  run_all-quiet s k [] rows row h e = e
  run_all-quiet s k (st ∷ sts) rows row (q, h) e =
      run-quiet s k st (run_all sts rows) row q (run_all-quiet s k sts rows row h e)

  -- A claim that is granted leaves a row in progress.
  pub claimed-row :
      (s k fingerprint now : ℕ) (rows after : List (KeyRow A))
      → claim s k fingerprint now rows ≡ (after, claimed)
      → find_key s k after ≡ some (claiming s k fingerprint now)
  unfolding claim try_claim answer
  claimed-row s k fingerprint now rows after h = elim (Option-cases (find_key s k rows)) [
    | inl free ↦ ground (arith, find-append s k rows (claiming s k fingerprint now))
    | inr (r, there) ↦
        ground
          (arith, find-replace s k (λ _. claiming s k fingerprint now) rows r (ground arith) there)
  ]
