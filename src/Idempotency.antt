-- ===== src/Idempotency.antt =====
-- src/common/idempotency/idempotency.service.ts: the table of the keys under which requests are
-- done once, and its statements. A scope, a key and a fingerprint are only compared, and stand as
-- numbers; the response bodies are any type. A time is milliseconds.
pub mod Statements
pub mod Exclusion
pub mod Waiting
mod Examples
use flyer_g_be.Base.{
  ℕ, ◌+◌, ◌*◌, ◌==◌, ltb, Bool, true, false, not, ◌&&◌, ◌||◌, if◌then◌else◌, Option, none, some,
  List, [], ◌∷◌, ◌++◌, find?, map, filter, count,
}

-- `idempotencyStatusEnum`
pub data KeyStatus : Type 0 where
  in_progress completed : KeyStatus

-- `idempotencyKeys`
pub record KeyRow (A : Type 0) : Type 0 where
  pub scope : ℕ
  pub key : ℕ
  pub fingerprint : ℕ
  pub status : KeyStatus
  pub response_body : Option A
  pub locked_until : ℕ
  pub expires_at : ℕ
  pub created_at : ℕ

-- `ClaimResult`
pub data ClaimResult (A : Type 0) : Type 0 where
  claimed : ClaimResult A
  completed : (body : Option A) → ClaimResult A
  in_progress : ClaimResult A
  mismatch : ClaimResult A

-- `LOCK_TTL` and `RETENTION`
abbrev pub lock_ttl : ℕ
lock_ttl = 30 * 1000

abbrev pub retention : ℕ
retention = 24 * 60 * 60 * 1000

abbrev pub is_in_progress : KeyStatus → Bool
is_in_progress KeyStatus.in_progress = true
is_in_progress _ = false

module _ {A : Type 0} where
  -- The primary key
  abbrev pub is_at : ℕ → ℕ → KeyRow A → Bool
  is_at scope key row = row.scope == scope && row.key == key

  unfoldable pub find_key : ℕ → ℕ → List (KeyRow A) → Option (KeyRow A)
  find_key scope key rows = find? (is_at scope key) rows

  -- The row that `claim` inserts, which is `excluded` of its update.
  abbrev pub claiming : (scope key fingerprint now : ℕ) → KeyRow A
  claiming scope key fingerprint now = record {
    scope = scope;
    key = key;
    fingerprint = fingerprint;
    status = KeyStatus.in_progress;
    response_body = none;
    locked_until = now + lock_ttl;
    expires_at = now + retention;
    created_at = now;
  }

  -- `setWhere`: the row is expired, or whoever handled the same request has died.
  unfoldable pub may_take_over : (fingerprint now : ℕ) → KeyRow A → Bool
  may_take_over fingerprint now row =
      ltb row.expires_at now
      || (is_in_progress row.status && ltb row.locked_until now && row.fingerprint == fingerprint)

  unfoldable pub replace : ℕ → ℕ → (KeyRow A → KeyRow A) → List (KeyRow A) → List (KeyRow A)
  replace scope key set rows = map (λ row. if is_at scope key row then set row else row) rows

  -- `insert … on conflict do update … where … returning`: the table, and whether a row came back.
  unfoldable pub try_claim :
      (scope key fingerprint now : ℕ) → List (KeyRow A) → List (KeyRow A) × Bool
  try_claim scope key fingerprint now rows = elim (find_key scope key rows) [
    | none ↦ (rows ++ claiming scope key fingerprint now ∷ [], true)
    | some row ↦
        if may_take_over fingerprint now row
        then (replace scope key (λ _. claiming scope key fingerprint now) rows, true)
        else (rows, false)
  ]

  -- What the query after it answers.
  unfoldable pub answer : (fingerprint : ℕ) → Option (KeyRow A) → ClaimResult A
  answer fingerprint none = in_progress
  answer fingerprint (some row) =
      if not (row.fingerprint == fingerprint)
      then mismatch
      else if is_in_progress row.status
      then in_progress
      else completed row.response_body

  -- `claim`, where nothing is written between its two statements
  unfoldable pub claim :
      (scope key fingerprint now : ℕ) → List (KeyRow A) → List (KeyRow A) × ClaimResult A
  claim scope key fingerprint now rows =
      let (rows', taken) = try_claim scope key fingerprint now rows in
      if taken then (rows', claimed) else (rows', answer fingerprint (find_key scope key rows'))

  -- `complete`, `release` and `deleteExpired`
  unfoldable pub complete : (scope key : ℕ) → Option A → List (KeyRow A) → List (KeyRow A)
  complete scope key body rows =
      replace scope key (λ row. record row { status = KeyStatus.completed; response_body = body })
        rows

  unfoldable pub release : (scope key : ℕ) → List (KeyRow A) → List (KeyRow A)
  release scope key rows =
      filter (λ row. not (is_at scope key row && is_in_progress row.status)) rows

  unfoldable pub delete_expired : (now : ℕ) → List (KeyRow A) → List (KeyRow A) × ℕ
  delete_expired now rows = (
    filter (λ row. not (ltb row.expires_at now)) rows,
    count (λ row. ltb row.expires_at now) rows,
  )
