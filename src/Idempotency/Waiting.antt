-- ===== src/Idempotency/Waiting.antt =====
-- src/common/idempotency/idempotency.interceptor.ts: `handle` and `execute`. What the claims of a
-- request find, one after another, and what the clock shows after each, are functions of the number
-- of the claim; the test of the header's form is a flag.
use flyer_g_be.Base.{
  ℕ, zero, suc, ◌+◌, ◌*◌, ◌≤◌, ◌<◌, ◌≡◌, refl, leb, Bool, true, false, Bool-cases, Option-cases,
  inl, inr, subst, not, ◌&&◌, if◌then◌else◌, Option, none, some, List, [], ◌∷◌, filter, find?,
  count, arith,
}
use flyer_g_be.Failure.{
  AppException, exception, invalid_request, idempotency_key_reused, conflict, Result, ok, throw,
}
use flyer_g_be.Idempotency.{
  KeyRow, ClaimResult, claimed, mismatch, is_in_progress, is_at, find_key, try_claim, claim,
  complete, release,
}

-- `waitTimeoutMs` and `pollIntervalMs`
abbrev pub wait_timeout_ms : ℕ
wait_timeout_ms = 10000

abbrev pub poll_interval_ms : ℕ
poll_interval_ms = 100

-- 100 times the interval is the timeout, so that 101 claims are enough.
abbrev pub enough : ℕ
enough = 101

-- What a request comes to: it is executed, it gets the stored answer, or it is refused.
pub data Outcome (A : Type 0) : Type 0 where
  executed : Outcome A
  replayed : Option A → Outcome A
  refused : AppException → Outcome A

module _ {A : Type 0} where
  -- The outcome of a claim's result, where the loop ends with it.
  unfoldable pub outcome_of : ClaimResult A → Option (Outcome A)
  outcome_of claimed = some executed
  outcome_of (ClaimResult.completed body) = some (replayed body)
  outcome_of mismatch = some (refused (exception 422 idempotency_key_reused))
  outcome_of ClaimResult.in_progress = none

  -- The loop of `handle`, on fuel: `none` is that the fuel ran out.
  unfoldable pub poll : ℕ → (ℕ → ClaimResult A) → (ℕ → ℕ) → (deadline i : ℕ) → Option (Outcome A)
  poll zero result clock deadline i = none
  poll (suc fuel) result clock deadline i = elim (outcome_of (result i)) [
    | some outcome ↦ some outcome
    | none ↦ elim (leb deadline (clock i)) [
      | true ↦ some (refused (exception 409 conflict))
      | false ↦ poll fuel result clock deadline (suc i)
    ]
  ]

  -- `handle`
  unfoldable pub handle :
      (well_formed : Bool) → (ℕ → ClaimResult A) → (ℕ → ℕ) → (start : ℕ) → Option (Outcome A)
  handle well_formed result clock start =
      if well_formed
      then poll enough result clock (start + wait_timeout_ms) 0
      else some (refused (exception 400 invalid_request))

-- `execute`, given what the handler does. `stored`: the store could be written after it.
unfoldable pub execute :
    {E A : Type 0}
    → (scope key : ℕ) → Result E (Option A)
    → (stored : Bool) → List (KeyRow A)
    → Result E (Option A) × List (KeyRow A)
execute scope key (ok body) stored rows =
    (ok body, if stored then complete scope key body rows else rows)
execute scope key (throw e) stored rows = (throw e, if stored then release scope key rows else rows)

module _ {A : Type 0} (result : ℕ → ClaimResult A) (clock : ℕ → ℕ) where
  -- Between two claims the request sleeps for the interval.
  abbrev pub Sleeps : Type 0
  Sleeps = (i : ℕ) → clock i + poll_interval_ms ≤ clock (suc i)

  poll_ends :
      (fuel deadline i : ℕ)
      → Sleeps
      → deadline ≤ clock i + poll_interval_ms * fuel
      → (o : Outcome A) × (poll (suc fuel) result clock deadline i ≡ some o)
  unfolding poll
  poll_ends zero deadline i sleeps k = elim (Option-cases (outcome_of (result i))) [
    | inr (o, e) ↦ (o, ground arith)
    | inl e ↦ (refused (exception 409 conflict), ground arith)
  ]
  poll_ends (suc fuel) deadline i sleeps k =
      let (last, rest) = poll_ends fuel deadline (suc i) sleeps (omega (arith, sleeps i)) in
      elim (Option-cases (outcome_of (result i))) [
        | inr (o, e) ↦ (o, ground arith)
        | inl e ↦ elim (Bool-cases (leb deadline (clock i))) [
          | inl late ↦ (refused (exception 409 conflict), ground arith)
          | inr early ↦ (last, ground arith)
        ]
      ]

  -- A request with an idempotency key comes to an outcome after at most 101 claims, if the clock
  -- shows at least the start after the first of them and at least 100 ms more after each further
  -- one.
  pub handle_ends :
      (well_formed : Bool) (start : ℕ)
      → Sleeps
      → start ≤ clock 0
      → (o : Outcome A) × (handle well_formed result clock start ≡ some o)
  unfolding handle
  handle_ends false start sleeps h = (refused (exception 400 invalid_request), refl)
  handle_ends true start sleeps h = poll_ends 100 (start + wait_timeout_ms) 0 sleeps (omega arith)

  clock-le : (i : ℕ) → Sleeps → clock 0 + poll_interval_ms * i ≤ clock i
  clock-le zero sleeps = omega arith
  clock-le (suc i) sleeps = omega (arith, clock-le i sleeps, sleeps i)

  poll_first :
      (n fuel deadline i : ℕ) (o : Outcome A)
      → ((j : ℕ) → i ≤ j → j < i + n → (outcome_of (result j) ≡ none) × (clock j < deadline))
      → outcome_of (result (i + n)) ≡ some o
      → n < fuel
      → poll fuel result clock deadline i ≡ some o
  unfolding poll
  poll_first n zero deadline i o waiting e k = absurd (omega arith)
  poll_first zero (suc fuel) deadline i o waiting e k =
      let here : outcome_of (result i) ≡ some o =
        subst (λ m. outcome_of (result m) ≡ some o) (omega arith) e in
      ground arith
  poll_first (suc n) (suc fuel) deadline i o waiting e k =
      let e' : outcome_of (result (suc i + n)) ≡ some o =
        subst (λ m. outcome_of (result m) ≡ some o) (omega arith) e in
      let rest =
        poll_first n fuel deadline (suc i) o (λ j l m. waiting j (omega arith) (omega arith)) e'
          (omega arith) in
      let (not_yet, early) = waiting i (omega arith) (omega arith) in ground arith

  -- If the claims of a request find the key in progress before the deadline and the next one finds
  -- something else, then the request comes to the outcome of that.
  handle_first :
      (n start : ℕ) (o : Outcome A)
      → Sleeps
      → start ≤ clock 0
      → ((j : ℕ) → j < n → (outcome_of (result j) ≡ none) × (clock j < start + wait_timeout_ms))
      → outcome_of (result n) ≡ some o
      → handle true result clock start ≡ some o
  unfolding handle
  handle_first n start o sleeps h waiting e =
      let bounded : n < enough = few n waiting in
      poll_first n enough (start + wait_timeout_ms) 0 o (λ j l m. waiting j (omega arith))
        (subst (λ m. outcome_of (result m) ≡ some o) (omega arith) e) bounded
    where
      few :
          (m : ℕ)
          → ((j : ℕ) → j < m → (outcome_of (result j) ≡ none) × (clock j < start + wait_timeout_ms))
          → m < enough
      few zero waiting = omega arith
      few (suc m) waiting =
          let (_, early) = waiting m (omega arith) in omega (arith, clock-le m sleeps)

module _ {A : Type 0} where
  find-release :
      (s k : ℕ) (rows : List (KeyRow A)) (row : KeyRow A)
      → count (is_at s k) rows ≤ 1
      → find_key s k rows ≡ some row
      → is_in_progress row.status ≡ true
      → find_key s k (release s k rows) ≡ none
  unfolding find_key release
  find-release s k [] row one e h = cc
  find-release s k (r ∷ rows) row one e h = elim (Bool-cases (is_at s k r)) [
    | inl hit ↦ ground (arith, find-none rows (ground arith))
    | inr miss ↦ ground (arith, find-release s k rows row)
  ]
    where
      find-none :
          (xs : List (KeyRow A))
          → count (is_at s k) xs ≡ 0
          → find? (is_at s k) (filter (λ x. not (is_at s k x && is_in_progress x.status)) xs) ≡ none
      find-none [] z = refl
      find-none (x ∷ xs) z = ground (arith, find-none xs)

  -- In a table keyed by scope and key, where the row of a request is in progress, a request whose
  -- handler throws passes the error on and frees the key: the next claim of it is granted,
  -- whatever its content.
  execute-reopens :
      {E : Type 0} (s k fingerprint now : ℕ) (e : E) (rows : List (KeyRow A)) (row : KeyRow A)
      → count (is_at s k) rows ≤ 1
      → find_key s k rows ≡ some row
      → is_in_progress row.status ≡ true
      → let (result, after) = execute s k (throw e) true rows in
        (result ≡ throw e) × ((claim s k fingerprint now after).1 ≡ claimed)
  unfolding execute claim try_claim
  execute-reopens s k fingerprint now e rows row one there running =
      (refl, ground (arith, find-release s k rows row one there running))
