-- ===== src/Notification/Lease.antt =====
-- The lease of src/notifications/notification-dispatcher.service.ts: one message at a time, and a
-- pause after each.
use flyer_g_be.Base.{
  ℕ, ◌+◌, ◌≤◌, ◌<◌, max, leb, ◌≡◌, ◌⊎◌, inl, inr, refl, subst, sym, true, false, Bool-cases,
  Option-cases, Option, none, some, List, [], ◌∷◌, All, filter, map, arith,
}
use flyer_g_be.Notification.{Notification, DeliveryState, Outbox}
use flyer_g_be.Notification.Dispatcher.{
  max_attempts, is_free, has_token, oldest, take_row, claim, delivery_of, expire, is_due, released,
  Outcome, retry_after_of, finish,
}
use flyer_g_be.Notification.Runs.{Event, claims, finishes, queues, step, run}

-- Until that time nobody gets the lease.
pub record IsClosed (until : ℕ) (state : DeliveryState) : Type 0 where
  pub closed : (until ≤ state.locked_until) ⊎ (until ≤ state.next_send_at)

-- What the other processes do: their claims come before a time, and what they finish was taken
-- under another token than the state's.
abbrev pub Foreign : ℕ → Option ℕ → Event → Type 0
Foreign until token (claims now other) = now < until
Foreign until token (finishes taken outcome finished_at) = has_token token taken.claim_token ≡ false
Foreign until token (queues new) = Unit

step-Foreign :
    (until : ℕ) (event : Event) (outbox : Outbox) (state : DeliveryState)
    → outbox.delivery ≡ some state
    → IsClosed until state
    → Foreign until state.claim_token event
    → (step event outbox).delivery ≡ some state
unfolding claim finish
step-Foreign until (claims now token) outbox state e c f = let closed = c.closed in ground arith
step-Foreign until (finishes taken outcome finished_at) outbox state e c f = ground arith
step-Foreign until (queues new) outbox state e c f = e

run-Foreign :
    (until : ℕ) (events : List Event) (outbox : Outbox) (state : DeliveryState)
    → outbox.delivery ≡ some state
    → IsClosed until state
    → All (Foreign until state.claim_token) events
    → (run events outbox).delivery ≡ some state
run-Foreign until [] outbox state e c f = e
run-Foreign until (event ∷ events) outbox state e c (f, fs) =
    run-Foreign until events (step event outbox) state (step-Foreign until event outbox state e c f)
      c fs

-- A claim under a closed state gets nothing and leaves the messages alone.
claim_closed :
    (until now token : ℕ) (outbox : Outbox) (state : DeliveryState)
    → outbox.delivery ≡ some state
    → IsClosed until state
    → now < until
    → ((claim now token outbox).1 ≡ none)
      × ((claim now token outbox).0.notifications ≡ outbox.notifications)
unfolding claim
claim_closed until now token outbox state e c h =
    let closed = c.closed in (ground arith, ground arith)

-- What a claim that gets a message leaves as the delivery state.
claim_taken :
    (now token : ℕ) (outbox : Outbox)
    → (row : Notification) → (claim now token outbox).1 ≡ some row
    → (state : DeliveryState) × ((claim now token outbox).0.delivery ≡ some state)
      × (state.claim_token ≡ some token)
      × IsClosed (now + 60000) state
unfolding claim take_row
claim_taken now token outbox row e =
    let state = delivery_of outbox now in
    let rows = map (expire now) outbox.notifications in
    elim (Bool-cases (is_free state now)) [
      | inr locked ↦ absurd (ground arith)
      | inl free ↦ elim (Option-cases (oldest (filter (is_due now rows) rows))) [
        | inl nothing ↦ absurd (ground arith)
        | inr (due, found) ↦ elim (Bool-cases (leb max_attempts due.attempts)) [
          | inl exhausted ↦ absurd (ground arith)
          | inr more ↦ (
            record state { claim_token = some token; locked_until = now + 60000 },
            ground arith,
            refl,
            record { closed = inl (omega arith) },
          )
        ]
      ]
    ]

-- Once a process has got a message, then until its lease of a minute runs out, whatever other
-- processes do at the same time (claims under any token, ends of older runs under another token,
-- new messages), a further claim gets nothing and changes no message.
pub claim-run :
    (now token : ℕ) (outbox : Outbox) (row : Notification) (events : List Event) (now' other : ℕ)
    → (claim now token outbox).1 ≡ some row
    → All (Foreign (now + 60000) (some token)) events
    → now' < now + 60000
    → let during = run events (claim now token outbox).0 in
      ((claim now' other during).1 ≡ none)
      × ((claim now' other during).0.notifications ≡ during.notifications)
claim-run now token outbox row events now' other e f h =
    let (state, found, held, closed) = claim_taken now token outbox row e in
    let after = (claim now token outbox).0 in
    let foreign = subst (λ t. All (Foreign (now + 60000) t) events) (sym held) f in
    claim_closed (now + 60000) now' other (run events after) state
      (run-Foreign (now + 60000) events after state found closed foreign) closed h

-- Whoever finishes without holding the lease writes nothing.
finish_lost :
    (taken : Notification) (outcome : Outcome) (finished_at : ℕ) (outbox : Outbox)
    (state : DeliveryState)
    → outbox.delivery ≡ some state
    → has_token state.claim_token taken.claim_token ≡ false
    → finish taken outcome finished_at outbox ≡ outbox
unfolding finish
finish_lost taken outcome finished_at outbox state e h = ground arith

finish_held :
    (taken : Notification) (outcome : Outcome) (finished_at : ℕ) (outbox : Outbox)
    (state : DeliveryState)
    → outbox.delivery ≡ some state
    → has_token state.claim_token taken.claim_token ≡ true
    → (finish taken outcome finished_at outbox).delivery ≡ some (released outcome finished_at)
unfolding finish
finish_held taken outcome finished_at outbox state e h = ground arith

-- When the holder of the lease has finished, then for 1.1 seconds, and for as long as Slack asked
-- to wait after a failure, whatever the processes do, no claim gets a message or changes one.
pub finish-run :
    (taken : Notification) (outcome : Outcome) (finished_at : ℕ) (outbox : Outbox)
    (state : DeliveryState) (events : List Event) (now' other : ℕ)
    → outbox.delivery ≡ some state
    → has_token state.claim_token taken.claim_token ≡ true
    → All (Foreign (finished_at + max 1100 (retry_after_of outcome)) none) events
    → now' < finished_at + max 1100 (retry_after_of outcome)
    → let during = run events (finish taken outcome finished_at outbox) in
      ((claim now' other during).1 ≡ none)
      × ((claim now' other during).0.notifications ≡ during.notifications)
finish-run taken outcome finished_at outbox state events now' other e held f h =
    let until = finished_at + max 1100 (retry_after_of outcome) in
    let after = finish taken outcome finished_at outbox in
    let released_state = released outcome finished_at in
    let closed : IsClosed until released_state = record { closed = inr (omega arith) } in
    claim_closed until now' other (run events after) released_state
      (run-Foreign until events after released_state
        (finish_held taken outcome finished_at outbox state e held) closed f)
      closed h
