-- ===== src/Notification/Dispatcher.antt =====
-- src/notifications/notification-dispatcher.service.ts: `claim` and what `run` writes after a
-- delivery. Between the two the message goes out, and other processes may run; so they are steps of
-- their own.
use flyer_g_be.Base.{
  ℕ, ◌+◌, ◌-◌, ◌*◌, ◌^◌, ◌==◌, ltb, leb, max, Bool, true, false, not, ◌&&◌, ◌||◌, if◌then◌else◌,
  Option, none, some, get_or, List, [], ◌∷◌, map, filter, any,
}
use flyer_g_be.Notification.{
  NotificationKind, device_recovered, DedupeKey, outage, same_key, NotificationStatus, pending,
  sending, sent, failed, canceled, LastError, notification_expired, notification_attempts_exhausted,
  delivery, Notification, DeliveryState, Outbox,
}

-- `MAX_ATTEMPTS`, `LEASE_MS`, and the least time between two messages
abbrev pub max_attempts : ℕ
max_attempts = 5

abbrev pub lease_ms : ℕ
lease_ms = 60000

abbrev pub send_interval_ms : ℕ
send_interval_ms = 1100

-- `status in ('PENDING', 'SENDING')`
abbrev pub is_unsettled : NotificationStatus → Bool
is_unsettled pending = true
is_unsettled sending = true
is_unsettled _ = false

abbrev pub is_recovery : NotificationKind → Bool
is_recovery device_recovered = true
is_recovery _ = false

-- `on conflict do nothing` on the delivery state
abbrev pub delivery_of : Outbox → ℕ → DeliveryState
delivery_of outbox now =
    get_or outbox.delivery (record { claim_token = none; locked_until = now; next_send_at = now })

-- The condition of the lease
abbrev pub is_free : DeliveryState → ℕ → Bool
is_free state now = leb state.locked_until now && leb state.next_send_at now

-- Notifications that are too old are canceled.
abbrev pub is_expired : ℕ → Notification → Bool
is_expired now row = is_unsettled row.status && leb row.expires_at now

abbrev pub expire : ℕ → Notification → Notification
expire now row =
    if is_expired now row
    then record row {
      status = canceled;
      claim_token = none;
      last_error = some notification_expired;
    }
    else row

-- `unsettledOffline`: the outage of a recovery that has not been sent or given up. `concat` of a
-- null is no key of an outage.
abbrev pub outage_of : Notification → Option DedupeKey
outage_of row = elim row.device_id [
  | none ↦ none
  | some device_id ↦ elim row.incident_id [
    | none ↦ none
    | some incident_id ↦ some (outage device_id incident_id)
  ]
]

abbrev pub is_at_key : Option DedupeKey → Notification → Bool
is_at_key none row = false
is_at_key (some key) row = same_key row.dedupe_key key

unfoldable pub has_unsettled_outage : Notification → List Notification → Bool
has_unsettled_outage row rows =
    any (λ offline. is_at_key (outage_of row) offline && is_unsettled offline.status) rows

-- The rows that may be taken
unfoldable pub is_due : ℕ → List Notification → Notification → Bool
is_due now rows row =
    is_unsettled row.status
    && leb row.available_at now
    && (not (is_recovery row.kind) || not (has_unsettled_outage row rows))

-- `order by created_at, id limit 1`
abbrev pub comes_before : Notification → Notification → Bool
comes_before a b = ltb a.created_at b.created_at || (a.created_at == b.created_at && leb a.id b.id)

abbrev pub earlier : Notification → Option Notification → Notification
earlier row none = row
earlier row (some other) = if comes_before row other then row else other

unfoldable pub oldest : List Notification → Option Notification
oldest [] = none
oldest (row ∷ rows) = some (earlier row (oldest rows))

-- `update … where id = …`
abbrev pub at_id : ℕ → (Notification → Notification) → List Notification → List Notification
at_id id set rows = map (λ row. if row.id == id then set row else row) rows

-- What is set on a row that had its attempts, and on one that is taken
abbrev pub given_up : Notification → Notification
given_up row = record row {
  status = failed;
  claim_token = none;
  last_error = some notification_attempts_exhausted;
}

abbrev pub taken_with : (token attempts : ℕ) → Notification → Notification
taken_with token attempts row = record row {
  status = sending;
  claim_token = some token;
  attempts = attempts;
}

-- The row that is taken, or given up, or none, after the lease was taken.
unfoldable pub take_row :
    (token : ℕ) → List Notification → Option Notification → List Notification × Option Notification
take_row token rows none = (rows, none)
take_row token rows (some row) =
    if leb max_attempts row.attempts then (at_id row.id given_up rows, none) else (
      at_id row.id (taken_with token (row.attempts + 1)) rows,
      some (taken_with token (row.attempts + 1) row),
    )

-- The delivery state after the lease was taken, and after it was given back without a message
abbrev pub lent : (now token : ℕ) → DeliveryState → DeliveryState
lent now token state = record state { claim_token = some token; locked_until = now + lease_ms }

abbrev pub given_back : ℕ → DeliveryState
given_back now = record {
  claim_token = none;
  locked_until = now;
  next_send_at = now + send_interval_ms;
}

-- The delivery state after a row was taken or not
abbrev pub leased : (now token : ℕ) → DeliveryState → Option Notification → DeliveryState
leased now token state none = given_back now
leased now token state (some row) = lent now token state

-- `claim`. `token` is what `randomUUID` gives.
unfoldable pub claim : (now token : ℕ) → Outbox → Outbox × Option Notification
claim now token outbox =
    let state = delivery_of outbox now in
    let rows = map (expire now) outbox.notifications in
    let (rows', taken) = take_row token rows (oldest (filter (is_due now rows) rows)) in
    if is_free state now
    then (record { notifications = rows'; delivery = some (leased now token state taken) }, taken)
    else (record outbox { delivery = some state }, none)

-- What came of a message: it was sent, it is of no use any more, or the delivery failed
-- (`SlackDeliveryError`).
pub data Outcome : Type 0 where
  delivered irrelevant : Outcome
  undelivered : (code : ℕ) → (retryable : Bool) → (retry_after_ms : ℕ) → Outcome

-- How `send` ends: without an error, with a `SlackDeliveryError`, or with another error
pub data Sending : Type 0 where
  went_out other_error : Sending
  delivery_error : (code : ℕ) → (retryable : Bool) → (retry_after_ms : ℕ) → Sending

-- The `try` of `run`, given whether the message is relevant and how `send` would end. 0 stands for
-- the code `NOTIFICATION_INTERNAL_ERROR`.
abbrev pub outcome_of : (relevant : Bool) → Sending → Outcome
outcome_of false sending' = irrelevant
outcome_of true went_out = delivered
outcome_of true other_error = undelivered 0 true 0
outcome_of true (delivery_error code retryable retry_after_ms) =
    undelivered code retryable retry_after_ms

-- `status` at the end of `run`
abbrev pub status_of : Outcome → (attempts : ℕ) → NotificationStatus
status_of delivered attempts = sent
status_of irrelevant attempts = canceled
status_of (undelivered code retryable retry_after_ms) attempts =
    if retryable && ltb attempts max_attempts then pending else failed

abbrev pub retry_after_of : Outcome → ℕ
retry_after_of (undelivered code retryable retry_after_ms) = retry_after_ms
retry_after_of _ = 0

abbrev pub error_of : Outcome → Option LastError
error_of (undelivered code retryable retry_after_ms) = some (delivery code)
error_of _ = none

-- `retryDelay`. A notification that was claimed has at least one attempt.
abbrev pub retry_delay : Outcome → (attempts : ℕ) → ℕ
retry_delay outcome attempts = max (retry_after_of outcome) (60000 * 2 ^ (attempts - 1))

abbrev pub is_sent : NotificationStatus → Bool
is_sent sent = true
is_sent _ = false

abbrev pub is_pending : NotificationStatus → Bool
is_pending pending = true
is_pending _ = false

abbrev pub has_token : Option ℕ → Option ℕ → Bool
has_token none token = false
has_token (some a) none = false
has_token (some a) (some b) = a == b

-- The row that the second statement of the transaction writes
abbrev pub finished : Notification → Outcome → (finished_at : ℕ) → Notification → Notification
finished taken outcome finished_at row =
    let status = status_of outcome taken.attempts in
    record row {
      status = status;
      claim_token = none;
      last_error = error_of outcome;
      sent_at = if is_sent status then some finished_at else none;
      available_at =
          if is_pending status
          then finished_at + retry_delay outcome taken.attempts
          else taken.available_at;
    }

abbrev pub settle : Notification → Outcome → (finished_at : ℕ) → Notification → Notification
settle taken outcome finished_at row =
    if row.id == taken.id && has_token row.claim_token taken.claim_token
    then finished taken outcome finished_at row
    else row

-- The transaction at the end of `run`: whoever has lost the lease writes nothing.
abbrev pub released : Outcome → (finished_at : ℕ) → DeliveryState
released outcome finished_at = record {
  claim_token = none;
  locked_until = finished_at;
  next_send_at = finished_at + max send_interval_ms (retry_after_of outcome);
}

unfoldable pub finish : Notification → Outcome → (finished_at : ℕ) → Outbox → Outbox
finish taken outcome finished_at outbox = elim outbox.delivery [
  | none ↦ outbox
  | some state ↦
      if has_token state.claim_token taken.claim_token
      then record {
        notifications = map (settle taken outcome finished_at) outbox.notifications;
        delivery = some (released outcome finished_at);
      }
      else outbox
]
