-- ===== src/Notification.antt =====
-- The outbox of messages to Slack: `slackNotifications` and `slackDeliveryState` of
-- src/db/schema.ts. The text and the presentation of a message are left out.
pub mod Dispatcher
pub mod Runs
pub mod Invariant
pub mod Cases
pub mod Relevance
pub mod Lease
pub mod WellFormed
pub mod Settled
pub mod Attempts
pub mod Back
pub mod Recovery
mod Examples
use flyer_g_be.Base.{
  ℕ, ◌+◌, ◌==◌, Bool, true, false, ◌&&◌, Option, none, some, List, [], ◌∷◌, ◌++◌, find?,
}

-- The kinds of a message
pub data NotificationKind : Type 0 where
  device_offline device_recovered review_reminder : NotificationKind

-- The `dedupeKey` of a notification: of an outage or a recovery, the ids of the device and of the
-- incident; of a reminder, the minute in Seoul for which it is due
pub data DedupeKey : Type 0 where
  outage recovery : (device_id incident_id : ℕ) → DedupeKey
  review : (slot : ℕ) → DedupeKey

abbrev pub same_key : DedupeKey → DedupeKey → Bool
same_key (outage d i) (outage e j) = d == e && i == j
same_key (recovery d i) (recovery e j) = d == e && i == j
same_key (review s) (review t) = s == t
same_key _ _ = false

pub data NotificationStatus : Type 0 where
  pending sending sent failed canceled : NotificationStatus

-- The codes of `lastError` that the dispatcher writes itself, and those of a delivery, which the
-- model does not read
pub data LastError : Type 0 where
  notification_expired notification_attempts_exhausted : LastError
  delivery : (code : ℕ) → LastError

-- `slackNotifications`
pub record Notification : Type 0 where
  pub id : ℕ
  pub dedupe_key : DedupeKey
  pub kind : NotificationKind
  pub device_id : Option ℕ
  pub incident_id : Option ℕ
  pub status : NotificationStatus
  pub attempts : ℕ
  pub available_at : ℕ
  pub expires_at : ℕ
  pub claim_token : Option ℕ
  pub last_error : Option LastError
  pub sent_at : Option ℕ
  pub created_at : ℕ

-- The values that an insert gives, the others being the defaults of the columns. `id` is what
-- `defaultRandom` gives.
abbrev pub new_notification :
    (id : ℕ)
    → DedupeKey
    → NotificationKind
    → (device_id incident_id : Option ℕ) → (now : ℕ) → Notification
new_notification id key kind device_id incident_id now = record {
  id = id;
  dedupe_key = key;
  kind = kind;
  device_id = device_id;
  incident_id = incident_id;
  status = pending;
  attempts = 0;
  available_at = now;
  expires_at = now + 3600000;
  claim_token = none;
  last_error = none;
  sent_at = none;
  created_at = now;
}

unfoldable pub find_notification : DedupeKey → List Notification → Option Notification
find_notification key rows = find? (λ row. same_key row.dedupe_key key) rows

-- `insert … on conflict do nothing`, with the number of rows
unfoldable pub insert_once : Notification → List Notification → List Notification × ℕ
insert_once new rows = elim (find_notification new.dedupe_key rows) [
  | none ↦ (rows ++ new ∷ [], 1)
  | some row ↦ (rows, 0)
]

-- `slackDeliveryState`: the row with the id `slack`
pub record DeliveryState : Type 0 where
  pub claim_token : Option ℕ
  pub locked_until : ℕ
  pub next_send_at : ℕ

pub record Outbox : Type 0 where
  pub notifications : List Notification
  pub delivery : Option DeliveryState
