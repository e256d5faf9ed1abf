-- ===== src/Notification/Runs.antt =====
-- What several processes do with the outbox: the statements of
-- src/notifications/notification-dispatcher.service.ts and the inserts of the jobs, in any order.
use flyer_g_be.Base.{ℕ, List, [], ◌∷◌, map}
use flyer_g_be.Notification.{Notification, Outbox, insert_once}
use flyer_g_be.Notification.Dispatcher.{Outcome, claim, finish}

-- A claim; the end of `run` on a notification that was taken; a new message
pub data Event : Type 0 where
  claims : (now token : ℕ) → Event
  finishes : (taken : Notification) → (outcome : Outcome) → (finished_at : ℕ) → Event
  queues : (new : Notification) → Event

abbrev pub step : Event → Outbox → Outbox
step (claims now token) outbox = (claim now token outbox).0
step (finishes taken outcome finished_at) outbox = finish taken outcome finished_at outbox
step (queues new) outbox = record outbox {
  notifications = (insert_once new outbox.notifications).0;
}

abbrev pub run : List Event → Outbox → Outbox
run [] outbox = outbox
run (event ∷ events) outbox = run events (step event outbox)

abbrev pub ids : List Notification → List ℕ
ids rows = map (λ row. row.id) rows
