-- ===== src/Notification/Relevance.antt =====
-- `isRelevant` of src/notifications/notification-dispatcher.service.ts, `enabledFor` of
-- src/notifications/slack-notification.service.ts, and the job that queues the reminders of reviews,
-- src/jobs/review-reminder.job.ts with `reviewReminderSlot` of
-- src/notifications/notification-messages.ts; and src/jobs/device-offline-alert.job.ts.
use flyer_g_be.Base.{
  ℕ, ◌+◌, ◌/◌, ◌%◌, ◌==◌, ltb, leb, Bool, true, false, not, ◌&&◌, ◌||◌, if◌then◌else◌, Option, none,
  some, List, [], ◌∷◌, filter, find?,
}
use flyer_g_be.Time.{day_ms, seoul_offset_ms}
use flyer_g_be.Device.{Range, Device, has_recent_heartbeat, device_status_of}
use flyer_g_be.Device.Alert.{AlertState, Fresh, is_offline, check_device}
use flyer_g_be.Notification.{
  NotificationKind, device_offline, device_recovered, review_reminder, review, NotificationStatus,
  sent, Notification, new_notification, insert_once,
}

-- The settings of the environment
pub record SlackConfig : Type 0 where
  pub has_webhook_url : Bool
  pub review_reminders_enabled : Bool
  pub device_alerts_enabled : Bool

-- `enabledFor`
abbrev pub enabled_for : SlackConfig → NotificationKind → Bool
enabled_for config review_reminder = config.has_webhook_url && config.review_reminders_enabled
enabled_for config _ = config.has_webhook_url && config.device_alerts_enabled

-- A display with its alert state, and the quiet hours of its settings
pub record Monitored : Type 0 where
  pub device : Device
  pub state : AlertState
  pub quiet_hours : List Range

abbrev is_device : Option ℕ → ℕ → Bool
is_device none id = false
is_device (some device_id) id = device_id == id

unfoldable pub find_monitored : Option ℕ → List Monitored → Option Monitored
find_monitored device_id rows = find? (λ row. is_device device_id row.device.id) rows

-- `===` of two optional values
abbrev pub same_option : Option ℕ → Option ℕ → Bool
same_option none none = true
same_option (some a) (some b) = a == b
same_option _ _ = false

abbrev is_offline_kind : NotificationKind → Bool
is_offline_kind device_offline = true
is_offline_kind _ = false

-- `order by created_at desc, id desc limit 1`
abbrev pub comes_after : Notification → Notification → Bool
comes_after a b = ltb b.created_at a.created_at || (a.created_at == b.created_at && leb b.id a.id)

abbrev pub later : Notification → Option Notification → Notification
later row none = row
later row (some other) = if comes_after row other then row else other

unfoldable pub newest : List Notification → Option Notification
newest [] = none
newest (row ∷ rows) = some (later row (newest rows))

abbrev pub is_outage_of : Option ℕ → Notification → Bool
is_outage_of none row = false
is_outage_of (some device_id) row = is_device row.device_id device_id && is_offline_kind row.kind

unfoldable pub latest_offline : Option ℕ → List Notification → Option Notification
latest_offline device_id rows = newest (filter (is_outage_of device_id) rows)

abbrev pub is_status_sent : NotificationStatus → Bool
is_status_sent sent = true
is_status_sent _ = false

abbrev pub is_none : Option ℕ → Bool
is_none none = true
is_none (some a) = false

-- `isRelevant` of a recovery: the display is back, and its last outage was reported.
abbrev pub is_relevant_recovery : Notification → Monitored → List Notification → ℕ → Bool
is_relevant_recovery notification row rows now =
    row.device.is_active
    && is_none row.state.incident_id
    && has_recent_heartbeat row.device now
    && elim (latest_offline notification.device_id rows) [
      | none ↦ false
      | some latest ↦
          same_option latest.incident_id notification.incident_id && is_status_sent latest.status
    ]

-- `isRelevant` of an outage: it is open, and no heartbeat came since it was found.
abbrev pub is_relevant_outage : Notification → Monitored → ℕ → Bool
is_relevant_outage notification row now =
    same_option row.state.incident_id notification.incident_id
    && same_option row.device.last_seen_at row.state.observed_last_seen_at
    && is_offline (device_status_of row.device row.quiet_hours now)

abbrev relevant_of_kind :
    NotificationKind → Notification → Option Monitored → List Notification → ℕ → Bool
relevant_of_kind review_reminder notification row rows now = true
relevant_of_kind kind notification none rows now = false
relevant_of_kind device_recovered notification (some row) rows now =
    is_relevant_recovery notification row rows now
relevant_of_kind device_offline notification (some row) rows now =
    is_relevant_outage notification row now

-- `isRelevant`
unfoldable pub is_relevant :
    SlackConfig → Notification → List Monitored → List Notification → ℕ → Bool
is_relevant config notification monitored rows now =
    enabled_for config notification.kind
    && relevant_of_kind notification.kind notification
        (find_monitored notification.device_id monitored) rows now

-- `getUTCDay`, with 0 for Sunday. The first day of 1970 was a Thursday.
abbrev utc_weekday : ℕ → ℕ
utc_weekday date = (date / day_ms + 4) % 7

-- `reviewReminderSlot`: the minute in Seoul
unfoldable pub review_reminder_slot : ℕ → Option ℕ
review_reminder_slot now =
    let local = now + seoul_offset_ms in
    let weekday = utc_weekday local in
    let hours = local / 3600000 % 24 in
    if weekday == 0
      || weekday == 6
      || not (local / 60000 % 60 == 0)
      || not (hours == 10 || hours == 16)
    then none
    else some (local / 60000)

-- `ReviewReminderJob.run`, given how many kinds of submissions wait for a review, and the id that
-- the new row would get
unfoldable pub review_reminder_job :
    SlackConfig → (waiting : ℕ) → (now id : ℕ) → List Notification → List Notification × Option ℕ
review_reminder_job config waiting now id rows = elim (review_reminder_slot now) [
  | none ↦ (rows, none)
  | some slot ↦
      if not (enabled_for config review_reminder)
      then (rows, none)
      else if waiting == 0
      then (rows, some 0)
      else let (rows', queued) =
          insert_once (new_notification id (review slot) review_reminder none none now) rows in
        (rows', some queued)
]

-- A row of the query of `DeviceOfflineAlertJob`, with the ids that its check would give
pub record Joined : Type 0 where
  pub device : Device
  pub quiet_hours : List Range
  pub previous : Option AlertState
  pub fresh : Fresh

-- The loop of `DeviceOfflineAlertJob.run`: the states that are stored, the messages, and how many
-- were queued
unfoldable pub check_devices :
    ℕ → List Joined → List Notification → List AlertState × List Notification × ℕ
check_devices now [] rows = ([], rows, 0)
check_devices now (row ∷ joined) rows =
    let (state, rows', queued) =
      check_device row.device row.quiet_hours row.previous now row.fresh rows in
    let (states, rows'', more) = check_devices now joined rows' in
    (state ∷ states, rows'', queued + more)

-- `DeviceOfflineAlertJob.run`
unfoldable pub device_offline_alert_job :
    SlackConfig
    → ℕ
    → List Joined
    → List Notification
    → List AlertState × List Notification × Option ℕ
device_offline_alert_job config now joined rows =
    let (states, rows', queued) = check_devices now joined rows in
    if enabled_for config device_offline then (states, rows', some queued) else ([], rows, none)
