-- ===== src/Device/Examples.antt =====
-- The alerts of src/notifications/device-alert-policy.ts for a display that falls silent.
use flyer_g_be.Base.{ℕ, ◌+◌, ◌≤◌, ◌≡◌, ◌↔◌, refl, true, none, some, List, [], ◌∷◌, arith}
use flyer_g_be.Time.{seoul_minute_of_day}
use flyer_g_be.Device.{
  Range, in_range, is_quiet_at, Device, offline, has_recent_heartbeat, device_status_of,
}
use flyer_g_be.Device.Alert.{
  AlertState, recently_sleeping, has_new_heartbeat, open_incident, grace_until,
  evaluate_device_alert, Fresh, outage_notification, queue_recovery,
}
use flyer_g_be.Notification.{Notification, sent, find_notification, insert_once}
use flyer_g_be.Device.Sampling.{recently_sleeping_iff}
use flyer_g_be.Device.Incidents.{
  IsReportable, Checks, InOrder, reports, should_alert-IsReportable, reports-le,
}

abbrev tv : Device
tv = record { id = 1; is_active = true; last_seen_at = some 1000000; updated_at = 500000 }

abbrev night : List Range
night =
    record { start = record { hours = 22; minutes = 0 }; end = record { hours = 6; minutes = 0 } }
    ∷ []

abbrev before : AlertState
before = record {
  device_id = 1;
  status = offline;
  observed_last_seen_at = some 1000000;
  grace_until = 1090000;
  incident_id = none;
  checked_at = 1090000;
}

-- 22:00 in Seoul on 1970-01-02 is within the night, and 21:59 is not.
at_night : is_quiet_at night 133200000 ≡ true
unfolding is_quiet_at in_range seoul_minute_of_day
at_night = refl

reported : (evaluate_device_alert tv night (some before) 1100000).should_alert ≡ true
unfolding evaluate_device_alert device_status_of has_recent_heartbeat open_incident
    has_new_heartbeat grace_until recently_sleeping is_quiet_at in_range seoul_minute_of_day
reported = refl

should_alert-IsReportable_example : IsReportable tv night (some before) 1100000
should_alert-IsReportable_example =
    should_alert-IsReportable tv night (some before) 1100000 reported

recently_sleeping_iff_example :
    (recently_sleeping night 133200000 ≡ true)
    ↔ ((t : ℕ) × (t ≤ 133200000) × (133200000 ≤ t + 90000) × (is_quiet_at night t ≡ true))
recently_sleeping_iff_example = recently_sleeping_iff night 133200000 (omega arith)

abbrev fresh_of : ℕ → Fresh
fresh_of n = record { incident = n; recovery_id = n + 1000; outage_id = n + 2000 }

abbrev checks : Checks
checks =
    (night, 1100000, fresh_of 70) ∷ (night, 1130000, fresh_of 71) ∷ ([], 1160000, fresh_of 72) ∷ []

checks-InOrder : InOrder 1100000 checks
checks-InOrder = (omega arith, (omega arith, (omega arith, tt)))

reports-le_example : reports tv checks (some before) [] ≤ 1
reports-le_example = reports-le tv checks (some before) [] 1100000 checks-InOrder

-- An outage that was sent, and its recovery.
abbrev sent_outage : Notification
sent_outage = record (outage_notification 2070 1 70 1100000) { status = sent }

queued : (queue_recovery 1 (some 70) 1200000 1070 (sent_outage ∷ [])).1 ≡ 1
unfolding queue_recovery find_notification insert_once
queued = refl
