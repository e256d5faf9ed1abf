-- ===== src/Device/Alert.antt =====
-- When an outage of a display is reported: `evaluateDeviceAlert` of
-- src/notifications/device-alert-policy.ts, and the run of src/jobs/device-offline-alert.job.ts. The
-- texts of the messages are left out.
use flyer_g_be.Base.{
  ℕ, ◌+◌, ◌-◌, leb, ltb, Bool, true, false, not, ◌&&◌, ◌||◌, if◌then◌else◌, Option, none, some,
  is_some, get_or, List, [], ◌∷◌, ◌++◌, any,
}
use flyer_g_be.Notification.{
  NotificationStatus, sent, sending, pending, Notification, outage, recovery, device_offline,
  device_recovered, new_notification, find_notification, insert_once,
}
use flyer_g_be.Device.{
  Range, is_quiet_at, Device, DeviceStatus, disabled, sleeping, online, offline, online_within_ms,
  has_recent_heartbeat, device_status_of,
}

-- `deviceAlertStates`
pub record AlertState : Type 0 where
  pub device_id : ℕ
  pub status : DeviceStatus
  pub observed_last_seen_at : Option ℕ
  pub grace_until : ℕ
  pub incident_id : Option ℕ
  pub checked_at : ℕ

-- `recentlySleeping`: the loop over the offsets 0, 30, 60 and 90 seconds
unfoldable pub recently_sleeping : List Range → ℕ → Bool
recently_sleeping quiet_hours now =
    any (λ offset. is_quiet_at quiet_hours (now - offset)) (0 ∷ 30000 ∷ 60000 ∷ 90000 ∷ [])

-- The result of `evaluateDeviceAlert`
pub record Evaluation : Type 0 where
  pub state : AlertState
  pub should_alert : Bool
  pub recovered_incident_id : Option ℕ

abbrev observed_of : Option AlertState → Option ℕ
observed_of none = none
observed_of (some previous) = previous.observed_last_seen_at

abbrev pub incident_of : Option AlertState → Option ℕ
incident_of none = none
incident_of (some previous) = previous.incident_id

abbrev grace_of : Option AlertState → ℕ → ℕ
grace_of none now = now
grace_of (some previous) now = previous.grace_until

-- `status === 'DISABLED' || status === 'SLEEPING'`, `status === 'ONLINE' || status === 'DISABLED'`
abbrev pub is_off : DeviceStatus → Bool
is_off disabled = true
is_off sleeping = true
is_off _ = false

abbrev pub ends_incident : DeviceStatus → Bool
ends_incident online = true
ends_incident disabled = true
ends_incident _ = false

abbrev pub is_offline : DeviceStatus → Bool
is_offline offline = true
is_offline _ = false

-- `recovered`: a heartbeat since the last check
unfoldable pub has_new_heartbeat : Device → Option AlertState → Bool
has_new_heartbeat device previous = elim device.last_seen_at [
  | none ↦ false
  | some last_seen_at ↦ ltb (get_or (observed_of previous) 0) last_seen_at
]

-- `incidentId` after the check
unfoldable pub open_incident : Device → DeviceStatus → Option AlertState → Option ℕ
open_incident device status previous =
    if ends_incident status
    then none
    else if has_new_heartbeat device previous
    then none
    else incident_of previous

-- The second condition under which a display gets a time of grace
abbrev just_changed : Device → Option AlertState → Bool
just_changed device none = false
just_changed device (some previous) =
    is_off previous.status || ltb previous.checked_at device.updated_at

-- `graceUntil` after the check
unfoldable pub grace_until : Device → DeviceStatus → Option AlertState → ℕ → ℕ
grace_until device status previous now =
    if not (is_some device.last_seen_at) || is_off status
    then now + online_within_ms
    else if just_changed device previous
    then now + online_within_ms
    else grace_of previous now

-- `evaluateDeviceAlert`
unfoldable pub evaluate_device_alert : Device → List Range → Option AlertState → ℕ → Evaluation
evaluate_device_alert device quiet_hours previous now =
    let status = device_status_of device quiet_hours now in
    let recovered = has_new_heartbeat device previous in
    let incident = open_incident device status previous in
    let grace = grace_until device status previous now in
    record {
      state = record {
        device_id = device.id;
        status = status;
        observed_last_seen_at = device.last_seen_at;
        grace_until = grace;
        incident_id = incident;
        checked_at = now;
      };
      should_alert =
          is_offline status
          && is_some device.last_seen_at
          && not (is_some incident)
          && leb grace now
          && not (recently_sleeping quiet_hours now)
          && ltb online_within_ms (now - device.updated_at);
      recovered_incident_id =
          if recovered && device.is_active && has_recent_heartbeat device now
          then incident_of previous
          else none;
    }

-- The ids that `randomUUID` and `defaultRandom` give during a check: of a new incident, and of the
-- messages on the recovery and on the outage
pub record Fresh : Type 0 where
  pub incident : ℕ
  pub recovery_id : ℕ
  pub outage_id : ℕ

abbrev pub recovery_notification : (id device_id incident_id now : ℕ) → Notification
recovery_notification id device_id incident_id now =
    new_notification id (recovery device_id incident_id) device_recovered (some device_id)
      (some incident_id) now

abbrev pub outage_notification : (id device_id incident_id now : ℕ) → Notification
outage_notification id device_id incident_id now =
    new_notification id (outage device_id incident_id) device_offline (some device_id)
      (some incident_id) now

abbrev may_have_been_sent : NotificationStatus → Bool
may_have_been_sent sent = true
may_have_been_sent sending = true
may_have_been_sent pending = true
may_have_been_sent _ = false

-- The part of the loop's body on a recovery
unfoldable pub queue_recovery :
    (device_id : ℕ) → Option ℕ → (now id : ℕ) → List Notification → List Notification × ℕ
queue_recovery device_id none now id rows = (rows, 0)
queue_recovery device_id (some incident) now id rows =
    elim (find_notification (outage device_id incident) rows) [
      | none ↦ (rows, 0)
      | some row ↦
          if may_have_been_sent row.status
          then insert_once (recovery_notification id device_id incident now) rows
          else (rows, 0)
    ]

-- The loop's body for one device: the state that is stored, the notifications, and how many were
-- queued.
unfoldable pub check_device :
    Device
    → List Range
    → Option AlertState
    → (now : ℕ) → Fresh
    → List Notification
    → AlertState × List Notification × ℕ
check_device device quiet_hours previous now fresh rows =
    let result = evaluate_device_alert device quiet_hours previous now in
    let (rows', queued) =
      queue_recovery device.id result.recovered_incident_id now fresh.recovery_id rows in
    if result.should_alert
    then (
      record result.state { incident_id = some fresh.incident },
      rows' ++ outage_notification fresh.outage_id device.id fresh.incident now ∷ [],
      queued + 1,
    )
    else (result.state, rows', queued)
