-- ===== src/Device/Incidents.antt =====
-- src/notifications/device-alert-policy.ts and src/jobs/device-offline-alert.job.ts: when an outage
-- is reported, and how often.
use flyer_g_be.Base.{
  ℕ, suc, ◌+◌, ◌≤◌, ◌<◌, ◌≡◌, ◌⊎◌, ◌↔◌, inl, inr, subst, sym, refl, true, false, Bool-cases,
  Option-cases, if◌then◌else◌, Option, none, some, List, [], ◌∷◌, is_some, ◌++◌, arith,
}
use flyer_g_be.Device.{Range, Device, online_within_ms, has_recent_heartbeat, device_status_of}
use flyer_g_be.Device.Alert.{
  AlertState, recently_sleeping, incident_of, has_new_heartbeat, open_incident,
  evaluate_device_alert, Fresh, recovery_notification, queue_recovery, check_device,
}
use flyer_g_be.Notification.{
  Notification, DedupeKey, outage, recovery, same_key, find_notification, insert_once,
}

pub record IsReportable (device : Device) (quiet_hours : List Range) (previous : Option AlertState)
    (now : ℕ) : Type 0 where
  pub active : device.is_active ≡ true
  pub silent : (t : ℕ) × (device.last_seen_at ≡ some t) × (t + online_within_ms < now)
  pub awake : recently_sleeping quiet_hours now ≡ false
  pub settled : device.updated_at + online_within_ms < now
  pub fresh : (incident_of previous ≡ none) ⊎ (has_new_heartbeat device previous ≡ true)

-- An outage is reported only of an active display that has been seen, that has sent no heartbeat
-- for more than 90 seconds, that was in no quiet hours at the four times sampled in the last 90
-- seconds, whose record has not changed for more than 90 seconds, and that has no incident open
-- since its last heartbeat.
pub should_alert-IsReportable :
    (device : Device) (quiet_hours : List Range) (previous : Option AlertState) (now : ℕ)
    → (evaluate_device_alert device quiet_hours previous now).should_alert ≡ true
    → IsReportable device quiet_hours previous now
unfolding evaluate_device_alert device_status_of has_recent_heartbeat open_incident
    has_new_heartbeat
should_alert-IsReportable device quiet_hours previous now h = record {
  active = ground arith;
  silent = elim (Option-cases device.last_seen_at) [
    | inl e ↦ absurd (ground arith)
    | inr (t, e) ↦ (t, e, ground arith)
  ];
  awake = ground arith;
  settled = ground arith;
  fresh = ground arith;
}

-- The checks of one display, from the oldest on: the settings, the time, and the ids that the
-- check would give.
abbrev pub Checks : Type 0
Checks = List (List Range × ℕ × Fresh)

abbrev pub InOrder : ℕ → Checks → Type 0
InOrder from [] = Unit
InOrder from ((quiet_hours, now, fresh) ∷ checks) = (from ≤ now) × InOrder now checks

-- How often an outage is reported.
unfoldable pub reports : Device → Checks → Option AlertState → List Notification → ℕ
reports device [] previous rows = 0
reports device ((quiet_hours, now, fresh) ∷ checks) previous rows =
    let (state, rows', queued) = check_device device quiet_hours previous now fresh rows in
    let rest = reports device checks (some state) rows' in
    if (evaluate_device_alert device quiet_hours previous now).should_alert then suc rest else rest

-- An incident stays open while the display is silent, and is not reported again.
record IsOpen (device : Device) (state : AlertState) (t : ℕ) : Type 0 where
  pub active : device.is_active ≡ true
  pub seen : device.last_seen_at ≡ some t
  pub observed : state.observed_last_seen_at ≡ some t
  pub incident : (i : ℕ) × (state.incident_id ≡ some i)

-- What the check of a display stores.
check-quiet :
    (device : Device) (quiet_hours : List Range) (previous : Option AlertState) (now : ℕ)
    (fresh : Fresh) (rows : List Notification)
    → (evaluate_device_alert device quiet_hours previous now).should_alert ≡ false
    → (check_device device quiet_hours previous now fresh rows).0
      ≡ (evaluate_device_alert device quiet_hours previous now).state
unfolding check_device
check-quiet device quiet_hours previous now fresh rows e = ground arith

check-reported :
    (device : Device) (quiet_hours : List Range) (previous : Option AlertState) (now : ℕ)
    (fresh : Fresh) (rows : List Notification)
    → (evaluate_device_alert device quiet_hours previous now).should_alert ≡ true
    → (check_device device quiet_hours previous now fresh rows).0
      ≡ record ((evaluate_device_alert device quiet_hours previous now).state) {
        incident_id = some fresh.incident;
      }
unfolding check_device
check-reported device quiet_hours previous now fresh rows e = ground arith

still-IsOpen :
    (device : Device) (quiet_hours : List Range) (state : AlertState) (now t : ℕ)
    → t + online_within_ms < now
    → IsOpen device state t
    → ((evaluate_device_alert device quiet_hours (some state) now).should_alert ≡ false)
      × IsOpen device (evaluate_device_alert device quiet_hours (some state) now).state t
unfolding evaluate_device_alert device_status_of has_recent_heartbeat open_incident
    has_new_heartbeat
still-IsOpen device quiet_hours state now t late o =
    let (i, e) = o.incident in
    let active = o.active in
    let seen = o.seen in
    let observed = o.observed in
    (
      ground arith,
      record { active = active; seen = seen; observed = seen; incident = (i, ground arith) },
    )

reports_open :
    (device : Device) (checks : Checks) (state : AlertState) (rows : List Notification) (from t : ℕ)
    → InOrder from checks
    → t + online_within_ms < from
    → IsOpen device state t
    → reports device checks (some state) rows ≡ 0
unfolding reports
reports_open device [] state rows from t h late o = refl
reports_open device ((quiet_hours, now, fresh) ∷ checks) state rows from t (h, hs) late o =
    let (quiet, next) = still-IsOpen device quiet_hours state now t (omega arith) o in
    let checked = check_device device quiet_hours (some state) now fresh rows in
    let stored = check-quiet device quiet_hours (some state) now fresh rows quiet in
    rw quiet (
      reports_open device checks checked.0 checked.1 now t hs (omega arith)
        (subst (λ s. IsOpen device s t) (sym stored) next))

-- While the record of a display stays as it is, that is without a heartbeat or a change of its
-- settings by an operator, and its checks come in the order of time, one outage is reported at
-- most, whatever quiet hours the checks find and whatever state the first one starts from.
pub reports-le :
    (device : Device) (checks : Checks) (previous : Option AlertState) (rows : List Notification)
    (from : ℕ)
    → InOrder from checks
    → reports device checks previous rows ≤ 1
unfolding reports evaluate_device_alert
reports-le device [] previous rows from h = omega arith
reports-le device ((quiet_hours, now, fresh) ∷ checks) previous rows from (h, hs) =
    let checked = check_device device quiet_hours previous now fresh rows in
    elim (Bool-cases (evaluate_device_alert device quiet_hours previous now).should_alert) [
      | inr quiet ↦ rw quiet (reports-le device checks (some checked.0) checked.1 now hs)
      | inl reported ↦
          let why = should_alert-IsReportable device quiet_hours previous now reported in
          let (t, seen, late) = why.silent in
          let stored = check-reported device quiet_hours previous now fresh rows reported in
          let opened : IsOpen device checked.0 t =
            subst (λ s. IsOpen device s t) (sym stored)
              (record {
                active = why.active;
                seen = seen;
                observed = seen;
                incident = (fresh.incident, refl);
              }) in
          let none_later = reports_open device checks checked.0 checked.1 now t hs late opened in
          rw reported (omega (arith, none_later))
    ]

recovered_iff :
    (device : Device) (quiet_hours : List Range) (previous : Option AlertState) (now i : ℕ)
    → ((evaluate_device_alert device quiet_hours previous now).recovered_incident_id ≡ some i) ↔ (
        (incident_of previous ≡ some i)
        × (has_new_heartbeat device previous ≡ true)
        × (device.is_active ≡ true)
        × (has_recent_heartbeat device now ≡ true))
unfolding evaluate_device_alert
recovered_iff device quiet_hours previous now i = (λ e. ground arith, λ e. ground arith)

find_notification-append :
    (key : DedupeKey) (rows : List Notification) (row : Notification)
    → find_notification key (rows ++ row ∷ []) ≡ (
        if is_some (find_notification key rows)
        then find_notification key rows
        else if same_key row.dedupe_key key
        then some row
        else none)
unfolding find_notification
find_notification-append key [] row = ground arith
find_notification-append key (r ∷ rows) row = ground (arith, find_notification-append key rows row)

-- A recovery is queued once: asking for it again, at whatever time, changes nothing and queues
-- nothing.
queue_recovery_again :
    (device_id : ℕ) (incident : Option ℕ) (now now' id id' : ℕ) (rows : List Notification)
    → let after = (queue_recovery device_id incident now id rows).0 in
      queue_recovery device_id incident now' id' after ≡ (after, 0)
unfolding queue_recovery insert_once
queue_recovery_again device_id none now now' id id' rows = refl
queue_recovery_again device_id (some incident) now now' id id' rows =
    let row = recovery_notification id device_id incident now in
    ground (
      arith,
      find_notification-append (recovery device_id incident) rows row,
      find_notification-append (outage device_id incident) rows row,
    )
