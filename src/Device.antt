-- ===== src/Device.antt =====
-- What a display is doing: src/devices/device-status.ts and src/lineups/quiet-hours.ts. A clock time
-- `HH:MM` of the settings is its hours and minutes.
pub mod Alert
pub mod Sampling
pub mod Incidents
mod Examples
use flyer_g_be.Base.{
  ℕ, ◌+◌, ◌-◌, ◌*◌, leb, ltb, Bool, true, false, not, ◌&&◌, ◌||◌, if◌then◌else◌, Option, none, some,
  List, any,
}
use flyer_g_be.Time.{seoul_minute_of_day}

pub record Clock : Type 0 where
  pub hours : ℕ
  pub minutes : ℕ

-- An entry of `quietHours`
pub record Range : Type 0 where
  pub start : Clock
  pub end : Clock

-- `minutesOf`
abbrev pub minutes_of : Clock → ℕ
minutes_of clock = clock.hours * 60 + clock.minutes

-- The test of one range in `isQuietAt`
unfoldable pub in_range : ℕ → Range → Bool
in_range minute range =
    let start = minutes_of range.start in
    let end = minutes_of range.end in
    if ltb start end then leb start minute && ltb minute end else leb start minute || ltb minute end

-- `isQuietAt`
unfoldable pub is_quiet_at : List Range → ℕ → Bool
is_quiet_at quiet_hours now = any (in_range (seoul_minute_of_day now)) quiet_hours

-- The columns of `devices` that the status and the alerts read
pub record Device : Type 0 where
  pub id : ℕ
  pub is_active : Bool
  pub last_seen_at : Option ℕ
  pub updated_at : ℕ

-- `DeviceStatus`
pub data DeviceStatus : Type 0 where
  disabled sleeping online offline : DeviceStatus

-- `ONLINE_WITHIN_MS`
abbrev pub online_within_ms : ℕ
online_within_ms = 90000

-- `hasRecentHeartbeat`
unfoldable pub has_recent_heartbeat : Device → ℕ → Bool
has_recent_heartbeat device now = elim device.last_seen_at [
  | none ↦ false
  | some last_seen_at ↦ leb (now - last_seen_at) online_within_ms
]

-- `deviceStatusOf`, given the quiet hours of the settings
unfoldable pub device_status_of : Device → List Range → ℕ → DeviceStatus
device_status_of device quiet_hours now =
    if not device.is_active
    then disabled
    else if is_quiet_at quiet_hours now
    then sleeping
    else if has_recent_heartbeat device now
    then online
    else offline
