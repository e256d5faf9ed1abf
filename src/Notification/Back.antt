-- ===== src/Notification/Back.antt =====
-- When the message of a recovery is of use: `isRelevant` of
-- src/notifications/notification-dispatcher.service.ts.
use flyer_g_be.Base.{ℕ, ◌≡◌, true, none, some, List}
use flyer_g_be.Base.Keyed.{In}
use flyer_g_be.Device.{has_recent_heartbeat}
use flyer_g_be.Notification.{sent, Notification}
use flyer_g_be.Notification.Relevance.{Monitored, find_monitored, is_outage_of, same_option}

-- What makes the message of a recovery relevant: the display is active, has sent a heartbeat of
-- late and has no incident open; and the message of an outage of the same device and incident was
-- sent.
pub record IsBack (notification : Notification) (monitored : List Monitored)
    (rows : List Notification) (now : ℕ) : Type 0 where
  pub row : Monitored
  pub found : find_monitored notification.device_id monitored ≡ some row
  pub active : row.device.is_active ≡ true
  pub heard : has_recent_heartbeat row.device now ≡ true
  pub closed : row.state.incident_id ≡ none
  pub reported : Notification
  pub there : In reported rows
  pub of_device : is_outage_of notification.device_id reported ≡ true
  pub of_incident : same_option reported.incident_id notification.incident_id ≡ true
  pub was_sent : reported.status ≡ sent
