-- ===== src/Notification/Examples.antt =====
-- A display falls silent and comes back, and two processes send the messages.
use flyer_g_be.Base.{◌≤◌, ◌≡◌, refl, inl, true, false, none, some, List, [], ◌∷◌, All, arith}
use flyer_g_be.Base.Keyed.{In}
use flyer_g_be.Device.{online}
use flyer_g_be.Device.Alert.{outage_notification, recovery_notification}
use flyer_g_be.Notification.{
  Notification, DeliveryState, Outbox, sending, sent, insert_once, find_notification,
}
use flyer_g_be.Notification.Dispatcher.{
  is_due, oldest, has_unsettled_outage, take_row, claim, Outcome, delivered, undelivered, finish,
}
use flyer_g_be.Notification.Runs.{Event, claims, finishes, run}
use flyer_g_be.Notification.Invariant.{IsSound, IsWellFormed}
use flyer_g_be.Notification.WellFormed.{ValidRun, run-IsWellFormed}
use flyer_g_be.Notification.Lease.{Foreign, claim-run, finish-run}
use flyer_g_be.Notification.Settled.{run-settled}
use flyer_g_be.Notification.Attempts.{sends, sends-le}
use flyer_g_be.Notification.Recovery.{claim-recovery}
use flyer_g_be.Notification.Relevance.{
  SlackConfig, Monitored, review_reminder_slot, review_reminder_job,
}

-- The outage of display 1 and its recovery, half a minute later
abbrev outage_row : Notification
outage_row = outage_notification 10 1 70 1000000

abbrev recovery_row : Notification
recovery_row = recovery_notification 11 1 70 1030000

abbrev outbox : Outbox
outbox = record { notifications = outage_row ∷ recovery_row ∷ []; delivery = none }

abbrev taken_outage : Notification
taken_outage = record outage_row { status = sending; claim_token = some 900; attempts = 1 }

-- The outage goes first.
takes_outage : (claim 1040000 900 outbox).1 ≡ some taken_outage
unfolding claim take_row oldest is_due has_unsettled_outage
takes_outage = refl

-- Another process claims in vain, and a third one ends late.
abbrev lost : Notification
lost = record outage_row { claim_token = some 899 }

abbrev others : List Event
others = claims 1050000 901 ∷ finishes lost delivered 1060000 ∷ []

others-Foreign : All (Foreign 1100000 (some 900)) others
others-Foreign = (omega arith, (refl, tt))

claim-run_example :
    let during = run others (claim 1040000 900 outbox).0 in
    ((claim 1070000 902 during).1 ≡ none)
    × ((claim 1070000 902 during).0.notifications ≡ during.notifications)
claim-run_example =
    claim-run 1040000 900 outbox taken_outage others 1070000 902 takes_outage others-Foreign
      (omega arith)

-- Slack asks to wait for two seconds.
abbrev limited : Outcome
limited = undelivered 429 true 2000

abbrev leased_state : DeliveryState
leased_state = record { claim_token = some 900; locked_until = 1100000; next_send_at = 1040000 }

abbrev leased_outbox : Outbox
leased_outbox = record {
  notifications = taken_outage ∷ recovery_row ∷ [];
  delivery = some leased_state;
}

finish-run_example :
    let during =
      run (claims 1042500 903 ∷ []) (finish taken_outage limited 1041000 leased_outbox) in
    ((claim 1042999 904 during).1 ≡ none)
    × ((claim 1042999 904 during).0.notifications ≡ during.notifications)
finish-run_example =
    finish-run taken_outage limited 1041000 leased_outbox leased_state (claims 1042500 903 ∷ [])
      1042999 904 refl refl (omega arith, tt) (omega arith)

outage-IsSound : IsSound outage_row
outage-IsSound = record {
  claimed = refl;
  stamped = refl;
  explained = λ e. ground arith;
  clean = λ e. ground arith;
  few = omega arith;
}

recovery-IsSound : IsSound recovery_row
recovery-IsSound = record {
  claimed = refl;
  stamped = refl;
  explained = λ e. ground arith;
  clean = λ e. ground arith;
  few = omega arith;
}

outbox-IsWellFormed : IsWellFormed outbox.notifications
outbox-IsWellFormed = record {
  distinct = ((λ e. omega (arith, e), tt), (tt, tt));
  sound = (outage-IsSound, (recovery-IsSound, tt));
}

-- The outage goes out, and then its recovery.
abbrev events : List Event
events = claims 1040000 900 ∷ finishes taken_outage delivered 1041000 ∷ claims 1050000 901 ∷ []

events-Valid : ValidRun events outbox
events-Valid = (tt, (tt, (tt, tt)))

run-IsWellFormed_example : IsWellFormed (run events outbox).notifications
run-IsWellFormed_example = run-IsWellFormed events outbox events-Valid outbox-IsWellFormed

sends-le_example : sends 10 events outbox ≤ 5
sends-le_example = sends-le 10 events outbox events-Valid outbox-IsWellFormed

-- After the outage was sent
abbrev sent_outage : Notification
sent_outage = record outage_row { status = sent; attempts = 1; sent_at = some 1041000 }

abbrev sent_outbox : Outbox
sent_outbox = record { notifications = sent_outage ∷ recovery_row ∷ []; delivery = none }

sent_outage-IsSound : IsSound sent_outage
sent_outage-IsSound = record {
  claimed = refl;
  stamped = refl;
  explained = λ e. ground arith;
  clean = λ e. refl;
  few = omega arith;
}

sent_outbox-IsWellFormed : IsWellFormed sent_outbox.notifications
sent_outbox-IsWellFormed = record {
  distinct = ((λ e. omega (arith, e), tt), (tt, tt));
  sound = (sent_outage-IsSound, (recovery-IsSound, tt));
}

run-settled_example : In sent_outage (run events sent_outbox).notifications
run-settled_example =
    run-settled events sent_outbox sent_outage events-Valid sent_outbox-IsWellFormed (inl refl) refl

abbrev taken_recovery : Notification
taken_recovery = record recovery_row { status = sending; claim_token = some 901; attempts = 1 }

takes_recovery : (claim 1050000 901 sent_outbox).1 ≡ some taken_recovery
unfolding claim take_row oldest is_due has_unsettled_outage
takes_recovery = refl

claim-recovery_example :
    has_unsettled_outage taken_recovery (claim 1050000 901 sent_outbox).0.notifications ≡ false
claim-recovery_example =
    claim-recovery 1050000 901 sent_outbox taken_recovery sent_outbox-IsWellFormed takes_recovery
      refl

-- The display is back.
abbrev back : Monitored
back = record {
  device = record { id = 1; is_active = true; last_seen_at = some 1030000; updated_at = 500000 };
  state = record {
    device_id = 1;
    status = online;
    observed_last_seen_at = some 1030000;
    grace_until = 1000000;
    incident_id = none;
    checked_at = 1030000;
  };
  quiet_hours = [];
}

abbrev config : SlackConfig
config = record {
  has_webhook_url = true;
  review_reminders_enabled = true;
  device_alerts_enabled = true;
}

-- 1970-01-02, a Friday, at 10:00 in Seoul
morning : review_reminder_slot 90000000 ≡ some 2040
unfolding review_reminder_slot
morning = refl

-- The second run in the same minute queues nothing.
reminded_once :
    (review_reminder_job config 3 90030000 21 (review_reminder_job config 3 90000000 20 []).0).1
    ≡ some 0
unfolding review_reminder_job review_reminder_slot insert_once find_notification
reminded_once = refl
