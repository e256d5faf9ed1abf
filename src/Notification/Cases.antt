-- ===== src/Notification/Cases.antt =====
-- What `claim` of src/notifications/notification-dispatcher.service.ts does, by cases.
use flyer_g_be.Base.{
  ℕ, ◌+◌, ◌<◌, ◌≡◌, inl, inr, true, Bool-cases, Option-cases, none, some, List, map, filter, leb,
  arith,
}
use flyer_g_be.Base.Keyed.{In}
use flyer_g_be.Notification.{Notification, Outbox}
use flyer_g_be.Notification.Dispatcher.{
  max_attempts, is_free, is_due, expire, oldest, at_id, given_up, taken_with, take_row, delivery_of,
  claim,
}
use flyer_g_be.Notification.Invariant.{oldest-is_due}

module _ (now token : ℕ) (outbox : Outbox) where
  abbrev pub expired : List Notification
  expired = map (expire now) outbox.notifications

  -- The lease is taken; no row may be taken; the oldest that may had its attempts; it is taken.
  pub data ClaimCase : Type 0 where
    locked :
        (claim now token outbox).0.notifications ≡ outbox.notifications
        → (claim now token outbox).1 ≡ none
        → ClaimCase
    idle :
        (claim now token outbox).0.notifications ≡ expired
        → (claim now token outbox).1 ≡ none
        → ClaimCase
    gave_up :
        (row : Notification)
        → In row expired
        → is_due now expired row ≡ true
        → (claim now token outbox).0.notifications ≡ at_id row.id given_up expired
        → (claim now token outbox).1 ≡ none
        → ClaimCase
    took :
        (row : Notification)
        → In row expired
        → is_due now expired row ≡ true
        → row.attempts < 5
        → (claim now token outbox).0.notifications
          ≡ at_id row.id (taken_with token (row.attempts + 1)) expired
        → (claim now token outbox).1 ≡ some (taken_with token (row.attempts + 1) row)
        → ClaimCase

  pub claim-cases : ClaimCase
  unfolding claim take_row
  claim-cases = elim (Bool-cases (is_free (delivery_of outbox now) now)) [
    | inr e ↦ locked (ground arith) (ground arith)
    | inl free ↦ elim (Option-cases (oldest (filter (is_due now expired) expired))) [
      | inl nothing ↦ idle (ground arith) (ground arith)
      | inr (row, found) ↦
          let (i, due) = oldest-is_due now expired row found in
          elim (Bool-cases (leb max_attempts row.attempts)) [
            | inl e ↦ gave_up row i due (ground arith) (ground arith)
            | inr e ↦ took row i due (ground arith) (ground arith) (ground arith)
          ]
    ]
  ]
