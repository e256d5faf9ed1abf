-- ===== src/Notification/Invariant.antt =====
-- What holds of every row of the outbox, through all that
-- src/notifications/notification-dispatcher.service.ts and the jobs write.
use flyer_g_be.Base.{
  ℕ, ◌+◌, ◌≤◌, ◌<◌, ◌≡◌, inl, inr, ap, subst, Bool, true, false, ◌==◌, Bool-cases, Option-cases,
  some, List, [], ◌∷◌, All, map, filter, is_some, arith, if◌then◌else◌,
}
use flyer_g_be.Base.Keyed.{
  In, In-filter, All-map, All-both, Distinct, Apart, In-Apart, Distinct-map,
}
use flyer_g_be.Notification.{NotificationStatus, sending, failed, Notification}
use flyer_g_be.Notification.Dispatcher.{
  is_unsettled, is_sent, is_due, expire, oldest, at_id, given_up, taken_with, comes_before,
}

abbrev pub is_sending : NotificationStatus → Bool
is_sending sending = true
is_sending _ = false

abbrev pub is_failed : NotificationStatus → Bool
is_failed failed = true
is_failed _ = false

-- A row has a claim token exactly while it is being sent, a time of sending exactly when it was
-- sent, an error when it failed and none when it was sent, and at most five attempts.
pub record IsSound (row : Notification) : Type 0 where
  pub claimed : is_some row.claim_token ≡ is_sending row.status
  pub stamped : is_some row.sent_at ≡ is_sent row.status
  pub explained : is_failed row.status ≡ true → is_some row.last_error ≡ true
  pub clean : is_sent row.status ≡ true → is_some row.last_error ≡ false
  pub few : row.attempts ≤ 5

expire-IsSound : (now : ℕ) (row : Notification) → IsSound row → IsSound (expire now row)
expire-IsSound now row h =
    let claimed = h.claimed in
    let stamped = h.stamped in
    let explained = h.explained in
    let clean = h.clean in
    let few = h.few in
    record {
      claimed = ground arith;
      stamped = ground arith;
      explained = λ e. ground arith;
      clean = λ e. ground arith;
      few = ground arith;
    }

-- The ids of the rows differ, and every row is sound.
pub record IsWellFormed (rows : List Notification) : Type 0 where
  pub distinct : Distinct (λ row. row.id) rows
  pub sound : All IsSound rows

oldest-In : (rows : List Notification) (row : Notification) → oldest rows ≡ some row → In row rows
unfolding oldest
oldest-In [] row e = absurd (ground arith)
oldest-In (r ∷ rows) row e = elim (Option-cases (oldest rows)) [
  | inl nothing ↦ inl (ground arith)
  | inr (other, found) ↦
      let i = oldest-In rows other found in
      elim (Bool-cases (comes_before r other)) [
        | inl h ↦ inl (ground arith)
        | inr h ↦ inr (subst (λ x. In x rows) (ground arith) i)
      ]
]

pub expired-IsWellFormed :
    (now : ℕ) (rows : List Notification) → IsWellFormed rows → IsWellFormed (map (expire now) rows)
expired-IsWellFormed now rows w = record {
  distinct = Distinct-map (λ row. row.id) (expire now) rows (λ row. ground arith) w.distinct;
  sound = All-map IsSound IsSound (expire now) rows (expire-IsSound now) w.sound;
}

-- The row that a claim chooses is among the rows, and may be taken.
pub oldest-is_due :
    (now : ℕ) (rows : List Notification) (row : Notification)
    → oldest (filter (is_due now rows) rows) ≡ some row
    → In row rows × (is_due now rows row ≡ true)
oldest-is_due now rows row e =
    In-filter (is_due now rows) row rows (oldest-In (filter (is_due now rows) rows) row e)

pub is_due-is_unsettled :
    (now : ℕ) (rows : List Notification) (row : Notification)
    → is_due now rows row ≡ true
    → is_unsettled row.status ≡ true
unfolding is_due
is_due-is_unsettled now rows row e = ground arith

pub given_up-IsSound :
    (row : Notification) → IsSound row → (is_unsettled row.status ≡ true) → IsSound (given_up row)
given_up-IsSound row h e =
    let claimed = h.claimed in
    let stamped = h.stamped in
    let few = h.few in
    record {
      claimed = ground arith;
      stamped = ground arith;
      explained = λ e. ground arith;
      clean = λ e. ground arith;
      few = ground arith;
    }

pub taken_with-IsSound :
    (token : ℕ) (row : Notification)
    → IsSound row
    → is_unsettled row.status ≡ true
    → row.attempts < 5
    → IsSound (taken_with token (row.attempts + 1) row)
taken_with-IsSound token row h e few =
    let stamped = h.stamped in
    record {
      claimed = ground arith;
      stamped = ground arith;
      explained = λ e. ground arith;
      clean = λ e. ground arith;
      few = ground arith;
    }

pub at_id-IsWellFormed :
    (set : Notification → Notification) (rows : List Notification) (row : Notification)
    → ((r : Notification) → (set r).id ≡ r.id)
    → IsWellFormed rows
    → In row rows
    → IsSound (set row)
    → IsWellFormed (at_id row.id set rows)
at_id-IsWellFormed set rows row keep w i h =
    let update : Notification → Notification = λ r. if r.id == row.id then set r else r in
    record {
      distinct = Distinct-map (λ r. r.id) update rows (λ r. ground (arith, keep r)) w.distinct;
      sound =
          All-map (λ r. IsSound r × Apart (λ s. s.id) row r) IsSound update rows
            (λ r (s, apart). elim (Bool-cases (r.id == row.id)) [
              | inl e ↦ subst IsSound (ground (arith, ap set (apart (ground arith)))) h
              | inr e ↦ subst IsSound (ground arith) s
            ])
            (All-both IsSound (Apart (λ s. s.id) row) (λ r. IsSound r × Apart (λ s. s.id) row r)
              rows (λ r s apart. (s, apart)) w.sound (In-Apart (λ s. s.id) row rows i w.distinct));
    }
