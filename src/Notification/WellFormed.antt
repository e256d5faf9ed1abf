-- ===== src/Notification/WellFormed.antt =====
-- The rows of the outbox stay well formed over any run of several processes.
use flyer_g_be.Base.{
  ℕ, ◌+◌, ◌≡◌, ◌≢◌, ◌⊎◌, inl, inr, refl, sym, subst, Bool-cases, Option-cases, List, [], ◌∷◌, ◌++◌,
  All, map, arith,
}
use flyer_g_be.Base.Keyed.{All-In, All-map, All-append, Distinct-map, Distinct-append}
use flyer_g_be.Notification.{Notification, Outbox, insert_once, find_notification}
use flyer_g_be.Notification.Dispatcher.{
  has_token, given_up, taken_with, claim, Outcome, finish, settle, delivered, irrelevant,
  undelivered,
}
use flyer_g_be.Notification.Invariant.{
  IsSound, IsWellFormed, expired-IsWellFormed, given_up-IsSound, taken_with-IsSound,
  at_id-IsWellFormed, is_due-is_unsettled,
}
use flyer_g_be.Notification.Cases.{expired, locked, idle, gave_up, took, claim-cases}
use flyer_g_be.Notification.Runs.{Event, claims, finishes, queues, step, run}

-- A new message gets a new id and the values of an insert.
abbrev pub Valid : Event → Outbox → Type 0
Valid (queues new) outbox = All (λ row. row.id ≢ new.id) outbox.notifications × IsSound new
Valid _ outbox = Unit

abbrev pub ValidRun : List Event → Outbox → Type 0
ValidRun [] outbox = Unit
ValidRun (event ∷ events) outbox = Valid event outbox × ValidRun events (step event outbox)

settle-IsSound :
    (taken : Notification) (outcome : Outcome) (finished_at : ℕ) (row : Notification)
    → IsSound row
    → IsSound (settle taken outcome finished_at row)
settle-IsSound taken outcome finished_at row h =
    let claimed = h.claimed in
    let stamped = h.stamped in
    let explained = h.explained in
    let clean = h.clean in
    let few = h.few in
    elim outcome [
      | delivered ↦ record {
        claimed = ground arith;
        stamped = ground arith;
        explained = λ e. ground arith;
        clean = λ e. ground arith;
        few = ground arith;
      }
      | irrelevant ↦ record {
        claimed = ground arith;
        stamped = ground arith;
        explained = λ e. ground arith;
        clean = λ e. ground arith;
        few = ground arith;
      }
      | undelivered code retryable retry_after_ms ↦ record {
        claimed = ground arith;
        stamped = ground arith;
        explained = λ e. ground arith;
        clean = λ e. ground arith;
        few = ground arith;
      }
    ]

pub finish-cases :
    (taken : Notification) (outcome : Outcome) (finished_at : ℕ) (outbox : Outbox)
    → ((finish taken outcome finished_at outbox).notifications ≡ outbox.notifications)
      ⊎ ((finish taken outcome finished_at outbox).notifications
          ≡ map (settle taken outcome finished_at) outbox.notifications)
unfolding finish
finish-cases taken outcome finished_at outbox = elim (Option-cases outbox.delivery) [
  | inl e ↦ inl (ground arith)
  | inr (state, e) ↦ elim (Bool-cases (has_token state.claim_token taken.claim_token)) [
    | inl held ↦ inr (ground arith)
    | inr lost ↦ inl (ground arith)
  ]
]

finish-IsWellFormed :
    (taken : Notification) (outcome : Outcome) (finished_at : ℕ) (outbox : Outbox)
    → IsWellFormed outbox.notifications
    → IsWellFormed (finish taken outcome finished_at outbox).notifications
finish-IsWellFormed taken outcome finished_at outbox w =
    elim (finish-cases taken outcome finished_at outbox) [
      | inl e ↦ subst IsWellFormed (sym e) w
      | inr e ↦ subst IsWellFormed (sym e) (record {
        distinct =
            Distinct-map (λ row. row.id) (settle taken outcome finished_at) outbox.notifications
              (λ row. ground arith) w.distinct;
        sound =
            All-map IsSound IsSound (settle taken outcome finished_at) outbox.notifications
              (settle-IsSound taken outcome finished_at) w.sound;
      })
    ]

claim-IsWellFormed :
    (now token : ℕ) (outbox : Outbox)
    → IsWellFormed outbox.notifications
    → IsWellFormed (claim now token outbox).0.notifications
claim-IsWellFormed now token outbox w =
    let w' = expired-IsWellFormed now outbox.notifications w in
    elim (claim-cases now token outbox) [
      | locked e n ↦ subst IsWellFormed (sym e) w
      | idle e n ↦ subst IsWellFormed (sym e) w'
      | gave_up row i due e n ↦ subst IsWellFormed (sym e) (
          at_id-IsWellFormed given_up (expired now token outbox) row (λ r. refl) w' i
            (given_up-IsSound row (All-In IsSound row (expired now token outbox) w'.sound i)
              (is_due-is_unsettled now (expired now token outbox) row due)))
      | took row i due few e n ↦ subst IsWellFormed (sym e) (
          at_id-IsWellFormed (taken_with token (row.attempts + 1)) (expired now token outbox) row
            (λ r. refl) w' i
            (taken_with-IsSound token row (All-In IsSound row (expired now token outbox) w'.sound i)
              (is_due-is_unsettled now (expired now token outbox) row due) few))
    ]

pub queue-cases :
    (new : Notification) (rows : List Notification)
    → ((insert_once new rows).0 ≡ rows) ⊎ ((insert_once new rows).0 ≡ rows ++ new ∷ [])
unfolding insert_once
queue-cases new rows = elim (Option-cases (find_notification new.dedupe_key rows)) [
  | inl e ↦ inr (ground arith)
  | inr (row, e) ↦ inl (ground arith)
]

queue-IsWellFormed :
    (new : Notification) (outbox : Outbox)
    → Valid (queues new) outbox
    → IsWellFormed outbox.notifications
    → IsWellFormed (insert_once new outbox.notifications).0
queue-IsWellFormed new outbox (fresh, sound) w = elim (queue-cases new outbox.notifications) [
  | inl e ↦ subst IsWellFormed (sym e) w
  | inr e ↦ subst IsWellFormed (sym e) (record {
    distinct = Distinct-append (λ row. row.id) outbox.notifications new w.distinct fresh;
    sound = All-append IsSound outbox.notifications new w.sound sound;
  })
]

pub step-IsWellFormed :
    (event : Event) (outbox : Outbox)
    → Valid event outbox
    → IsWellFormed outbox.notifications
    → IsWellFormed (step event outbox).notifications
step-IsWellFormed (claims now token) outbox v w = claim-IsWellFormed now token outbox w
step-IsWellFormed (finishes taken outcome finished_at) outbox v w =
    finish-IsWellFormed taken outcome finished_at outbox w
step-IsWellFormed (queues new) outbox v w = queue-IsWellFormed new outbox v w

-- Over any run of several processes in which each new message has an id of its own and the values
-- of an insert, the outbox stays well formed: the ids differ, a row has a claim token exactly
-- while it is being sent, a time of sending exactly if it was sent, an error if it failed and none
-- if it was sent, and at most five attempts.
pub run-IsWellFormed :
    (events : List Event) (outbox : Outbox)
    → ValidRun events outbox
    → IsWellFormed outbox.notifications
    → IsWellFormed (run events outbox).notifications
run-IsWellFormed [] outbox v w = w
run-IsWellFormed (event ∷ events) outbox (v, vs) w =
    run-IsWellFormed events (step event outbox) vs (step-IsWellFormed event outbox v w)
