-- ===== src/Notification/Settled.antt =====
-- What becomes of a message in the outbox, over any run of several processes: when it stays as it is.
use flyer_g_be.Base.{
  ℕ, ◌+◌, ◌==◌, ◌≡◌, inl, inr, sym, ap, subst, true, false, Bool-cases, List, [], ◌∷◌, arith,
  if◌then◌else◌,
}
use flyer_g_be.Base.Keyed.{In, All-In, In-map, In-append, Distinct, Apart, In-Apart}
use flyer_g_be.Notification.{Notification, Outbox}
use flyer_g_be.Notification.Dispatcher.{
  is_unsettled, expire, at_id, given_up, taken_with, claim, settle,
}
use flyer_g_be.Notification.Invariant.{
  IsSound, IsWellFormed, expired-IsWellFormed, is_due-is_unsettled,
}
use flyer_g_be.Notification.Cases.{expired, locked, idle, gave_up, took, claim-cases}
use flyer_g_be.Notification.WellFormed.{ValidRun, step-IsWellFormed, finish-cases, queue-cases}
use flyer_g_be.Notification.Runs.{Event, claims, finishes, queues, step, run}

abbrev pub at_row : Notification → (Notification → Notification) → Notification → Notification
at_row row set r = if r.id == row.id then set r else r

-- Writing a row that is unsettled leaves the settled ones.
at_id-settled :
    (set : Notification → Notification) (rows : List Notification) (other row : Notification)
    → Distinct (λ r. r.id) rows
    → In other rows
    → is_unsettled other.status ≡ true
    → In row rows
    → is_unsettled row.status ≡ false
    → In row (at_id other.id set rows)
at_id-settled set rows other row d j unsettled i settled =
    let apart = All-In (Apart (λ r. r.id) other) row rows (In-Apart (λ r. r.id) other rows j d) i in
    In-map (at_row other set) row rows i (elim (Bool-cases (row.id == other.id)) [
      | inl e ↦ absurd (ground (arith, ap (λ r. is_unsettled r.status) (apart (ground arith))))
      | inr e ↦ ground arith
    ])

claim-settled :
    (now token : ℕ) (outbox : Outbox) (row : Notification)
    → IsWellFormed outbox.notifications
    → In row outbox.notifications
    → is_unsettled row.status ≡ false
    → In row (claim now token outbox).0.notifications
claim-settled now token outbox row w i settled =
    let rows = expired now token outbox in
    let i' : In row rows = In-map (expire now) row outbox.notifications i (ground arith) in
    let d = (expired-IsWellFormed now outbox.notifications w).distinct in
    elim (claim-cases now token outbox) [
      | locked e n ↦ subst (In row) (sym e) i
      | idle e n ↦ subst (In row) (sym e) i'
      | gave_up other j due e n ↦ subst (In row) (sym e) (
          at_id-settled given_up rows other row d j (is_due-is_unsettled now rows other due) i'
            settled)
      | took other j due few e n ↦ subst (In row) (sym e) (
          at_id-settled (taken_with token (other.attempts + 1)) rows other row d j
            (is_due-is_unsettled now rows other due) i' settled)
    ]

step-settled :
    (event : Event) (outbox : Outbox) (row : Notification)
    → IsWellFormed outbox.notifications
    → In row outbox.notifications
    → is_unsettled row.status ≡ false
    → In row (step event outbox).notifications
step-settled (claims now token) outbox row w i settled =
    claim-settled now token outbox row w i settled
step-settled (finishes taken outcome finished_at) outbox row w i settled =
    let sound = All-In IsSound row outbox.notifications w.sound i in
    let claimed = sound.claimed in
    elim (finish-cases taken outcome finished_at outbox) [
      | inl e ↦ subst (In row) (sym e) i
      | inr e ↦
          subst (In row) (sym e)
            (In-map (settle taken outcome finished_at) row outbox.notifications i (ground arith))
    ]
step-settled (queues new) outbox row w i settled = elim (queue-cases new outbox.notifications) [
  | inl e ↦ subst (In row) (sym e) i
  | inr e ↦ subst (In row) (sym e) (In-append (new ∷ []) row outbox.notifications i)
]

-- In a well-formed outbox a message that was sent, has failed or was canceled stays as it is,
-- whatever the processes do afterwards, as long as each new message has an id of its own and the
-- values of an insert.
pub run-settled :
    (events : List Event) (outbox : Outbox) (row : Notification)
    → ValidRun events outbox
    → IsWellFormed outbox.notifications
    → In row outbox.notifications
    → is_unsettled row.status ≡ false
    → In row (run events outbox).notifications
run-settled [] outbox row v w i settled = i
run-settled (event ∷ events) outbox row (v, vs) w i settled =
    run-settled events (step event outbox) row vs (step-IsWellFormed event outbox v w)
      (step-settled event outbox row w i settled) settled
