-- ===== src/Notification/Attempts.antt =====
-- How often src/notifications/notification-dispatcher.service.ts takes a message to send it.
use flyer_g_be.Base.{
  ℕ, ◌+◌, ◌≤◌, ◌==◌, ◌≡◌, inl, inr, subst, false, Bool-cases, Option-cases, Option, none, some,
  List, [], ◌∷◌, ◌++◌, All, map, find?, arith, if◌then◌else◌,
}
use flyer_g_be.Base.Keyed.{In, Distinct, In-Apart, find?-Apart, find?-map, find?-In}
use flyer_g_be.Notification.{Notification, Outbox}
use flyer_g_be.Notification.Dispatcher.{expire, at_id, given_up, taken_with, claim, settle}
use flyer_g_be.Notification.Invariant.{IsSound, IsWellFormed, expired-IsWellFormed}
use flyer_g_be.Notification.Cases.{expired, locked, idle, gave_up, took, claim-cases}
use flyer_g_be.Notification.WellFormed.{ValidRun, step-IsWellFormed, finish-cases, queue-cases}
use flyer_g_be.Notification.Settled.{at_row}
use flyer_g_be.Notification.Runs.{Event, claims, finishes, queues, step}

abbrev row_attempts : Option Notification → ℕ
row_attempts none = 0
row_attempts (some row) = row.attempts

abbrev attempts_of : ℕ → List Notification → ℕ
attempts_of id rows = row_attempts (find? (λ r. r.id == id) rows)

abbrev is_row : ℕ → Option Notification → ℕ
is_row id none = 0
is_row id (some row) = if row.id == id then 1 else 0

-- How often a run takes the message with an id to send it.
abbrev pub taken_in : ℕ → Event → Outbox → ℕ
taken_in id (claims now token) outbox = is_row id (claim now token outbox).1
taken_in id _ outbox = 0

abbrev pub sends : ℕ → List Event → Outbox → ℕ
sends id [] outbox = 0
sends id (event ∷ events) outbox = taken_in id event outbox + sends id events (step event outbox)

attempts_of-map :
    (set : Notification → Notification) (id : ℕ) (rows : List Notification)
    → ((row : Notification) → (set row).id ≡ row.id)
    → ((row : Notification) → (set row).attempts ≡ row.attempts)
    → attempts_of id (map set rows) ≡ attempts_of id rows
attempts_of-map set id rows keep same = elim (Option-cases (find? (λ r. r.id == id) rows)) [
  | inl e ↦ ground (arith, find?-map (λ r. r.id) set id rows keep)
  | inr (row, e) ↦ ground (arith, find?-map (λ r. r.id) set id rows keep, same row)
]

attempts_of-took :
    (token id : ℕ) (rows : List Notification) (row : Notification)
    → Distinct (λ r. r.id) rows
    → In row rows
    → attempts_of id (at_id row.id (taken_with token (row.attempts + 1)) rows)
      ≡ attempts_of id rows + is_row id (some row)
attempts_of-took token id rows row d i =
    let set = taken_with token (row.attempts + 1) in
    let mapped = find?-map (λ r. r.id) (at_row row set) id rows (λ r. ground arith) in
    let found = find?-Apart (λ r. r.id) row rows i (In-Apart (λ r. r.id) row rows i d) in
    elim (Bool-cases (row.id == id)) [
      | inl e ↦
          let same : row.id ≡ id = ground arith in
          let there : find? (λ r. r.id == id) rows ≡ some row =
            subst (λ k. find? (λ r. r.id == k) rows ≡ some row) same found in
          ground arith
      | inr e ↦ elim (Option-cases (find? (λ r. r.id == id) rows)) [
        | inl n ↦ ground arith
        | inr (other, n) ↦
            let (j, k) = find?-In (λ r. r.id == id) rows other n in
            let apart : (other.id == row.id) ≡ false = ground arith in ground arith
      ]
    ]

-- Each time a message is taken, its attempts grow by one.
claim-attempts :
    (now token id : ℕ) (outbox : Outbox)
    → IsWellFormed outbox.notifications
    → taken_in id (claims now token) outbox + attempts_of id outbox.notifications
      ≡ attempts_of id (claim now token outbox).0.notifications
claim-attempts now token id outbox w =
    let rows = expired now token outbox in
    let kept : attempts_of id rows ≡ attempts_of id outbox.notifications =
      attempts_of-map (expire now) id outbox.notifications (λ r. ground arith)
        (λ r. ground arith) in
    elim (claim-cases now token outbox) [
      | locked e n ↦ rw (e, n) (omega arith)
      | idle e n ↦ rw (e, n) (omega (arith, kept))
      | gave_up row i due e n ↦
          let same =
            attempts_of-map (at_row row given_up) id rows (λ r. ground arith) (λ r. ground arith) in
          rw (e, n) (omega (arith, kept, same))
      | took row i due few e n ↦
          let d = (expired-IsWellFormed now outbox.notifications w).distinct in
          let grown = attempts_of-took token id rows row d i in
          rw (e, n) (omega (arith, kept, grown))
    ]

attempts_of-append :
    (id : ℕ) (new : Notification) (rows : List Notification)
    → attempts_of id rows ≤ attempts_of id (rows ++ new ∷ [])
attempts_of-append id new [] = omega arith
attempts_of-append id new (r ∷ rows) = ground (arith, attempts_of-append id new rows)

step-attempts :
    (id : ℕ) (event : Event) (outbox : Outbox)
    → IsWellFormed outbox.notifications
    → taken_in id event outbox + attempts_of id outbox.notifications
      ≤ attempts_of id (step event outbox).notifications
step-attempts id (claims now token) outbox w =
    let counted = claim-attempts now token id outbox w in omega (arith, counted)
step-attempts id (finishes taken outcome finished_at) outbox w =
    elim (finish-cases taken outcome finished_at outbox) [
      | inl e ↦ rw e (omega arith)
      | inr e ↦
          let kept =
            attempts_of-map (settle taken outcome finished_at) id outbox.notifications
              (λ r. ground arith) (λ r. ground arith) in
          rw e (omega (arith, kept))
    ]
step-attempts id (queues new) outbox w = elim (queue-cases new outbox.notifications) [
  | inl e ↦ rw e (omega arith)
  | inr e ↦ let more = attempts_of-append id new outbox.notifications in rw e (omega (arith, more))
]

attempts_of-le : (id : ℕ) (rows : List Notification) → All IsSound rows → attempts_of id rows ≤ 5
attempts_of-le id [] h = omega arith
attempts_of-le id (r ∷ rows) (h, hs) = let few = h.few in ground (arith, attempts_of-le id rows hs)

sends-attempts :
    (id : ℕ) (events : List Event) (outbox : Outbox)
    → ValidRun events outbox
    → IsWellFormed outbox.notifications
    → sends id events outbox + attempts_of id outbox.notifications ≤ 5
sends-attempts id [] outbox v w =
    let few = attempts_of-le id outbox.notifications w.sound in omega (arith, few)
sends-attempts id (event ∷ events) outbox (v, vs) w =
    let later =
      sends-attempts id events (step event outbox) vs (step-IsWellFormed event outbox v w) in
    let first = step-attempts id event outbox w in omega (arith, later, first)

-- In a well-formed outbox and over any run of several processes in which each new message has an
-- id of its own, no message is taken to be sent more than five times, whatever comes of the
-- deliveries and however often a process is lost.
pub sends-le :
    (id : ℕ) (events : List Event) (outbox : Outbox)
    → ValidRun events outbox
    → IsWellFormed outbox.notifications
    → sends id events outbox ≤ 5
sends-le id events outbox v w =
    let bound = sends-attempts id events outbox v w in omega (arith, bound)
