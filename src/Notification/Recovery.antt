-- ===== src/Notification/Recovery.antt =====
-- The order of an outage and its recovery in src/notifications/notification-dispatcher.service.ts.
use flyer_g_be.Base.{
  ℕ, ◌+◌, ◌==◌, ◌≡◌, inl, inr, refl, ap, subst, true, false, ◌&&◌, Bool-cases, Option, none, some,
  List, [], ◌∷◌, ◌∙◌, All, map, any, arith,
}
use flyer_g_be.Base.Keyed.{Apart, In-Apart}
use flyer_g_be.Notification.{Notification, Outbox, DedupeKey, same_key}
use flyer_g_be.Notification.Dispatcher.{
  is_unsettled, is_recovery, is_due, is_at_key, outage_of, has_unsettled_outage, at_id, taken_with,
  claim,
}
use flyer_g_be.Notification.Invariant.{IsWellFormed, expired-IsWellFormed, is_due-is_unsettled}
use flyer_g_be.Notification.Settled.{at_row}
use flyer_g_be.Notification.Cases.{expired, locked, idle, gave_up, took, claim-cases}

same-is_at_key :
    (key : Option DedupeKey) (r s : Notification)
    → r.dedupe_key ≡ s.dedupe_key
    → is_at_key key r ≡ is_at_key key s
same-is_at_key none r s e = refl
same-is_at_key (some key) r s e = ap (λ k. same_key k key) e

-- No outage becomes unsettled by what is set on unsettled rows.
no_outage-map :
    (key : Option DedupeKey) (set : Notification → Notification) (rows : List Notification)
    → ((r : Notification) → (set r).dedupe_key ≡ r.dedupe_key)
    → All (λ r. is_unsettled (set r).status ≡ is_unsettled r.status) rows
    → any (λ r. is_at_key key r && is_unsettled r.status) rows ≡ false
    → any (λ r. is_at_key key r && is_unsettled r.status) (map set rows) ≡ false
no_outage-map key set [] keys keep h = refl
no_outage-map key set (r ∷ rows) keys (keep, keeps) h =
    let same = same-is_at_key key (set r) r (keys r) in
    let rest = no_outage-map key set rows keys keeps in
    elim (Bool-cases (is_at_key key r)) [
      | inl e ↦ ground (arith, rest (ground arith))
      | inr e ↦ ground (arith, rest (ground arith))
    ]

-- What is set on the row that is taken keeps it unsettled.
taken-unsettled :
    (token attempts : ℕ) (rows : List Notification) (row : Notification)
    → is_unsettled row.status ≡ true
    → All (Apart (λ r. r.id) row) rows
    → All
        (λ r.
          is_unsettled (at_row row (taken_with token attempts) r).status ≡ is_unsettled r.status)
        rows
taken-unsettled token attempts [] row e h = tt
taken-unsettled token attempts (r ∷ rows) row e (h, hs) = (
  elim (Bool-cases (r.id == row.id)) [
    | inl same ↦ ground (arith, ap (λ x. is_unsettled x.status) (h (ground arith)))
    | inr other ↦ ground arith
  ],
  taken-unsettled token attempts rows row e hs,
)

-- When the message of a recovery is taken from a well-formed outbox to be sent, the one of its
-- outage (of the same device and incident) is neither waiting nor on its way any more.
pub claim-recovery :
    (now token : ℕ) (outbox : Outbox) (row : Notification)
    → IsWellFormed outbox.notifications
    → (claim now token outbox).1 ≡ some row
    → is_recovery row.kind ≡ true
    → has_unsettled_outage row (claim now token outbox).0.notifications ≡ false
unfolding has_unsettled_outage is_due
claim-recovery now token outbox row w taken kind =
    let rows = expired now token outbox in
    let d = (expired-IsWellFormed now outbox.notifications w).distinct in
    elim (claim-cases now token outbox) [
      | locked e n ↦ absurd (ground arith)
      | idle e n ↦ absurd (ground arith)
      | gave_up other i due e n ↦ absurd (ground arith)
      | took other i due few e n ↦
          let set = taken_with token (other.attempts + 1) in
          let same : set other ≡ row = ground arith in
          let recovers : is_recovery other.kind ≡ true = ap (λ r. is_recovery r.kind) same ∙ kind in
          let free : any (λ r. is_at_key (outage_of other) r && is_unsettled r.status) rows
              ≡ false =
            ground arith in
          let still =
            no_outage-map (outage_of other) (at_row other set) rows (λ r. ground arith)
              (taken-unsettled token (other.attempts + 1) rows other
                (is_due-is_unsettled now rows other due) (In-Apart (λ r. r.id) other rows i d))
              free in
          rw e (
            subst
              (λ r.
                any (λ x. is_at_key (outage_of r) x && is_unsettled x.status)
                  (at_id other.id set rows)
                ≡ false)
              same still)
    ]
