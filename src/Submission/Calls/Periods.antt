-- ===== src/Submission/Calls/Periods.antt =====
-- The table's checks on the period (src/db/schema.ts) hold after every call: the services read
-- `startAt!` and `endAt!` of accepted rows on the strength of them.
use flyer_g_be.Base.{
  ℕ, String, ◌≡◌, sym, subst, Bool, true, false, Bool-cases, inl, inr, some, List, [], ◌∷◌, All,
  map, ◌==◌, ==_iff, if◌then◌else◌, arith,
}
use flyer_g_be.Failure.{ok}
use flyer_g_be.Submission.Data.{Submission, RejectReasonCode, AuthUser, Db}
use flyer_g_be.Submission.Store.{find_row, find_pending, transit, update_rows, is_current}
use flyer_g_be.Submission.Requests.{submit_check, cancel_check}
use flyer_g_be.Submission.Reviews.{approve_check, suspend_check}
use flyer_g_be.Submission.StatusJob.{sync}
use flyer_g_be.Submission.StatusJob.Effective.{IsChecked, placed, sync-placed}
use flyer_g_be.Submission.StatusJob.Settled.{placed-IsChecked}
use flyer_g_be.Submission.Store.Laws.{update_rows_of_count_zero}
use flyer_g_be.Submission.History.Steps.{IsKeyed, IsKeyed-Evolves, count-eq-zero}
use flyer_g_be.Submission.Writes.Locking.{commit-current}
use flyer_g_be.Submission.Calls.Checks.{prepare-IsPrepared}
use flyer_g_be.Submission.Writes.{Write, current_of, status_after, commit, Reach}
use flyer_g_be.Submission.Writes.Evolution.{time_of, extra_of, commit-cases, Reach-Evolves}
use flyer_g_be.Submission.Calls.{Call, submit, cancel, approve, reject, suspend, prepare}

abbrev written : Write → Submission
written w = transit (current_of w) (status_after w) (time_of w) (extra_of w) (current_of w)

submit_period :
    (actor : AuthUser) (id version : ℕ) (now : ℕ) (db after : Db) (w : Write)
    → prepare (submit actor id version) now db ≡ (ok w, after)
    → IsChecked (current_of w)
    → IsChecked (written w)
unfolding prepare submit_check status_after transit
submit_period actor id version now db after w h c = ground arith

cancel_period :
    (actor : AuthUser) (id version : ℕ) (now : ℕ) (db after : Db) (w : Write)
    → prepare (cancel actor id version) now db ≡ (ok w, after)
    → IsChecked (current_of w)
    → IsChecked (written w)
unfolding prepare cancel_check status_after transit
cancel_period actor id version now db after w h c = ground arith

reject_period :
    (reviewer : AuthUser) (id revision : ℕ) (reason_code : RejectReasonCode) (comment : String)
    (now : ℕ) (db after : Db) (w : Write)
    → prepare (reject reviewer id revision reason_code comment) now db ≡ (ok w, after)
    → IsChecked (current_of w)
    → IsChecked (written w)
unfolding prepare find_pending status_after transit
reject_period reviewer id revision reason_code comment now db after w h c = ground arith

suspend_period :
    (actor : AuthUser) (id : ℕ) (reason : String) (now : ℕ) (db after : Db) (w : Write)
    → prepare (suspend actor id reason) now db ≡ (ok w, after)
    → IsChecked (current_of w)
    → IsChecked (written w)
unfolding prepare suspend_check status_after transit
suspend_period actor id reason now db after w h c = ground arith

approve_period :
    (reviewer : AuthUser) (id revision : ℕ) (now : ℕ) (db after : Db) (w : Write)
    → prepare (approve reviewer id revision) now db ≡ (ok w, after)
    → IsChecked (current_of w)
    → IsChecked (written w)
unfolding prepare approve_check find_pending status_after transit
approve_period reviewer id revision now db after w h c = ground arith

prepare-IsChecked :
    (c : Call) (now : ℕ) (db after : Db) (w : Write)
    → prepare c now db ≡ (ok w, after)
    → IsChecked (current_of w)
    → IsChecked (written w)
prepare-IsChecked (submit actor id version) = submit_period actor id version
prepare-IsChecked (cancel actor id version) = cancel_period actor id version
prepare-IsChecked (approve reviewer id revision) = approve_period reviewer id revision
prepare-IsChecked (reject reviewer id revision reason_code comment) =
    reject_period reviewer id revision reason_code comment
prepare-IsChecked (suspend actor id reason) = suspend_period actor id reason

All-found :
    (id : ℕ) (rows : List Submission) (r : Submission)
    → All IsChecked rows
    → find_row id rows ≡ some r
    → IsChecked r
unfolding find_row
All-found id [] r h e = cc
All-found id (s ∷ rows) r (c, h) e = elim (Bool-cases (s.id == id)) [
  | inl same ↦ let is : s ≡ r = ground arith in subst IsChecked is c
  | inr other ↦ All-found id rows r h (ground arith)
]

if_IsChecked :
    (b : Bool) (x y : Submission) → IsChecked x → IsChecked y → IsChecked (if b then x else y)
if_IsChecked true x y p q = p
if_IsChecked false x y p q = q

-- With the key, the conditional write changes the row that was read and no other.
All-written :
    (cur : Submission) (set : Submission → Submission) (rows : List Submission)
    → IsKeyed rows
    → find_row cur.id rows ≡ some cur
    → IsChecked (set cur)
    → All IsChecked rows
    → All IsChecked (update_rows (is_current cur) set rows)
unfolding find_row update_rows
All-written cur set [] key e c h = tt
All-written cur set (r ∷ rows) (fresh, key) e c (k, h) = elim (Bool-cases (r.id == cur.id)) [
  | inl same ↦
      let is : r ≡ cur = ground arith in
      let rest : update_rows (is_current cur) set rows ≡ rows =
        update_rows_of_count_zero (is_current cur) set rows
          (count-eq-zero cur rows ((==_iff _ _).0 same) fresh) in
      (
        if_IsChecked (is_current cur r) (set r) r (subst (λ x. IsChecked (set x)) (sym is) c) k,
        subst (All IsChecked) (sym rest) h,
      )
  | inr other ↦
      let miss : is_current cur r ≡ false = ground arith in
      (rw miss k, All-written cur set rows key (ground arith) c h)
]

-- In a table keyed by id, whatever is written between the checks of a call and its transaction,
-- the transaction keeps the checks of the table on the period, whether it succeeds or not.
pub commit-IsChecked :
    (c : Call) (now : ℕ) (db later : Db) (w : Write)
    → IsKeyed db.submissions
    → prepare c now db ≡ (ok w, db)
    → Reach db later
    → All IsChecked later.submissions
    → All IsChecked (commit w later).1.submissions
commit-IsChecked c now db later w key prepared steps h = elim (commit-cases w later) [
  | inl failed ↦ rw failed h
  | inr wrote ↦
      let checked = prepare-IsPrepared c now db db w prepared in
      let there = commit-current w db later key checked.read steps wrote.done in
      let key' = IsKeyed-Evolves db.submissions later.submissions (Reach-Evolves steps) key in
      let was = All-found (current_of w).id later.submissions (current_of w) h there in
      rw wrote.rows (
        All-written (current_of w) _ later.submissions key' there
          (prepare-IsChecked c now db db w prepared was) h)
]

All-placed :
    (now : ℕ) (rows : List Submission) → All IsChecked rows → All IsChecked (map (placed now) rows)
All-placed now [] h = tt
All-placed now (r ∷ rows) (c, h) = (placed-IsChecked now r c, All-placed now rows h)

-- A run of the status job keeps the checks of the table on the period.
sync-IsChecked :
    (now : ℕ) (db : Db) → All IsChecked db.submissions → All IsChecked (sync now db).0.submissions
sync-IsChecked now db h =
    subst (All IsChecked) (sym (sync-placed now db h)) (All-placed now db.submissions h)
