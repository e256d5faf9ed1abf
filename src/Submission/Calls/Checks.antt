-- ===== src/Submission/Calls/Checks.antt =====
-- What the checks of a call establish, and the graph of the statuses.
use flyer_g_be.Base.{ℕ, String, ◌≡◌, ◌≢◌, inl, inr, some, none, Option-cases, arith}
use flyer_g_be.Failure.{ok}
use flyer_g_be.Submission.Data.{
  Status, draft, pending_review, rejected, approved, scheduled, published, suspended, canceled,
  Submission, RejectReasonCode, AuthUser, Db,
}
use flyer_g_be.Submission.Store.{find_row, find_pending}
use flyer_g_be.Submission.Store.Laws.{find_row-id, find_row_again}
use flyer_g_be.Submission.Requests.{submit_check, cancel_check}
use flyer_g_be.Submission.Reviews.{approve_check, suspend_check}
use flyer_g_be.Submission.Writes.{Write, current_of, status_after}
use flyer_g_be.Submission.Calls.{Call, submit, cancel, approve, reject, suspend, prepare}

-- The edges of the status graph that a user or a reviewer takes.
abbrev pub Allowed : Status → Status → Type 0
Allowed draft pending_review = Unit
Allowed rejected pending_review = Unit
Allowed suspended pending_review = Unit
Allowed draft canceled = Unit
Allowed pending_review canceled = Unit
Allowed rejected canceled = Unit
Allowed approved canceled = Unit
Allowed scheduled canceled = Unit
Allowed pending_review scheduled = Unit
Allowed pending_review published = Unit
Allowed pending_review rejected = Unit
Allowed approved suspended = Unit
Allowed scheduled suspended = Unit
Allowed published suspended = Unit
Allowed _ _ = ⊥

abbrev pub id_of : Call → ℕ
id_of (submit actor id version) = id
id_of (cancel actor id version) = id
id_of (approve reviewer id revision) = id
id_of (reject reviewer id revision reason_code comment) = id
id_of (suspend actor id reason) = id

-- The checks read the row, change nothing, and let through only an edge of the graph.
pub record IsPrepared (c : Call) (db after : Db) (w : Write) : Type 0 where
  pub target : (current_of w).id ≡ id_of c
  pub unchanged : after ≡ db
  pub read : find_row (current_of w).id db.submissions ≡ some (current_of w)
  pub allowed : Allowed (current_of w).status (status_after w)

-- A call on a row that is not there throws.
prepare_absent :
    (c : Call) (now : ℕ) (db after : Db) (w : Write)
    → find_row (id_of c) db.submissions ≡ none
    → prepare c now db ≢ (ok w, after)
unfolding prepare submit_check cancel_check approve_check suspend_check find_pending
prepare_absent (submit actor id version) now db after w e h = ground arith
prepare_absent (cancel actor id version) now db after w e h = ground arith
prepare_absent (approve reviewer id revision) now db after w e h = ground arith
prepare_absent (reject reviewer id revision reason_code comment) now db after w e h = ground arith
prepare_absent (suspend actor id reason) now db after w e h = ground arith

abbrev Passed : Db → Db → Write → Submission → Type 0
Passed db after w r = (after ≡ db) × (current_of w ≡ r) × Allowed r.status (status_after w)

submit-Passed :
    (actor : AuthUser) (id version : ℕ) (now : ℕ) (db after : Db) (w : Write) (r : Submission)
    → find_row id db.submissions ≡ some r
    → prepare (submit actor id version) now db ≡ (ok w, after)
    → Passed db after w r
unfolding prepare submit_check status_after
submit-Passed actor id version now db after w r e h = (ground arith, ground arith, ground arith)

cancel-Passed :
    (actor : AuthUser) (id version : ℕ) (now : ℕ) (db after : Db) (w : Write) (r : Submission)
    → find_row id db.submissions ≡ some r
    → prepare (cancel actor id version) now db ≡ (ok w, after)
    → Passed db after w r
unfolding prepare cancel_check status_after
cancel-Passed actor id version now db after w r e h = (ground arith, ground arith, ground arith)

approve-Passed :
    (reviewer : AuthUser) (id revision : ℕ) (now : ℕ) (db after : Db) (w : Write) (r : Submission)
    → find_row id db.submissions ≡ some r
    → prepare (approve reviewer id revision) now db ≡ (ok w, after)
    → Passed db after w r
unfolding prepare approve_check status_after
approve-Passed reviewer id revision now db after w r e h =
    (ground arith, ground arith, ground arith)

reject-Passed :
    (reviewer : AuthUser) (id revision : ℕ) (reason_code : RejectReasonCode) (comment : String)
    (now : ℕ) (db after : Db) (w : Write) (r : Submission)
    → find_row id db.submissions ≡ some r
    → prepare (reject reviewer id revision reason_code comment) now db ≡ (ok w, after)
    → Passed db after w r
unfolding prepare find_pending status_after
reject-Passed reviewer id revision reason_code comment now db after w r e h =
    (ground arith, ground arith, ground arith)

suspend-Passed :
    (actor : AuthUser) (id : ℕ) (reason : String) (now : ℕ) (db after : Db) (w : Write)
    (r : Submission)
    → find_row id db.submissions ≡ some r
    → prepare (suspend actor id reason) now db ≡ (ok w, after)
    → Passed db after w r
unfolding prepare suspend_check status_after
suspend-Passed actor id reason now db after w r e h = (ground arith, ground arith, ground arith)

prepare-Passed :
    (c : Call) (now : ℕ) (db after : Db) (w : Write) (r : Submission)
    → find_row (id_of c) db.submissions ≡ some r
    → prepare c now db ≡ (ok w, after)
    → Passed db after w r
prepare-Passed (submit actor id version) = submit-Passed actor id version
prepare-Passed (cancel actor id version) = cancel-Passed actor id version
prepare-Passed (approve reviewer id revision) = approve-Passed reviewer id revision
prepare-Passed (reject reviewer id revision reason_code comment) =
    reject-Passed reviewer id revision reason_code comment
prepare-Passed (suspend actor id reason) = suspend-Passed actor id reason

-- If the checks of a call pass, they have read the row that the call names, changed nothing, and
-- the status to be written is an edge of the status graph from the status that was read.
pub prepare-IsPrepared :
    (c : Call) (now : ℕ) (db after : Db) (w : Write)
    → prepare c now db ≡ (ok w, after)
    → IsPrepared c db after w
prepare-IsPrepared c now db after w h = elim (Option-cases (find_row (id_of c) db.submissions)) [
  | inl e ↦ absurd (prepare_absent c now db after w e h)
  | inr (r, e) ↦
      let (same, current, allowed) = prepare-Passed c now db after w r e h in
      record {
        target = rw current (find_row-id (id_of c) db.submissions r e);
        unchanged = same;
        read = rw current (find_row_again (id_of c) db.submissions r e);
        allowed = rw current allowed;
      }
]
