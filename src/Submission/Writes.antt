-- ===== src/Submission/Writes.antt =====
-- The transactions of src/submissions/submissions.service.ts and src/reviews/reviews.service.ts
-- that write a submission which is there, each with the row that its request read before, and the
-- runs of src/jobs/submission-status.job.ts. Reading changes nothing, so whatever the order in which
-- requests read and write, the rows that are there go through a sequence of these.
pub mod Evolution
pub mod Locking
use flyer_g_be.Base.{ℕ, String}
use flyer_g_be.Submission.Data.{
  Status, pending_review, canceled, Submission, RejectReasonCode, Db, AuthUser,
}
use flyer_g_be.Submission.Store.{Service}
use flyer_g_be.Submission.Requests.{submit_commit, cancel_commit}
use flyer_g_be.Submission.Reviews.{Approval, approve_commit, reject_commit, suspend_commit}
use flyer_g_be.Submission.Update.Call.{Edit, update_commit}
use flyer_g_be.Submission.StatusJob.{run}

pub data Write : Type 0 where
  submit : AuthUser → Submission → (now : ℕ) → Write
  cancel : AuthUser → Submission → (now : ℕ) → Write
  approve : AuthUser → Approval → (now : ℕ) → Write
  reject : AuthUser → Submission → RejectReasonCode → String → (now : ℕ) → Write
  suspend : AuthUser → Submission → String → (now : ℕ) → Write

-- The row that the request read.
abbrev pub current_of : Write → Submission
current_of (submit actor current now) = current
current_of (cancel actor current now) = current
current_of (approve reviewer plan now) = plan.current
current_of (reject reviewer current reason_code comment now) = current
current_of (suspend actor current reason now) = current

-- What the status of a row becomes by a write.
unfoldable pub status_after : Write → Status
status_after (submit actor current now) = pending_review
status_after (cancel actor current now) = canceled
status_after (approve reviewer plan now) = plan.status
status_after (reject reviewer current reason_code comment now) = Status.rejected
status_after (suspend actor current reason now) = Status.suspended

unfoldable pub commit : Write → Service Unit
unfolding submit_commit cancel_commit approve_commit reject_commit suspend_commit
commit (submit actor current now) = submit_commit actor current now
commit (cancel actor current now) = cancel_commit actor current now
commit (approve reviewer plan now) = approve_commit reviewer plan now
commit (reject reviewer current reason_code comment now) =
    reject_commit reviewer current reason_code comment now
commit (suspend actor current reason now) = suspend_commit actor current reason now

-- A state and a later one. A write whose transaction throws is a step too.
pub data Reach (db : Db) : Db → Type 0 where
  here : Reach db db
  wrote : {later : Db} → Reach db later → (w : Write) → Reach db (commit w later).1
  updated :
      {later : Db}
      → Reach db later
      → (actor : AuthUser) → (edit : Edit) → Reach db (update_commit actor edit later).1
  ran : {later : Db} → Reach db later → (now : ℕ) → Reach db (run now later).0
