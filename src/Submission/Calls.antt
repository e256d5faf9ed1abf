-- ===== src/Submission/Calls.antt =====
-- The calls of src/submissions/submissions.service.ts and src/reviews/reviews.service.ts that
-- change a status, as values: what each checks, and the whole call.
pub mod Checks
pub mod Atomicity
pub mod Interleaving
pub mod Periods
pub mod Approval
use flyer_g_be.Base.{ℕ, String, Bool, true, false}
use flyer_g_be.Failure.{◌>>=◌, pure}
use flyer_g_be.Submission.Data.{RejectReasonCode, AuthUser}
use flyer_g_be.Submission.Store.{Service, find_pending}
use flyer_g_be.Submission.View.{SubmissionDto}
use flyer_g_be.Submission.Requests
use flyer_g_be.Submission.Requests.{submit_check, cancel_check}
use flyer_g_be.Submission.Reviews
use flyer_g_be.Submission.Reviews.{approve_check, suspend_check}
use flyer_g_be.Submission.Writes.{Write}

pub data Call : Type 0 where
  submit : AuthUser → (id version : ℕ) → Call
  cancel : AuthUser → (id version : ℕ) → Call
  approve : AuthUser → (id revision : ℕ) → Call
  reject : AuthUser → (id revision : ℕ) → RejectReasonCode → String → Call
  suspend : AuthUser → (id : ℕ) → String → Call

-- The first phase of a call: the transaction that it will run.
unfoldable pub prepare : Call → ℕ → Service Write
prepare (submit actor id version) now = do
  current ← submit_check actor id version now
  pure (Write.submit actor current now)
prepare (cancel actor id version) now = do
  current ← cancel_check actor id version now
  pure (Write.cancel actor current now)
prepare (approve reviewer id revision) now = do
  plan ← approve_check id revision now
  pure (Write.approve reviewer plan now)
prepare (reject reviewer id revision reason_code comment) now = do
  current ← find_pending id revision
  pure (Write.reject reviewer current reason_code comment now)
prepare (suspend actor id reason) now = do
  current ← suspend_check actor id now
  pure (Write.suspend actor current reason now)

-- The call in one go.
unfoldable pub serve : Call → ℕ → Service SubmissionDto
serve (submit actor id version) now = Requests.submit actor id version now
serve (cancel actor id version) now = Requests.cancel actor id version now
serve (approve reviewer id revision) now = Reviews.approve reviewer id revision now
serve (reject reviewer id revision reason_code comment) now =
    Reviews.reject reviewer id revision reason_code comment now
serve (suspend actor id reason) now = Reviews.suspend actor id reason now
