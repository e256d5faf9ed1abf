-- ===== src/Submission/Requests.antt =====
-- What a requester does with a submission that is there, in
-- src/submissions/submissions.service.ts: `submit`, `cancel`, and `revealAuthor` of an
-- administrator. Each reads and checks first, and writes later in a transaction of its own; other
-- requests may write in between, so the two phases are definitions of their own.
use flyer_g_be.Base.{ℕ, not, none}
use flyer_g_be.Failure.{
  exception, has_errors, validation_failure, not_resubmittable, ◌>>=◌, ◌>>◌, pure, throw_if,
  transaction,
}
use flyer_g_be.Submission.Data.{
  pending_review, canceled, Submission, user, submission_resubmitted, submission_canceled,
  story_author_revealed, from_status, AuthUser, Metadata,
}
use flyer_g_be.Submission.Rules.{is_submittable, can_cancel}
use flyer_g_be.Submission.Kinds.{kind_of, validate_schedule}
use flyer_g_be.Submission.View.{SubmissionDto, detail}
use flyer_g_be.Submission.Store.{
  Service, in_conflict, find_existing, find_row, find_own_row, submitted, nothing, apply_transition,
  record_audit, emit,
}

-- `submit` up to its transaction, and the transaction
unfoldable pub submit_check : AuthUser → ℕ → ℕ → ℕ → Service Submission
unfolding find_own_row validate_schedule
submit_check actor id version now = do
  current ← find_own_row actor id version
  throw_if (not (is_submittable current.status)) in_conflict
  throw_if (not ((kind_of current.type).resubmittable)) (exception 409 not_resubmittable)
  let errors = validate_schedule current.type current.start_at current.end_at now
  throw_if (has_errors errors) (validation_failure errors)
  pure current

unfoldable pub submit_commit : AuthUser → Submission → ℕ → Service Unit
unfolding apply_transition
submit_commit actor current now = transaction (do
  apply_transition current pending_review now (submitted now)
  record_audit (record {
    actor = user actor.id;
    action = submission_resubmitted;
    target = current.id;
    reason = none;
    metadata = from_status current.status;
    at = now;
  }))

unfoldable pub submit : AuthUser → ℕ → ℕ → ℕ → Service SubmissionDto
submit actor id version now = do
  current ← submit_check actor id version now
  submit_commit actor current now
  detail id actor

-- `cancel`
unfoldable pub cancel_check : AuthUser → ℕ → ℕ → ℕ → Service Submission
unfolding find_own_row can_cancel
cancel_check actor id version now = do
  current ← find_own_row actor id version
  throw_if (not (can_cancel current.status current.start_at now)) in_conflict
  pure current

unfoldable pub cancel_commit : AuthUser → Submission → ℕ → Service Unit
unfolding apply_transition
cancel_commit actor current now = transaction (do
  apply_transition current canceled now nothing
  record_audit (record {
    actor = user actor.id;
    action = submission_canceled;
    target = current.id;
    reason = none;
    metadata = from_status current.status;
    at = now;
  }))

unfoldable pub cancel : AuthUser → ℕ → ℕ → ℕ → Service SubmissionDto
cancel actor id version now = do
  current ← cancel_check actor id version now
  cancel_commit actor current now
  emit
  detail id actor

-- `revealAuthor`, without the author's name and address
unfoldable pub reveal_author : AuthUser → ℕ → ℕ → Service ℕ
unfolding find_row kind_of
reveal_author admin id now = do
  row ← find_existing id
  throw_if (not ((kind_of row.type).anonymous)) in_conflict
  transaction (
      record_audit (record {
        actor = user admin.id;
        action = story_author_revealed;
        target = id;
        reason = none;
        metadata = Metadata.none;
        at = now;
      }))
  pure row.requester_id
