-- ===== src/Submission/Reviews.antt =====
-- src/reviews/reviews.service.ts: `approve`, `reject` and `suspend`, each as its checks and its
-- transaction. The transaction writes the status, the review and the audit entry.
use flyer_g_be.Base.{
  ℕ, ◌+◌, ◌==◌, leb, String, not, ◌&&◌, Bool, true, false, if◌then◌else◌, Option, none, some, List,
  map, find?, is_some, get_or,
}
use flyer_g_be.Failure.{exception, forbidden, ◌>>=◌, ◌>>◌, pure, get, modify, throw_if, transaction}
use flyer_g_be.Submission.Data.{
  SubmissionType, story, event_banner, Status, scheduled, published, Submission, Asset, ready,
  Story, Decision, RejectReasonCode, user, submission_approved, submission_rejected,
  submission_suspended, approval, rejection, suspension, AuthUser,
}
use flyer_g_be.Submission.Rules.{is_suspendable, is_reviewer}
use flyer_g_be.Submission.Kinds.{Period, requested, on_approval, kind_of}
use flyer_g_be.Submission.View.{SubmissionDto, detail}
use flyer_g_be.Submission.Store.{
  Service, no_submission, in_conflict, find_row, find_existing, find_pending, nothing, period,
  apply_transition, insert_review, record_audit, emit,
}

-- The period that an approved submission gets. A requested one is there by the table's checks.
unfoldable pub approved_period : Submission → ℕ → Period
unfolding kind_of
approved_period current now = elim ((kind_of current.type).schedule) [
  | on_approval from ↦ from now
  | requested _ ↦ record { start_at = get_or current.start_at 0; end_at = get_or current.end_at 0 }
]

abbrev pub is_ready : Asset → Bool
is_ready asset = elim asset.status [ ready ↦ is_some asset.checksum | _ ↦ false ]

-- The media of the row, if it has one, is there, processed, and has a checksum.
abbrev pub is_available : Option ℕ → Option Asset → Bool
is_available none asset = true
is_available (some id) none = false
is_available (some id) (some asset) = is_ready asset

-- `findById` of src/assets/assets.service.ts, where the row has an asset
unfoldable pub find_asset : Option ℕ → List Asset → Option Asset
find_asset none assets = none
find_asset (some id) assets = find? (λ a. a.id == id) assets

abbrev pub checksum_of : Option Asset → Option String
checksum_of none = none
checksum_of (some asset) = asset.checksum

-- What the checks of `approve` hand to its transaction.
pub record Approval : Type 0 where
  pub current : Submission
  pub period : Period
  pub status : Status
  pub asset_checksum : Option String

unfoldable pub approve_check : ℕ → ℕ → ℕ → Service Approval
unfolding find_pending approved_period find_asset
approve_check id revision now = do
  current ← find_pending id revision
  let chosen = approved_period current now
  throw_if (leb chosen.end_at now) in_conflict
  db ← get
  let asset = find_asset current.asset_id db.assets
  throw_if (not (is_available current.asset_id asset)) in_conflict
  pure (record {
    current = current;
    period = chosen;
    status = if leb chosen.start_at now then published else scheduled;
    asset_checksum = checksum_of asset;
  })

-- `STORY_KIND.onApprove`. A sequence keeps its place when a transaction rolls back; here it goes back,
-- which no statement about the tables depends on.
unfoldable pub number_story : ℕ → List Story → ℕ → List Story
number_story id stories number =
    map (λ s. if s.submission_id == id then record s { story_number = some number } else s) stories

unfoldable pub on_approve : Submission → Service Unit
unfolding kind_of number_story
on_approve current =
    if (kind_of current.type).numbered
    then modify (λ db. record db {
      stories = number_story current.id db.stories db.next_story_number;
      next_story_number = db.next_story_number + 1;
    })
    else pure tt

unfoldable pub approve_commit : AuthUser → Approval → ℕ → Service Unit
unfolding apply_transition on_approve
approve_commit reviewer plan now = transaction (do
  apply_transition plan.current plan.status now (period plan.period)
  on_approve plan.current
  insert_review (record {
    submission_id = plan.current.id;
    revision = plan.current.version;
    decision = Decision.approved;
    reason_code = none;
    comment = none;
    reviewer_id = reviewer.id;
    asset_checksum = plan.asset_checksum;
    reviewed_at = now;
  })
  record_audit (record {
    actor = user reviewer.id;
    action = submission_approved;
    target = plan.current.id;
    reason = none;
    metadata = approval plan.current.version plan.status plan.asset_checksum;
    at = now;
  }))

unfoldable pub approve : AuthUser → ℕ → ℕ → ℕ → Service SubmissionDto
approve reviewer id revision now = do
  plan ← approve_check id revision now
  approve_commit reviewer plan now
  emit
  detail id reviewer

-- `reject`: its check is `findPending`.
unfoldable pub reject_commit : AuthUser → Submission → RejectReasonCode → String → ℕ → Service Unit
unfolding apply_transition
reject_commit reviewer current reason_code comment now = transaction (do
  apply_transition current Status.rejected now nothing
  insert_review (record {
    submission_id = current.id;
    revision = current.version;
    decision = Decision.rejected;
    reason_code = some reason_code;
    comment = some comment;
    reviewer_id = reviewer.id;
    asset_checksum = none;
    reviewed_at = now;
  })
  record_audit (record {
    actor = user reviewer.id;
    action = submission_rejected;
    target = current.id;
    reason = some comment;
    metadata = rejection current.version reason_code;
    at = now;
  }))

unfoldable pub reject : AuthUser → ℕ → ℕ → RejectReasonCode → String → ℕ → Service SubmissionDto
reject reviewer id revision reason_code comment now = do
  current ← find_pending id revision
  reject_commit reviewer current reason_code comment now
  detail id reviewer

-- The kinds that their requester may suspend.
abbrev is_self_suspendable : SubmissionType → Bool
is_self_suspendable story = true
is_self_suspendable event_banner = true
is_self_suspendable _ = false

unfoldable pub suspend_check : AuthUser → ℕ → ℕ → Service Submission
unfolding find_row is_reviewer
suspend_check actor id now = do
  current ← find_existing id
  let stranger = not (is_reviewer actor.roles)
  throw_if (stranger && not (current.requester_id == actor.id)) no_submission
  throw_if (stranger && not (is_self_suspendable current.type)) (exception 403 forbidden)
  throw_if (not (is_suspendable current.status)) in_conflict
  throw_if (leb (get_or current.end_at 0) now) in_conflict
  pure current

unfoldable pub suspend_commit : AuthUser → Submission → String → ℕ → Service Unit
unfolding apply_transition
suspend_commit actor current reason now = transaction (do
  apply_transition current Status.suspended now nothing
  insert_review (record {
    submission_id = current.id;
    revision = current.version;
    decision = Decision.suspended;
    reason_code = none;
    comment = some reason;
    reviewer_id = actor.id;
    asset_checksum = none;
    reviewed_at = now;
  })
  record_audit (record {
    actor = user actor.id;
    action = submission_suspended;
    target = current.id;
    reason = some reason;
    metadata = suspension current.version current.status;
    at = now;
  }))

unfoldable pub suspend : AuthUser → ℕ → String → ℕ → Service SubmissionDto
suspend actor id reason now = do
  current ← suspend_check actor id now
  suspend_commit actor current reason now
  emit
  detail id actor
