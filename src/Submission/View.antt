-- ===== src/Submission/View.antt =====
-- `detail` and `toDto` of src/submissions/submissions.service.ts: what a viewer sees of a
-- submission. Left out are the content that `toResponse` of the kind adds, the target groups, the
-- requester's name, which is hidden with the requester's id, and the last decision.
pub mod Privacy
use flyer_g_be.Base.{ℕ, String, ◌==◌, not, ◌&&◌, ◌||◌, if◌then◌else◌, Option, none, some}
use flyer_g_be.Failure.{◌>>=◌, ◌>>◌, pure, throw_if, get}
use flyer_g_be.Submission.Data.{SubmissionType, Status, Submission, Db, AuthUser}
use flyer_g_be.Submission.Rules.{is_reviewer}
use flyer_g_be.Submission.Kinds.{kind_of}
use flyer_g_be.Submission.Store.{Service, find_row, find_existing, no_submission}

pub record SubmissionDto : Type 0 where
  pub id : ℕ
  pub requester_id : Option ℕ
  pub type : SubmissionType
  pub title : String
  pub start_at : Option ℕ
  pub end_at : Option ℕ
  pub status : Status
  pub priority : ℕ
  pub version : ℕ
  pub submitted_at : Option ℕ
  pub created_at : ℕ
  pub updated_at : ℕ

-- `toDto`
unfoldable pub to_dto : AuthUser → Submission → SubmissionDto
unfolding kind_of
to_dto viewer row =
    let hide_requester = (kind_of row.type).anonymous && not (viewer.id == row.requester_id) in
    record {
      id = row.id;
      requester_id = if hide_requester then none else some row.requester_id;
      type = row.type;
      title = row.title;
      start_at = row.start_at;
      end_at = row.end_at;
      status = row.status;
      priority = row.priority;
      version = row.version;
      submitted_at = row.submitted_at;
      created_at = row.created_at;
      updated_at = row.updated_at;
    }

-- `detail`
unfoldable pub detail : ℕ → AuthUser → Service SubmissionDto
unfolding find_row to_dto
detail id viewer = do row ← find_existing id; pure (to_dto viewer row)

-- `findOne`: a stranger is not told whether the submission is there.
unfoldable pub find_one : AuthUser → ℕ → Service SubmissionDto
unfolding is_reviewer detail
find_one user id = do
  row ← find_existing id
  throw_if (not (row.requester_id == user.id) && not (is_reviewer user.roles)) no_submission
  detail id user
