-- ===== src/Submission/Create/Call.antt =====
-- `create` of src/submissions/submissions.service.ts: its checks and its transaction, with the
-- statements on the tables beside `submissions` (`details.save` of the kinds).
use flyer_g_be.Base.{
  ℕ, ◌==◌, String, Bool, not, if◌then◌else◌, Option, none, get_or, List, [], ◌∷◌, ◌++◌, map, any,
  all,
}
use flyer_g_be.Failure.{
  has_errors, server_error, exception, validation_failure, get, modify, ◌>>=◌, ◌>>◌, pure, throw_if,
  transaction,
}
use flyer_g_be.Submission.Data.{
  SubmissionType, poster, EventBanner, user, submission_created, Metadata, AuthUser,
}
use flyer_g_be.Submission.Kinds.{kind_of, validate_schedule}
use flyer_g_be.Submission.Text.{Url}
use flyer_g_be.Submission.Content.{
  KindColumns, Detail, no_detail, banner_detail, story_detail, BannerDetail,
}
use flyer_g_be.Submission.Content.Resolve.{resolve}
use flyer_g_be.Submission.Store.{Service, record_audit}
use flyer_g_be.Submission.View.{SubmissionDto, detail}
use flyer_g_be.Submission.Create.{
  CreateSubmission, unaccepted_fields, validate_target_groups, is_on_approval, assert_daily_limit,
  new_submission, insert_submission,
}

module _ {A : Type 0} where
  -- `insert … on conflict do update`
  abbrev pub upsert : (A → Bool) → A → (A → A) → List A → List A
  upsert at new set rows =
      if any at rows then map (λ row. if at row then set row else row) rows else rows ++ new ∷ []

abbrev banner_row : ℕ → BannerDetail → EventBanner
banner_row id d = record {
  submission_id = id;
  mode = d.mode;
  occasion = d.occasion;
  recipient = d.recipient;
  headline = d.headline;
  message = d.message;
  sender = d.sender;
  photo_consent = d.photo_consent;
}

-- `details.save` of the kinds. The number of a story is set at its approval only.
unfoldable pub save_detail : ℕ → Detail → Service Unit
save_detail id no_detail = pure tt
save_detail id (banner_detail d) = modify (λ db. record db {
  event_banners =
      upsert (λ row. row.submission_id == id) (banner_row id d) (λ row. banner_row id d)
        db.event_banners;
})
save_detail id (story_detail d) = modify (λ db. record db {
  stories =
      upsert (λ row. row.submission_id == id)
        (record { submission_id = id; tag = d.tag; body = d.body; story_number = none })
        (λ row. record row { tag = d.tag; body = d.body }) db.stories;
})

-- `insert into submission_target_groups`. A group that is gone violates the foreign key, which comes
-- out as a 500.
unfoldable pub insert_targets : ℕ → List ℕ → Service Unit
insert_targets id ids = do
  db ← get
  throw_if (not (all (λ i. any (λ g. g.id == i) db.target_groups) ids)) (exception 500 server_error)
  modify (λ db. record db {
    targets = db.targets ++ map (λ i. record { submission_id = id; target_group_id = i }) ids;
  })

-- What the checks of `create` leave for its transaction
pub record Creation : Type 0 where
  pub type : SubmissionType
  pub columns : KindColumns
  pub detail : Detail
  pub start_at : Option ℕ
  pub end_at : Option ℕ
  pub target_group_ids : List ℕ

-- `create` up to its transaction. A form for a kind whose period is requested has the period.
unfoldable pub create_check :
    (String → Option Url) → AuthUser → CreateSubmission → ℕ → Service Creation
unfolding kind_of unaccepted_fields validate_schedule resolve validate_target_groups
create_check new_url actor dto now = do
  db ← get
  let type = get_or dto.type poster
  let kind = kind_of type
  let start_at = if is_on_approval kind.schedule then none else dto.start_at
  let end_at = if is_on_approval kind.schedule then none else dto.end_at
  let target_group_ids = if kind.targetable then get_or dto.target_group_ids [] else []
  let resolved = resolve new_url type actor dto.input none db
  let unaccepted = unaccepted_fields type dto.input dto.start_at dto.end_at dto.target_group_ids
  let schedule = validate_schedule type start_at end_at now
  let targets = validate_target_groups target_group_ids db.target_groups
  let errors = unaccepted ++ schedule ++ resolved.errors ++ targets
  throw_if (has_errors errors) (validation_failure errors)
  pure (record {
    type = type;
    columns = resolved.columns;
    detail = resolved.detail;
    start_at = start_at;
    end_at = end_at;
    target_group_ids = target_group_ids;
  })

-- The body of the transaction, and the transaction
unfoldable pub create_body : AuthUser → Creation → (now id : ℕ) → Service Unit
unfolding assert_daily_limit save_detail insert_targets
create_body actor plan now id = do
  assert_daily_limit actor plan.type now
  insert_submission (new_submission id plan.type actor plan.columns plan.start_at plan.end_at now)
  save_detail id plan.detail
  insert_targets id plan.target_group_ids
  record_audit (record {
    actor = user actor.id;
    action = submission_created;
    target = id;
    reason = none;
    metadata = Metadata.none;
    at = now;
  })

unfoldable pub create_commit : AuthUser → Creation → (now id : ℕ) → Service Unit
create_commit actor plan now id = transaction (create_body actor plan now id)

-- `create`
unfoldable pub create :
    (String → Option Url) → AuthUser → CreateSubmission → (now id : ℕ) → Service SubmissionDto
create new_url actor dto now id = do
  plan ← create_check new_url actor dto now
  create_commit actor plan now id
  detail id actor
