-- ===== src/Submission/Update/Call.antt =====
-- `update` of src/submissions/submissions.service.ts: its checks and its transaction.
use flyer_g_be.Base.{
  ℕ, ◌+◌, ◌==◌, String, Bool, not, ◌&&◌, ◌||◌, if◌then◌else◌, Option, none, some, is_some, List, [],
  ◌∷◌, ◌++◌, filter, any, count, length,
}
use flyer_g_be.Failure.{
  FieldErrors, has_errors, not_resubmittable, exception, validation_failure, get, modify, ◌>>=◌,
  ◌>>◌, pure, throw_if, transaction,
}
use flyer_g_be.Submission.Data.{
  Status, pending_review, Submission, SubmissionType, poster, event_banner, story, user,
  submission_updated, Metadata, Db, AuthUser,
}
use flyer_g_be.Submission.Rules.{is_editable, needs_reapproval, is_returned, has_started_publishing}
use flyer_g_be.Submission.Kinds.{kind_of, validate_schedule}
use flyer_g_be.Submission.Text.{Url}
use flyer_g_be.Submission.Content.{CurrentContent, ResolvedContent, Detail, first_of}
use flyer_g_be.Submission.Content.Resolve.{resolve}
use flyer_g_be.Submission.Store.{
  Service, in_conflict, find_own_row, update_rows, is_current, record_audit,
}
use flyer_g_be.Submission.View.{SubmissionDto, detail}
use flyer_g_be.Submission.Create.{
  unaccepted_fields, validate_target_groups, collides, already_submitted_exception,
}
use flyer_g_be.Submission.Create.Call.{save_detail, insert_targets}
use flyer_g_be.Submission.Update.{
  UpdateSubmission, kind_columns_of, detail_of, target_groups_of, detail_changed, groups_changed,
  Changes, changes_of, changed_names, with_changes,
}

-- What the checks of `update` leave for its transaction
pub record Edit : Type 0 where
  pub current : Submission
  pub changes : Changes
  pub detail : Option Detail
  pub target_group_ids : Option (List ℕ)
  pub now : ℕ

-- `nextStatus`
abbrev pub next_status : Status → Status
next_status status = if needs_reapproval status then pending_review else status

abbrev is_nothing : Edit → Bool
is_nothing edit =
    length (changed_names edit.changes) == 0
    && not (is_some edit.detail)
    && not (is_some edit.target_group_ids)

-- The errors that the changes add
abbrev schedule_errors : Edit → FieldErrors
schedule_errors edit =
    let current = edit.current in
    if is_some edit.changes.start_at
      || is_some edit.changes.end_at
      || needs_reapproval current.status
    then validate_schedule current.type (first_of edit.changes.start_at current.start_at)
        (first_of edit.changes.end_at current.end_at) edit.now
    else []

abbrev new_groups : Option (List ℕ) → List ℕ → List ℕ
new_groups none current = []
new_groups (some ids) current = filter (λ id. not (any (λ c. c == id) current)) ids

-- What `update` finds of a form for the row that was read: the errors, and the edit, or none where
-- nothing changes
pub record Planned : Type 0 where
  pub errors : FieldErrors
  pub edit : Option Edit

-- The edit of a form, given the content that the kind resolved, the stored detail and groups
abbrev edit_of : Submission → ResolvedContent → Detail → List ℕ → UpdateSubmission → ℕ → Edit
edit_of current resolved stored groups dto now = record {
  current = current;
  changes = changes_of resolved.columns dto.start_at dto.end_at current;
  detail = if detail_changed stored resolved.detail then some resolved.detail else none;
  target_group_ids =
      if groups_changed dto.target_group_ids groups then dto.target_group_ids else none;
  now = now;
}

unfoldable pub plan_edit :
    (String → Option Url) → AuthUser → Submission → UpdateSubmission → ℕ → Db → Planned
plan_edit new_url actor current dto now db =
    let stored = detail_of current db in
    let content : CurrentContent = record { columns = kind_columns_of current; detail = stored } in
    let resolved = resolve new_url current.type actor dto.input (some content) db in
    let errors =
      unaccepted_fields current.type dto.input dto.start_at dto.end_at dto.target_group_ids
      ++ resolved.errors in
    let groups = target_groups_of current.id db.targets in
    let edit = edit_of current resolved stored groups dto now in
    let more =
      schedule_errors edit
      ++ validate_target_groups (new_groups edit.target_group_ids groups) db.target_groups in
    if is_nothing edit
    then record { errors = errors; edit = none }
    else record { errors = errors ++ more; edit = some edit }

-- `update` up to its transaction, and none where the form changes nothing
unfoldable pub update_check :
    (String → Option Url) → AuthUser → ℕ → UpdateSubmission → ℕ → Service (Option Edit)
update_check new_url actor id dto now = do
  current ← find_own_row actor id dto.version
  throw_if (not (is_editable current.status)) in_conflict
  throw_if (has_started_publishing current.status current.start_at now) in_conflict
  throw_if (not ((kind_of current.type).resubmittable) && is_returned current.status)
      (exception 409 not_resubmittable)
  db ← get
  let plan = plan_edit new_url actor current dto now db
  throw_if (has_errors plan.errors) (validation_failure plan.errors)
  pure plan.edit

-- The row that the statement writes
unfoldable pub edited : Edit → Submission → Submission
edited edit row =
    let row' = with_changes edit.changes row in
    record row' {
      status = next_status edit.current.status;
      submitted_at =
          if needs_reapproval edit.current.status then some edit.now else edit.current.submitted_at;
      version = edit.current.version + 1;
      updated_at = edit.now;
    }

-- Whether the statement violates the index on the notice
unfoldable pub violates_notice : Edit → List Submission → Bool
violates_notice edit rows =
    any
      (λ r.
        is_current edit.current r
        && any (λ s. not (s.id == r.id) && collides (edited edit r) s) rows)
      rows

unfoldable pub edit_row : Edit → Service Unit
edit_row edit = do
  db ← get
  throw_if (violates_notice edit db.submissions) already_submitted_exception
  throw_if (count (is_current edit.current) db.submissions == 0) in_conflict
  modify (λ db. record db {
    submissions = update_rows (is_current edit.current) (edited edit) db.submissions;
  })

abbrev pub save_if : ℕ → Option Detail → Service Unit
save_if id none = pure tt
save_if id (some d) = save_detail id d

-- The target groups are replaced as a whole.
unfoldable pub replace_targets : ℕ → Option (List ℕ) → Service Unit
replace_targets id none = pure tt
replace_targets id (some ids) = do
  modify (λ db. record db { targets = filter (λ t. not (t.submission_id == id)) db.targets })
  insert_targets id ids

-- `inputFields` of the kinds that have a detail
abbrev detail_fields : SubmissionType → List String
detail_fields poster = []
detail_fields event_banner = "eventBanner" ∷ []
detail_fields story = "story" ∷ []

abbrev changed_fields : Edit → List String
changed_fields edit =
    changed_names edit.changes
    ++ (if is_some edit.detail then detail_fields edit.current.type else [])
    ++ (if is_some edit.target_group_ids then "targetGroupIds" ∷ [] else [])

-- The body of the transaction, and the transaction
unfoldable pub update_body : AuthUser → Edit → Service Unit
update_body actor edit = do
  edit_row edit
  save_if edit.current.id edit.detail
  replace_targets edit.current.id edit.target_group_ids
  record_audit (record {
    actor = user actor.id;
    action = submission_updated;
    target = edit.current.id;
    reason = none;
    metadata =
        Metadata.update (changed_fields edit) edit.current.status (next_status edit.current.status);
    at = edit.now;
  })

unfoldable pub update_commit : AuthUser → Edit → Service Unit
update_commit actor edit = transaction (update_body actor edit)

abbrev pub commit_if : AuthUser → Option Edit → Service Unit
commit_if actor none = pure tt
commit_if actor (some edit) = update_commit actor edit

-- `update`
unfoldable pub update :
    (String → Option Url) → AuthUser → ℕ → UpdateSubmission → ℕ → Service SubmissionDto
update new_url actor id dto now = do
  edit ← update_check new_url actor id dto now
  commit_if actor edit
  detail id actor
