-- ===== src/Submission/Create.antt =====
-- `create` of src/submissions/submissions.service.ts, with what it shares with `update`: the fields
-- that a kind does not take, the target groups, the daily limit, and the unique index that allows
-- one active submission for a notice. The id of a new row is what `defaultRandom` gives.
pub mod Call
pub mod Limits
use flyer_g_be.Base.{
  ℕ, ◌+◌, ◌==◌, leb, String, Bool, true, false, not, ◌&&◌, ◌||◌, if◌then◌else◌, Option, none, some,
  is_some, get_or, List, [], ◌∷◌, ◌++◌, map, filter, any, all, count, length,
}
use flyer_g_be.Failure.{
  FieldErrors, ErrorCode, already_submitted, daily_limit_exceeded, server_error, exception,
  validation_failure, AppException, get, modify, ◌>>=◌, ◌>>◌, pure, throw_if, transaction,
}
use flyer_g_be.Time.{seoul_date, start_of_seoul_day}
use flyer_g_be.Submission.Data.{
  Status, pending_review, canceled, ended, archived, SubmissionType, poster, event_banner, story,
  Submission, Story, EventBanner, Category, TargetGroup, Targeted, user, submission_created,
  Metadata, AuditEntry, Db, AuthUser,
}
use flyer_g_be.Submission.Kinds.{KindSchedule, requested, on_approval, kind_of, validate_schedule}
use flyer_g_be.Submission.Text.{same_string, Url}
use flyer_g_be.Submission.Content.{
  Field, missing, null, value, KindInput, KindColumns, Detail, no_detail, banner_detail,
  story_detail, ResolvedContent, BannerDetail, StoryDetail,
}
use flyer_g_be.Submission.Content.Resolve.{resolve}
use flyer_g_be.Submission.Store.{Service, record_audit}
use flyer_g_be.Submission.View.{SubmissionDto, detail}

-- `CreateSubmissionDto`
pub record CreateSubmission : Type 0 where
  pub type : Option SubmissionType
  pub input : KindInput
  pub start_at : Option ℕ
  pub end_at : Option ℕ
  pub target_group_ids : Option (List ℕ)

-- `KindInputField`
pub data InputField : Type 0 where
  title category_id asset_id detail_url organizer_name subtitle location : InputField
  description event_banner_field story_field : InputField

-- `KIND_INPUT_FIELDS`
abbrev pub kind_input_fields : List InputField
kind_input_fields =
    title ∷ category_id ∷ asset_id ∷ detail_url ∷ organizer_name ∷ subtitle ∷ location ∷ description
    ∷ event_banner_field ∷ story_field ∷ []

abbrev field_name : InputField → String
field_name title = "title"
field_name category_id = "categoryId"
field_name asset_id = "assetId"
field_name detail_url = "detailUrl"
field_name organizer_name = "organizerName"
field_name subtitle = "subtitle"
field_name location = "location"
field_name description = "description"
field_name event_banner_field = "eventBanner"
field_name story_field = "story"

module _ {A : Type 0} where
  -- `dto[field] != null`
  abbrev is_set : Field A → Bool
  is_set (value a) = true
  is_set _ = false

abbrev pub is_given : KindInput → InputField → Bool
is_given input title = is_some input.title
is_given input category_id = is_some input.category_id
is_given input asset_id = is_some input.asset_id
is_given input detail_url = is_set input.detail_url
is_given input organizer_name = is_set input.organizer_name
is_given input subtitle = is_set input.subtitle
is_given input location = is_set input.location
is_given input description = is_set input.description
is_given input event_banner_field = is_some input.event_banner
is_given input story_field = is_some input.story

-- `inputFields.includes`
abbrev pub takes_field : SubmissionType → InputField → Bool
takes_field event_banner event_banner_field = true
takes_field event_banner _ = false
takes_field story story_field = true
takes_field story _ = false
takes_field poster event_banner_field = false
takes_field poster story_field = false
takes_field poster _ = true

abbrev pub is_on_approval : KindSchedule → Bool
is_on_approval (on_approval period_from) = true
is_on_approval (requested validate) = false

abbrev given_if : Bool → String → FieldErrors
given_if true field = field ∷ []
given_if false field = []

abbrev pub is_unaccepted : SubmissionType → KindInput → InputField → Bool
is_unaccepted type input field = is_given input field && not (takes_field type field)

-- `unacceptedFields`
unfoldable pub unaccepted_fields :
    SubmissionType → KindInput → (start_at end_at : Option ℕ) → Option (List ℕ) → FieldErrors
unfolding kind_of
unaccepted_fields type input start_at end_at target_group_ids =
    let kind = kind_of type in
    let on_approval_kind = is_on_approval kind.schedule in
    map field_name (filter (is_unaccepted type input) kind_input_fields)
    ++ given_if (on_approval_kind && is_some start_at) "startAt"
    ++ given_if (on_approval_kind && is_some end_at) "endAt"
    ++ given_if (not kind.targetable && not (length (get_or target_group_ids []) == 0))
        "targetGroupIds"

-- `TargetGroupsService.findUnavailable`
unfoldable pub find_unavailable : List ℕ → List TargetGroup → List ℕ
find_unavailable ids groups = filter (λ id. not (any (λ g. g.id == id && g.is_active) groups)) ids

-- `validateTargetGroups`
unfoldable pub validate_target_groups : List ℕ → List TargetGroup → FieldErrors
unfolding find_unavailable
validate_target_groups ids groups =
    given_if (not (length (find_unavailable ids groups) == 0)) "targetGroupIds"

abbrev pub same_type : SubmissionType → SubmissionType → Bool
same_type poster poster = true
same_type event_banner event_banner = true
same_type story story = true
same_type _ _ = false

-- What the daily limit counts: rows of the user and the kind from the start of the day in Seoul on
abbrev pub is_of_today : ℕ → SubmissionType → ℕ → Submission → Bool
is_of_today user_id type now row =
    row.requester_id == user_id
    && same_type row.type type
    && leb (start_of_seoul_day (seoul_date now)) row.created_at

-- `assertDailyLimit`. Its lock puts the transactions of a user and a kind in a row.
unfoldable pub assert_daily_limit : AuthUser → SubmissionType → ℕ → Service Unit
unfolding kind_of seoul_date start_of_seoul_day
assert_daily_limit actor type now db = elim ((kind_of type).daily_limit) [
  | none ↦ pure tt db
  | some limit ↦
      throw_if (leb limit (count (is_of_today actor.id type now) db.submissions))
        (exception 429 daily_limit_exceeded) db
]

-- The unique index `submissions_ziggle_notice_id_active_uq`
abbrev pub is_active_status : Status → Bool
is_active_status canceled = false
is_active_status ended = false
is_active_status archived = false
is_active_status _ = true

abbrev pub same_notice : Option String → Option String → Bool
same_notice (some a) (some b) = same_string a b
same_notice _ _ = false

abbrev pub collides : Submission → Submission → Bool
collides new row =
    is_active_status new.status
    && is_active_status row.status
    && same_notice new.ziggle_notice_id row.ziggle_notice_id

-- `withNoticeGuard`: the 409 that it makes of a violation of the index
abbrev pub already_submitted_exception : AppException
already_submitted_exception = record {
  status = 409;
  code = already_submitted;
  fields = "detailUrl" ∷ [];
}

-- The row that `create` inserts. `priority` and `version` are the defaults of the columns.
abbrev pub new_submission :
    (id : ℕ)
    → SubmissionType
    → AuthUser
    → KindColumns
    → (start_at end_at : Option ℕ) → ℕ
    → Submission
new_submission id type actor columns start_at end_at now = record {
  id = id;
  type = type;
  requester_id = actor.id;
  ziggle_notice_id = columns.ziggle_notice_id;
  title = columns.title;
  category_id = columns.category_id;
  asset_id = columns.asset_id;
  detail_url = columns.detail_url;
  start_at = start_at;
  end_at = end_at;
  status = pending_review;
  priority = 0;
  organizer_name = columns.organizer_name;
  subtitle = columns.subtitle;
  location = columns.location;
  description = columns.description;
  version = 1;
  submitted_at = some now;
  created_at = now;
  updated_at = now;
}

-- `insert into submissions`, where the index may refuse the row
abbrev pub insert_submission : Submission → Service Unit
insert_submission new = do
  db ← get
  throw_if (any (collides new) db.submissions) already_submitted_exception
  modify (λ db. record db { submissions = db.submissions ++ new ∷ [] })
