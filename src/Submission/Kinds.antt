-- ===== src/Submission/Kinds.antt =====
-- src/submissions/kinds: the rules of each kind of submission that are not about its content, and
-- the numbers of src/policy/signage-policy.ts that they use.
pub mod Laws
use flyer_g_be.Base.{
  ℕ, ◌+◌, ◌-◌, ◌*◌, ltb, Bool, true, false, if◌then◌else◌, Option, none, some, List, [], ◌∷◌, ◌++◌,
  get_or,
}
use flyer_g_be.Failure.{FieldErrors}
use flyer_g_be.Time.{day_ms, is_seoul_midnight, add_months_in_seoul}
use flyer_g_be.Submission.Data.{SubmissionType, poster, event_banner, story}
use flyer_g_be.Submission.Rules.{validate_period}

-- `SIGNAGE_POLICY`
abbrev pub max_publish_months : ℕ
max_publish_months = 3

abbrev pub event_banner_max_days : ℕ
event_banner_max_days = 3

abbrev pub story_display_days : ℕ
story_display_days = 2

-- A test that runs only while the field `endAt` has no error. `validatePeriod` reports no other field.
abbrev if_none : FieldErrors → FieldErrors → FieldErrors
if_none [] later = later
if_none (field ∷ errors) later = field ∷ errors

-- `POSTER_KIND.schedule.validate`
unfoldable pub validate_poster : ℕ → ℕ → ℕ → FieldErrors
unfolding validate_period
validate_poster start_at end_at now =
    if_none (validate_period start_at end_at now)
      (if ltb (add_months_in_seoul start_at max_publish_months) end_at then "endAt" ∷ [] else [])

-- `EVENT_BANNER_KIND.schedule.validate`
unfoldable pub validate_event_banner : ℕ → ℕ → ℕ → FieldErrors
unfolding validate_period
validate_event_banner start_at end_at now =
    (if is_seoul_midnight start_at then [] else "startAt" ∷ [])
    ++ if_none (validate_period start_at end_at now) (
        if is_seoul_midnight end_at
        then if ltb (event_banner_max_days * day_ms) (end_at - start_at) then "endAt" ∷ [] else []
        else "endAt" ∷ [])

pub record Period : Type 0 where
  pub start_at : ℕ
  pub end_at : ℕ

-- `STORY_KIND.schedule.periodFrom`
abbrev pub period_from : ℕ → Period
period_from approved_at = record {
  start_at = approved_at;
  end_at = approved_at + story_display_days * day_ms;
}

-- `KindSchedule`
pub data KindSchedule : Type 0 where
  requested : (validate : ℕ → ℕ → ℕ → FieldErrors) → KindSchedule
  on_approval : (period_from : ℕ → Period) → KindSchedule

-- The part of `SubmissionKind` that the services branch on. `numbered`: `onApprove` is there.
pub record SubmissionKind : Type 0 where
  pub schedule : KindSchedule
  pub targetable : Bool
  pub daily_limit : Option ℕ
  pub resubmittable : Bool
  pub anonymous : Bool
  pub numbered : Bool

abbrev pub poster_kind : SubmissionKind
poster_kind = record {
  schedule = requested validate_poster;
  targetable = true;
  daily_limit = none;
  resubmittable = true;
  anonymous = false;
  numbered = false;
}

abbrev pub event_banner_kind : SubmissionKind
event_banner_kind = record {
  schedule = requested validate_event_banner;
  targetable = true;
  daily_limit = some 3;
  resubmittable = true;
  anonymous = false;
  numbered = false;
}

abbrev pub story_kind : SubmissionKind
story_kind = record {
  schedule = on_approval period_from;
  targetable = false;
  daily_limit = some 5;
  resubmittable = false;
  anonymous = true;
  numbered = true;
}

-- `kindOf`
unfoldable pub kind_of : SubmissionType → SubmissionKind
kind_of poster = poster_kind
kind_of event_banner = event_banner_kind
kind_of story = story_kind

-- `validateSchedule` of src/submissions/submissions.service.ts. A requested period is there by the
-- table's checks; without one the source would compare with `null`, as with 0.
unfoldable pub validate_schedule : SubmissionType → Option ℕ → Option ℕ → ℕ → FieldErrors
unfolding kind_of
validate_schedule type start_at end_at now = elim ((kind_of type).schedule) [
  | requested validate ↦ validate (get_or start_at 0) (get_or end_at 0) now
  | on_approval _ ↦ []
]
