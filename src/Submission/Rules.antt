-- ===== src/Submission/Rules.antt =====
-- src/submissions/submission-rules.ts, the periods and the statuses in which an operation may run,
-- and `isReviewer` of src/auth/types/role.ts.
pub mod Laws
use flyer_g_be.Base.{
  ℕ, ltb, leb, Bool, true, false, ◌&&◌, ◌||◌, if◌then◌else◌, Option, none, some, List, [], ◌∷◌, any,
}
use flyer_g_be.Failure.{FieldErrors}
use flyer_g_be.Submission.Data.{
  Status, draft, pending_review, rejected, approved, scheduled, published, suspended, Role,
  submitter, reviewer, super_admin,
}

-- `validatePeriod`
unfoldable pub validate_period : ℕ → ℕ → ℕ → FieldErrors
validate_period start_at end_at now =
    if leb end_at start_at then "endAt" ∷ [] else if leb end_at now then "endAt" ∷ [] else []

-- `EDITABLE_STATUSES.includes`
abbrev pub is_editable : Status → Bool
is_editable draft = true
is_editable pending_review = true
is_editable rejected = true
is_editable approved = true
is_editable scheduled = true
is_editable suspended = true
is_editable _ = false

-- `REAPPROVAL_STATUSES.includes`
abbrev pub needs_reapproval : Status → Bool
needs_reapproval approved = true
needs_reapproval scheduled = true
needs_reapproval _ = false

-- `RETURNED_STATUSES.includes`
abbrev pub is_returned : Status → Bool
is_returned rejected = true
is_returned suspended = true
is_returned _ = false

-- `SUBMITTABLE_STATUSES.includes`
abbrev pub is_submittable : Status → Bool
is_submittable draft = true
is_submittable rejected = true
is_submittable suspended = true
is_submittable _ = false

-- `SUSPENDABLE_STATUSES.includes` of src/reviews/reviews.service.ts
abbrev pub is_suspendable : Status → Bool
is_suspendable approved = true
is_suspendable scheduled = true
is_suspendable published = true
is_suspendable _ = false

abbrev is_withdrawable : Status → Bool
is_withdrawable draft = true
is_withdrawable pending_review = true
is_withdrawable rejected = true
is_withdrawable _ = false

abbrev is_published : Status → Bool
is_published published = true
is_published _ = false

-- `startAt !== null && now < startAt`
abbrev starts_after : Option ℕ → ℕ → Bool
starts_after none now = false
starts_after (some start_at) now = ltb now start_at

-- `startAt !== null && startAt <= now`
abbrev started_by : Option ℕ → ℕ → Bool
started_by none now = false
started_by (some start_at) now = leb start_at now

-- `canCancel`
unfoldable pub can_cancel : Status → Option ℕ → ℕ → Bool
can_cancel status start_at now =
    if is_withdrawable status then true else needs_reapproval status && starts_after start_at now

-- `hasStartedPublishing`
unfoldable pub has_started_publishing : Status → Option ℕ → ℕ → Bool
has_started_publishing status start_at now =
    is_published status || (needs_reapproval status && started_by start_at now)

abbrev is_reviewing_role : Role → Bool
is_reviewing_role submitter = false
is_reviewing_role reviewer = true
is_reviewing_role super_admin = true

-- `isReviewer`
unfoldable pub is_reviewer : List Role → Bool
is_reviewer roles = any is_reviewing_role roles
