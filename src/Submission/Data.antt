-- ===== src/Submission/Data.antt =====
-- The tables of src/db/schema.ts that a submission's life touches, and the state of the services.
-- A `uuid` or slug is only compared, and stands as a number; a `timestamp` is milliseconds.
-- A table is the list of its rows.
use flyer_g_be.Base.{ℕ, String, Bool, Option, List}

-- `submissionStatusEnum`
pub data Status : Type 0 where
  draft pending_review rejected approved scheduled published : Status
  ended canceled suspended archived : Status

-- `submissionTypeEnum`
pub data SubmissionType : Type 0 where
  poster event_banner story : SubmissionType

-- `submissions`
pub record Submission : Type 0 where
  pub id : ℕ
  pub type : SubmissionType
  pub requester_id : ℕ
  pub ziggle_notice_id : Option String
  pub title : String
  pub category_id : Option ℕ
  pub asset_id : Option ℕ
  pub detail_url : Option String
  pub start_at : Option ℕ
  pub end_at : Option ℕ
  pub status : Status
  pub priority : ℕ
  pub organizer_name : Option String
  pub subtitle : Option String
  pub location : Option String
  pub description : Option String
  pub version : ℕ
  pub submitted_at : Option ℕ
  pub created_at : ℕ
  pub updated_at : ℕ

-- `assetStatusEnum`, and the columns of `assets` that a submission is checked by
pub data AssetStatus : Type 0 where
  pending_upload ready rejected processing : AssetStatus

-- `assetKindEnum`
pub data AssetKind : Type 0 where
  image video : AssetKind

pub record Asset : Type 0 where
  pub id : ℕ
  pub owner_id : ℕ
  pub kind : AssetKind
  pub status : AssetStatus
  pub checksum : Option String

-- `submissionStories`
pub record Story : Type 0 where
  pub submission_id : ℕ
  pub tag : String
  pub body : String
  pub story_number : Option ℕ

-- `eventBannerModeEnum`, `eventBannerOccasionEnum`, `submissionEventBanners`
pub data BannerMode : Type 0 where
  template image : BannerMode

pub data Occasion : Type 0 where
  birthday admission graduation award welcome other : Occasion

pub record EventBanner : Type 0 where
  pub submission_id : ℕ
  pub mode : BannerMode
  pub occasion : Option Occasion
  pub recipient : String
  pub headline : Option String
  pub message : Option String
  pub sender : Option String
  pub photo_consent : Bool

-- The columns of `categories` and `targetGroups` that a submission is checked by, and
-- `submissionTargetGroups`
pub record Category : Type 0 where
  pub id : ℕ
  pub is_active : Bool

pub record TargetGroup : Type 0 where
  pub id : ℕ
  pub is_active : Bool

pub record Targeted : Type 0 where
  pub submission_id : ℕ
  pub target_group_id : ℕ

-- `reviewDecisionEnum`
pub data Decision : Type 0 where
  approved rejected suspended : Decision

-- `rejectReasonCodeEnum`
pub data RejectReasonCode : Type 0 where
  low_resolution aspect_ratio info_mismatch inappropriate period duplicate : RejectReasonCode
  personal_info defamation advertisement other : RejectReasonCode

-- `reviews`
pub record Review : Type 0 where
  pub submission_id : ℕ
  pub revision : ℕ
  pub decision : Decision
  pub reason_code : Option RejectReasonCode
  pub comment : Option String
  pub reviewer_id : ℕ
  pub asset_checksum : Option String
  pub reviewed_at : ℕ

-- `AuditEntry` of src/audit/audit.service.ts, for the actions on a submission. The actor of an
-- entry is a user, or the system.
pub data AuditAction : Type 0 where
  submission_created submission_updated : AuditAction
  submission_resubmitted submission_canceled submission_approved : AuditAction
  submission_rejected submission_suspended submission_scheduled : AuditAction
  submission_published submission_ended story_author_revealed : AuditAction

pub data Actor : Type 0 where
  user : ℕ → Actor
  system : Actor

-- The keys that the services put into `metadata`.
pub data Metadata : Type 0 where
  none : Metadata
  from_status : Status → Metadata
  to_status : Status → Metadata
  approval : (revision : ℕ) → Status → (asset_checksum : Option String) → Metadata
  rejection : (revision : ℕ) → RejectReasonCode → Metadata
  suspension : (revision : ℕ) → Status → Metadata
  update : (changed_fields : List String) → (from to : Status) → Metadata

pub record AuditEntry : Type 0 where
  pub actor : Actor
  pub action : AuditAction
  pub target : ℕ
  pub reason : Option String
  pub metadata : Metadata
  pub at : ℕ

-- The database, with `storyNumberSeq`, and how often `SignageChanges.emit({ scope: 'ALL' })` ran.
pub record Db : Type 0 where
  pub submissions : List Submission
  pub assets : List Asset
  pub stories : List Story
  pub next_story_number : ℕ
  pub event_banners : List EventBanner
  pub targets : List Targeted
  pub categories : List Category
  pub target_groups : List TargetGroup
  pub reviews : List Review
  pub audit_logs : List AuditEntry
  pub emitted : ℕ

-- `Role` and `AuthUser` of src/auth/types
pub data Role : Type 0 where
  submitter reviewer super_admin : Role

pub record AuthUser : Type 0 where
  pub id : ℕ
  pub roles : List Role
