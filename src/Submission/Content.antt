-- ===== src/Submission/Content.antt =====
-- The content of a submission: the input of a form, what of it is stored, and how each kind of
-- src/submissions/kinds checks it (`resolve`, with `checkMediaAsset` of media-asset.ts).
-- `new URL` is a parameter: what it reads of a text.
pub mod Resolve
use flyer_g_be.Base.{
  ℕ, ◌==◌, String, Bool, true, false, not, ◌&&◌, ◌||◌, if◌then◌else◌, Option, none, some, is_some,
  get_or, List, [], ◌∷◌, ◌++◌, find?, any,
}
use Prim.Native.String
use flyer_g_be.Failure.{FieldErrors}
use flyer_g_be.Submission.Data.{
  SubmissionType, poster, event_banner, story, Asset, AssetKind, video, AssetStatus, pending_upload,
  ready, processing, BannerMode, template, image, Occasion, birthday, admission, graduation, award,
  welcome, other, Category, Db, AuthUser,
}
use flyer_g_be.Submission.Text.{
  same_string, title_of, Url, ParsedDetailUrl, refused, parsed, parse_detail_url,
}

-- A field of a form: left out, emptied, or set.
pub data Field (A : Type 0) : Type 0 where
  missing null : Field A
  value : A → Field A

-- `EventBannerInputDto`, `StoryInputDto` and `KindInput`
pub record BannerInput : Type 0 where
  pub mode : BannerMode
  pub occasion : Option Occasion
  pub recipient : String
  pub headline : Option String
  pub message : Option String
  pub sender : Option String
  pub asset_id : Option ℕ
  pub photo_asset_id : Option ℕ
  pub photo_consent : Bool

pub record StoryInput : Type 0 where
  pub tag : String
  pub body : String

pub record KindInput : Type 0 where
  pub title : Option String
  pub category_id : Option ℕ
  pub asset_id : Option ℕ
  pub detail_url : Field String
  pub organizer_name : Field String
  pub subtitle : Field String
  pub location : Field String
  pub description : Field String
  pub event_banner : Option BannerInput
  pub story : Option StoryInput

-- `KindColumns`
pub record KindColumns : Type 0 where
  pub title : String
  pub category_id : Option ℕ
  pub asset_id : Option ℕ
  pub detail_url : Option String
  pub ziggle_notice_id : Option String
  pub organizer_name : Option String
  pub subtitle : Option String
  pub location : Option String
  pub description : Option String

-- `EMPTY_KIND_COLUMNS`
abbrev pub empty_kind_columns : KindColumns
empty_kind_columns = record {
  title = "";
  category_id = none;
  asset_id = none;
  detail_url = none;
  ziggle_notice_id = none;
  organizer_name = none;
  subtitle = none;
  location = none;
  description = none;
}

-- `EventBannerDetail`, `StoryDetail`, and the detail of a poster, which is null
pub record BannerDetail : Type 0 where
  pub mode : BannerMode
  pub occasion : Option Occasion
  pub recipient : String
  pub headline : Option String
  pub message : Option String
  pub sender : Option String
  pub photo_consent : Bool

pub record StoryDetail : Type 0 where
  pub tag : String
  pub body : String
  pub story_number : Option ℕ

pub data Detail : Type 0 where
  no_detail : Detail
  banner_detail : BannerDetail → Detail
  story_detail : StoryDetail → Detail

-- `CurrentContent`, `ResolvedContent`
pub record CurrentContent : Type 0 where
  pub columns : KindColumns
  pub detail : Detail

pub record ResolvedContent : Type 0 where
  pub errors : FieldErrors
  pub columns : KindColumns
  pub detail : Detail

-- `patched`
module _ {A : Type 0} where
  abbrev pub patched : Field A → Option A → Option A
  patched missing current = current
  patched null current = none
  patched (value a) current = some a

  -- `a ?? b` of two options
  abbrev pub first_of : Option A → Option A → Option A
  first_of none b = b
  first_of (some a) b = some a

-- `AssetsService.findOwnedOrNull`, `CategoriesService.isActive`
unfoldable pub find_owned : ℕ → ℕ → List Asset → Option Asset
find_owned owner_id id assets = find? (λ a. a.id == id && a.owner_id == owner_id) assets

unfoldable pub is_active_category : ℕ → List Category → Bool
is_active_category id categories = any (λ c. c.id == id && c.is_active) categories

-- `MediaProblem`, `checkMediaAsset`
pub data MediaProblem : Type 0 where
  missing_media uploading unfinished is_video : MediaProblem

abbrev is_video_kind : AssetKind → Bool
is_video_kind video = true
is_video_kind _ = false

abbrev problem_of : AssetStatus → AssetKind → (allow_video : Bool) → Option MediaProblem
problem_of pending_upload kind allow_video = some uploading
problem_of processing kind allow_video = some unfinished
problem_of ready kind allow_video =
    if not allow_video && is_video_kind kind then some is_video else none
problem_of _ kind allow_video = some missing_media

unfoldable pub check_media_asset :
    AuthUser → ℕ → (allow_video : Bool) → List Asset → Option MediaProblem
check_media_asset user id allow_video assets = elim (find_owned user.id id assets) [
  | none ↦ some missing_media
  | some asset ↦ problem_of asset.status asset.kind allow_video
]

-- `a === b` of two optional ids
abbrev pub same_id : Option ℕ → Option ℕ → Bool
same_id none none = true
same_id (some a) (some b) = a == b
same_id _ _ = false

-- `{ field: … }` under a condition
abbrev pub error_if : Bool → String → FieldErrors
error_if true field = field ∷ []
error_if false field = []

abbrev pub columns_of : Option CurrentContent → KindColumns
columns_of none = empty_kind_columns
columns_of (some current) = current.columns

-- The check of an id that was not there before
abbrev pub is_new_category : Option ℕ → Option ℕ → Db → Bool
is_new_category none previous db = false
is_new_category (some id) previous db =
    not (same_id (some id) previous) && not (is_active_category id db.categories)

abbrev pub has_problem :
    AuthUser → Option ℕ → (previous : Option ℕ) → (allow_video : Bool) → Db → Bool
has_problem user none previous allow_video db = false
has_problem user (some id) previous allow_video db =
    not (same_id (some id) previous) && is_some (check_media_asset user id allow_video db.assets)
