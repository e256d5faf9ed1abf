-- ===== src/Submission/Update.antt =====
-- `update` of src/submissions/submissions.service.ts: what a form changes of a submission.
pub mod Call
pub mod Laws
pub mod Effect
pub mod Guarded
pub mod Unchanged
mod Examples
use flyer_g_be.Base.{
  ℕ, ◌==◌, String, Bool, true, false, not, ◌&&◌, ◌||◌, if◌then◌else◌, Option, none, some, is_some,
  get_or, List, [], ◌∷◌, ◌++◌, map, filter, any, all, length, find?,
}
use flyer_g_be.Submission.Data.{
  SubmissionType, poster, event_banner, story, Submission, BannerMode, template, image, Occasion,
  birthday, admission, graduation, award, welcome, other, Story, EventBanner, Targeted, Db,
}
use flyer_g_be.Submission.Text.{same_string}
use flyer_g_be.Submission.Content.{
  KindInput, KindColumns, Detail, no_detail, banner_detail, story_detail, BannerDetail, StoryDetail,
  same_id,
}

-- `UpdateSubmissionDto`
pub record UpdateSubmission : Type 0 where
  pub version : ℕ
  pub input : KindInput
  pub start_at : Option ℕ
  pub end_at : Option ℕ
  pub target_group_ids : Option (List ℕ)

-- `kindColumnsOf`
abbrev pub kind_columns_of : Submission → KindColumns
kind_columns_of row = record {
  title = row.title;
  category_id = row.category_id;
  asset_id = row.asset_id;
  detail_url = row.detail_url;
  ziggle_notice_id = row.ziggle_notice_id;
  organizer_name = row.organizer_name;
  subtitle = row.subtitle;
  location = row.location;
  description = row.description;
}

-- `detailsOf` for one row: `details.load` of its kind
unfoldable pub detail_of : Submission → Db → Detail
detail_of row db = elim row.type [
  | poster ↦ no_detail
  | event_banner ↦ elim (find? (λ b. b.submission_id == row.id) db.event_banners) [
    | none ↦ no_detail
    | some b ↦ banner_detail (record {
      mode = b.mode;
      occasion = b.occasion;
      recipient = b.recipient;
      headline = b.headline;
      message = b.message;
      sender = b.sender;
      photo_consent = b.photo_consent;
    })
  ]
  | story ↦ elim (find? (λ s. s.submission_id == row.id) db.stories) [
    | none ↦ no_detail
    | some s ↦ story_detail (record { tag = s.tag; body = s.body; story_number = s.story_number })
  ]
]

-- `targetGroupIdsOf` for one row
unfoldable pub target_groups_of : ℕ → List Targeted → List ℕ
target_groups_of id targets =
    map (λ t. t.target_group_id) (filter (λ t. t.submission_id == id) targets)

abbrev pub same_text : Option String → Option String → Bool
same_text none none = true
same_text (some a) (some b) = same_string a b
same_text _ _ = false

abbrev pub same_mode : BannerMode → BannerMode → Bool
same_mode template template = true
same_mode image image = true
same_mode _ _ = false

abbrev same_value_of_occasion : Occasion → Occasion → Bool
same_value_of_occasion birthday birthday = true
same_value_of_occasion admission admission = true
same_value_of_occasion graduation graduation = true
same_value_of_occasion award award = true
same_value_of_occasion welcome welcome = true
same_value_of_occasion other other = true
same_value_of_occasion _ _ = false

abbrev same_occasion : Option Occasion → Option Occasion → Bool
same_occasion none none = true
same_occasion (some a) (some b) = same_value_of_occasion a b
same_occasion _ _ = false

abbrev same_bool : Bool → Bool → Bool
same_bool true b = b
same_bool false b = not b

-- `details.equals` of EVENT_BANNER_KIND
unfoldable pub same_banner : BannerDetail → BannerDetail → Bool
same_banner a b =
    same_mode a.mode b.mode
    && same_occasion a.occasion b.occasion
    && same_string a.recipient b.recipient
    && same_text a.headline b.headline
    && same_text a.message b.message
    && same_text a.sender b.sender
    && same_bool a.photo_consent b.photo_consent

-- `kind.details !== null && !kind.details.equals(…)`. A row whose kind has a detail has one stored.
abbrev pub detail_changed : Detail → Detail → Bool
detail_changed no_detail no_detail = false
detail_changed (banner_detail a) (banner_detail b) = not (same_banner a b)
detail_changed (story_detail a) (story_detail b) =
    not (same_string a.tag b.tag && same_string a.body b.body)
detail_changed _ _ = true

-- `sameSet`
abbrev pub same_set : List ℕ → List ℕ → Bool
same_set a b = length a == length b && all (λ x. any (λ y. y == x) b) a

abbrev pub groups_changed : Option (List ℕ) → List ℕ → Bool
groups_changed none current = false
groups_changed (some ids) current = not (same_set ids current)

-- `changes`: the columns with a new value
pub record Changes : Type 0 where
  pub title : Option String
  pub category_id : Option (Option ℕ)
  pub asset_id : Option (Option ℕ)
  pub detail_url : Option (Option String)
  pub ziggle_notice_id : Option (Option String)
  pub organizer_name : Option (Option String)
  pub subtitle : Option (Option String)
  pub location : Option (Option String)
  pub description : Option (Option String)
  pub start_at : Option ℕ
  pub end_at : Option ℕ

-- A value that is not the same as the current one
abbrev pub if_new {ℓ} : {A : Type ℓ} → (A → A → Bool) → A → A → Option A
if_new same new current = if same new current then none else some new

abbrev pub if_new_time : Option ℕ → Option ℕ → Option ℕ
if_new_time new current = if is_some new && not (same_id new current) then new else none

-- The loop over the columns
unfoldable pub changes_of : KindColumns → (start_at end_at : Option ℕ) → Submission → Changes
changes_of columns start_at end_at current = record {
  title = if_new same_string columns.title current.title;
  category_id = if_new same_id columns.category_id current.category_id;
  asset_id = if_new same_id columns.asset_id current.asset_id;
  detail_url = if_new same_text columns.detail_url current.detail_url;
  ziggle_notice_id = if_new same_text columns.ziggle_notice_id current.ziggle_notice_id;
  organizer_name = if_new same_text columns.organizer_name current.organizer_name;
  subtitle = if_new same_text columns.subtitle current.subtitle;
  location = if_new same_text columns.location current.location;
  description = if_new same_text columns.description current.description;
  start_at = if_new_time start_at current.start_at;
  end_at = if_new_time end_at current.end_at;
}

-- `Object.keys(changes)`
abbrev name_if : Bool → String → List String
name_if true name = name ∷ []
name_if false name = []

unfoldable pub changed_names : Changes → List String
changed_names c =
    name_if (is_some c.title) "title"
    ++ name_if (is_some c.category_id) "categoryId"
    ++ name_if (is_some c.asset_id) "assetId"
    ++ name_if (is_some c.detail_url) "detailUrl"
    ++ name_if (is_some c.ziggle_notice_id) "ziggleNoticeId"
    ++ name_if (is_some c.organizer_name) "organizerName"
    ++ name_if (is_some c.subtitle) "subtitle"
    ++ name_if (is_some c.location) "location"
    ++ name_if (is_some c.description) "description"
    ++ name_if (is_some c.start_at) "startAt"
    ++ name_if (is_some c.end_at) "endAt"

abbrev new_time : Option ℕ → Option ℕ → Option ℕ
new_time none current = current
new_time (some t) current = some t

-- `set({ ...changes })`
unfoldable pub with_changes : Changes → Submission → Submission
with_changes c row = record row {
  title = get_or c.title row.title;
  category_id = get_or c.category_id row.category_id;
  asset_id = get_or c.asset_id row.asset_id;
  detail_url = get_or c.detail_url row.detail_url;
  ziggle_notice_id = get_or c.ziggle_notice_id row.ziggle_notice_id;
  organizer_name = get_or c.organizer_name row.organizer_name;
  subtitle = get_or c.subtitle row.subtitle;
  location = get_or c.location row.location;
  description = get_or c.description row.description;
  start_at = new_time c.start_at row.start_at;
  end_at = new_time c.end_at row.end_at;
}
