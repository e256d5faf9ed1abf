-- ===== src/Submission/Content/Resolve.antt =====
-- `resolve` and `equals` of the kinds: src/submissions/kinds/poster.kind.ts, event-banner.kind.ts and
-- story.kind.ts.
use flyer_g_be.Base.{
  ℕ, String, Bool, true, false, not, ◌&&◌, if◌then◌else◌, Option, none, some, is_some, get_or, [],
  ◌∷◌, ◌++◌,
}
use Prim.Native.String
use flyer_g_be.Failure.{FieldErrors}
use flyer_g_be.Submission.Data.{
  SubmissionType, poster, event_banner, story, BannerMode, template, image, Occasion, birthday,
  admission, graduation, award, welcome, other, Db, AuthUser,
}
use flyer_g_be.Submission.Text.{same_string, title_of, Url, refused, parsed, parse_detail_url}
use flyer_g_be.Submission.Content.{
  Field, missing, null, value, BannerInput, KindInput, KindColumns, empty_kind_columns, Detail,
  no_detail, banner_detail, story_detail, CurrentContent, ResolvedContent, patched, first_of,
  error_if, columns_of, is_new_category, has_problem,
}

-- The link of a poster after an input: whether it is refused, the link, and the notice
abbrev pub link_of :
    (String → Option Url) → Field String → KindColumns → Bool × Option String × Option String
link_of new_url missing prev = (false, prev.detail_url, prev.ziggle_notice_id)
link_of new_url null prev = (false, none, none)
link_of new_url (value raw) prev = elim (parse_detail_url (new_url raw)) [
  | refused ↦ (true, prev.detail_url, prev.ziggle_notice_id)
  | parsed url notice ↦ (false, some url, notice)
]

-- `POSTER_KIND.resolve`. A form that creates a poster has its title, category and media.
unfoldable pub resolve_poster :
    (String → Option Url) → AuthUser → KindInput → Option CurrentContent → Db → ResolvedContent
unfolding parse_detail_url
resolve_poster new_url user input current db =
    let prev = columns_of current in
    let category_id = first_of input.category_id prev.category_id in
    let asset_id = first_of input.asset_id prev.asset_id in
    let (url_refused, detail_url, ziggle_notice_id) = link_of new_url input.detail_url prev in
    record {
      errors =
          error_if url_refused "detailUrl"
          ++ error_if (is_new_category category_id prev.category_id db) "categoryId"
          ++ error_if (has_problem user asset_id prev.asset_id true db) "assetId";
      columns = record {
        title = get_or input.title prev.title;
        category_id = category_id;
        asset_id = asset_id;
        detail_url = detail_url;
        ziggle_notice_id = ziggle_notice_id;
        organizer_name = patched input.organizer_name prev.organizer_name;
        subtitle = patched input.subtitle prev.subtitle;
        location = patched input.location prev.location;
        description = patched input.description prev.description;
      };
      detail = no_detail;
    }

-- `OCCASION_LABELS`
abbrev pub occasion_label : Occasion → String
occasion_label birthday = "생일"
occasion_label admission = "합격"
occasion_label graduation = "졸업"
occasion_label award = "수상"
occasion_label welcome = "환영"
occasion_label other = "소식"

abbrev pub is_template : BannerMode → Bool
is_template template = true
is_template image = false

-- A text that is there and not empty
abbrev is_filled : Option String → Bool
is_filled none = false
is_filled (some s) = not (same_string s "")

-- The errors of the fields of a banner, without its media
abbrev banner_errors : BannerInput → FieldErrors
banner_errors banner =
    if is_template banner.mode
    then error_if (not (is_some banner.occasion)) "eventBanner.occasion"
      ++ error_if (not (is_filled banner.headline)) "eventBanner.headline"
      ++ error_if (not (is_filled banner.message)) "eventBanner.message"
      ++ error_if (is_some banner.asset_id) "eventBanner.assetId"
      ++ error_if (is_some banner.photo_asset_id && not banner.photo_consent)
          "eventBanner.photoConsent"
    else error_if (not (is_some banner.asset_id)) "eventBanner.assetId"
      ++ error_if (is_some banner.photo_asset_id) "eventBanner.photoAssetId"

abbrev media_of : BannerInput → Option ℕ
media_of banner = if is_template banner.mode then banner.photo_asset_id else banner.asset_id

abbrev media_field : BannerMode → String
media_field template = "eventBanner.photoAssetId"
media_field image = "eventBanner.assetId"

abbrev label_of : Option Occasion → String
label_of none = "이벤트 배너"
label_of (some occasion) = occasion_label occasion

-- What is kept where an update leaves the content out; a new submission must have it.
abbrev kept : Option CurrentContent → String → Detail → ResolvedContent
kept none field empty = record { errors = field ∷ []; columns = empty_kind_columns; detail = empty }
kept (some current) field empty = record {
  errors = [];
  columns = current.columns;
  detail = current.detail;
}

-- `emptyDetail`
abbrev empty_detail : Detail
empty_detail = banner_detail (record {
  mode = template;
  occasion = none;
  recipient = "";
  headline = none;
  message = none;
  sender = none;
  photo_consent = false;
})

abbrev resolve_banner : AuthUser → BannerInput → Option CurrentContent → Db → ResolvedContent
resolve_banner user banner current db =
    let media = media_of banner in
    let prev = columns_of current in
    record {
      errors =
          banner_errors banner
          ++ error_if (has_problem user media prev.asset_id false db) (media_field banner.mode);
      columns = record empty_kind_columns {
        title =
            String.◌++◌ (label_of banner.occasion)
              (String.◌++◌ " · " (String.◌++◌ banner.recipient "에게"));
        asset_id = media;
      };
      detail = banner_detail (record {
        mode = banner.mode;
        occasion = banner.occasion;
        recipient = banner.recipient;
        headline = banner.headline;
        message = banner.message;
        sender = banner.sender;
        photo_consent = is_template banner.mode && is_some media && banner.photo_consent;
      });
    }

-- `EVENT_BANNER_KIND.resolve`
unfoldable pub resolve_event_banner :
    AuthUser → KindInput → Option CurrentContent → Db → ResolvedContent
resolve_event_banner user input current db = elim input.event_banner [
  | none ↦ kept current "eventBanner" empty_detail
  | some banner ↦ resolve_banner user banner current db
]

abbrev number_of : Option CurrentContent → Option ℕ
number_of none = none
number_of (some current) = elim current.detail [ story_detail d ↦ d.story_number | _ ↦ none ]

-- `STORY_KIND.resolve`
unfoldable pub resolve_story : KindInput → Option CurrentContent → ResolvedContent
unfolding title_of
resolve_story input current = elim input.story [
  | none ↦
      kept current "story" (story_detail (record { tag = "OTHER"; body = ""; story_number = none }))
  | some new ↦ record {
    errors = [];
    columns = record empty_kind_columns { title = title_of new.body };
    detail =
        story_detail (record { tag = new.tag; body = new.body; story_number = number_of current });
  }
]

-- `resolve` of the kind
unfoldable pub resolve :
    (String → Option Url)
    → SubmissionType
    → AuthUser
    → KindInput
    → Option CurrentContent
    → Db
    → ResolvedContent
resolve new_url poster user input current db = resolve_poster new_url user input current db
resolve new_url event_banner user input current db = resolve_event_banner user input current db
resolve new_url story user input current db = resolve_story input current
