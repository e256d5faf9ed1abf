-- ===== src/Submission/Update/Examples.antt =====
-- Creating and changing submissions of src/submissions/submissions.service.ts on a small table.
use flyer_g_be.Base.{String, ◌≡◌, ◌⊎◌, refl, true, false, Option, none, some, [], ◌∷◌, arith}
use flyer_g_be.Failure.{ok, throw, exception, daily_limit_exceeded}
use flyer_g_be.Time.{seoul_date, start_of_seoul_day}
use flyer_g_be.Submission.Data.{
  poster, event_banner, story, approved, Submission, AssetKind, ready, Db, AuthUser, submitter,
}
use flyer_g_be.Submission.Rules.{has_started_publishing}
use flyer_g_be.Submission.Kinds.{kind_of}
use flyer_g_be.Submission.Text.{Url, title_of, notice_id_of, parse_detail_url, parsed}
use flyer_g_be.Submission.Content.{story_detail, empty_kind_columns, missing}
use flyer_g_be.Submission.Store.{find_row}
use flyer_g_be.Submission.View.{to_dto}
use flyer_g_be.Submission.Create.{assert_daily_limit}
use flyer_g_be.Submission.Create.Call.{Creation, create_body, create_commit}
use flyer_g_be.Submission.Create.Limits.{IsWithinLimits}
use flyer_g_be.Submission.StatusJob.{run}
use flyer_g_be.Submission.Writes.{here, ran}
use flyer_g_be.Submission.Life.{Life, begins, goes_on, creates, Life-IsWithinLimits}
use flyer_g_be.Submission.Update.{UpdateSubmission, target_groups_of}
use flyer_g_be.Submission.Update.Call.{update}
use flyer_g_be.Submission.Update.Guarded.{IsEdited, update-IsEdited}
use flyer_g_be.Submission.Update.Unchanged.{form_of, update-form}

abbrev requester : AuthUser
requester = record { id = 1; roles = submitter ∷ [] }

-- A parser that knows one address
abbrev notice_url : String
notice_url = "https://ziggle.gistory.me/notice/1041"

abbrev new_url : String → Option Url
new_url raw = some (record {
  protocol = "https:";
  has_credentials_or_port = false;
  hostname = "ziggle.gistory.me";
  pathname = "/notice/1041";
  href = notice_url;
})

notice : notice_id_of "/notice/1041/" ≡ some "1041"
unfolding notice_id_of
notice = refl

title : title_of "first line\n\nsecond  line" ≡ "first line second line"
unfolding title_of
title = refl

-- An approved poster of the requester that starts at 200000000
abbrev poster_row : Submission
poster_row = record {
  id = 5;
  type = poster;
  requester_id = 1;
  ziggle_notice_id = some "1041";
  title = "concert";
  category_id = some 3;
  asset_id = some 7;
  detail_url = some notice_url;
  start_at = some 200000000;
  end_at = some 300000000;
  status = approved;
  priority = 0;
  organizer_name = none;
  subtitle = some "live";
  location = none;
  description = none;
  version = 3;
  submitted_at = some 90000000;
  created_at = 90000000;
  updated_at = 95000000;
}

abbrev db : Db
db = record {
  submissions = poster_row ∷ [];
  assets =
      record { id = 7; owner_id = 1; kind = AssetKind.image; status = ready; checksum = none } ∷ [];
  stories = [];
  next_story_number = 1;
  event_banners = [];
  targets = [];
  categories = record { id = 3; is_active = true } ∷ [];
  target_groups = [];
  reviews = [];
  audit_logs = [];
  emitted = 0;
}

linked : parse_detail_url (new_url notice_url) ≡ parsed notice_url (some "1041")
unfolding parse_detail_url notice_id_of
linked = refl

there : find_row 5 db.submissions ≡ some poster_row
unfolding find_row
there = refl

not_started : has_started_publishing approved (some 200000000) 100000000 ≡ false
unfolding has_started_publishing
not_started = refl

update-form_example :
    update new_url requester 5 (form_of poster_row (target_groups_of 5 db.targets)) 100000000 db
    ≡ (ok (to_dto requester poster_row), db)
update-form_example =
    update-form new_url requester 5 100000000 poster_row db there refl refl refl not_started linked

-- The title changes.
abbrev renamed : UpdateSubmission
renamed = record {
  version = 3;
  input = record {
    title = some "recital";
    category_id = none;
    asset_id = none;
    detail_url = missing;
    organizer_name = missing;
    subtitle = missing;
    location = missing;
    description = missing;
    event_banner = none;
    story = none;
  };
  start_at = none;
  end_at = none;
  target_group_ids = none;
}

update-IsEdited_example :
    (row' : Submission) × (find_row 5
        (update new_url requester 5 renamed 100000000 db).1.submissions
      ≡ some row')
    × ((row' ≡ poster_row) ⊎ IsEdited requester 5 renamed 100000000 poster_row row')
update-IsEdited_example =
    update-IsEdited new_url requester 5 renamed 100000000 db 5 poster_row there

-- A story of the requester
abbrev plan : Creation
plan = record {
  type = story;
  columns = record empty_kind_columns { title = "hello" };
  detail = story_detail (record { tag = "OTHER"; body = "hello"; story_number = none });
  start_at = none;
  end_at = none;
  target_group_ids = [];
}

db-IsWithinLimits : IsWithinLimits db.submissions
unfolding kind_of
db-IsWithinLimits user_id poster day limit h = absurd (ground arith)
db-IsWithinLimits user_id event_banner day limit h = ground arith
db-IsWithinLimits user_id story day limit h = ground arith

abbrev after : Db
after = (create_commit requester plan 100000000 6 db).1

life : Life db (run 200000000 after).0
life = goes_on (creates begins requester plan 100000000 6) (ran here 200000000)

Life-IsWithinLimits_example : IsWithinLimits (run 200000000 after).0.submissions
Life-IsWithinLimits_example = Life-IsWithinLimits life db-IsWithinLimits

-- The sixth story of a day is refused.
abbrev told : Submission
told = record poster_row { type = story; created_at = 99000000; ziggle_notice_id = none }

abbrev full : Db
full = record db { submissions = told ∷ told ∷ told ∷ told ∷ told ∷ [] }

refused :
    (create_commit requester plan 100000000 6 full).0 ≡ throw (exception 429 daily_limit_exceeded)
unfolding create_commit create_body assert_daily_limit kind_of seoul_date start_of_seoul_day
refused = refl
