-- ===== src/Submission/Examples.antt =====
-- The life of a submission of src/submissions, src/reviews and src/jobs/submission-status.job.ts on
-- small tables.
use flyer_g_be.Base.{ℕ, ◌≡◌, ◌≢◌, ◌⊎◌, ◌↔◌, refl, false, none, some, List, [], ◌∷◌, map, All, arith}
use flyer_g_be.Failure.{ok, throw, AppException}
use flyer_g_be.Time.{is_seoul_midnight}
use flyer_g_be.Submission.Data.{
  poster, story, Status, pending_review, scheduled, published, Submission, Asset, AssetKind, ready,
  duplicate, Db, AuthUser, submitter, reviewer,
}
use flyer_g_be.Submission.Rules.{is_reviewer}
use flyer_g_be.Submission.Kinds.{validate_event_banner}
use flyer_g_be.Submission.Store.{find_row, no_submission}
use flyer_g_be.Submission.View.{find_one}
use flyer_g_be.Submission.View.Privacy.{find_one_hidden_iff}
use flyer_g_be.Submission.History.Steps.{IsKeyed}
use flyer_g_be.Submission.Reviews.{Approval, approve_check}
use flyer_g_be.Submission.StatusJob.{sync, run, moved, move, must_publish, must_end, must_schedule}
use flyer_g_be.Submission.StatusJob.Effective.{IsChecked, placed, sync-placed}
use flyer_g_be.Submission.Writes.{Write, commit, Reach, here, ran}
use flyer_g_be.Submission.Calls.{Call, prepare, serve}
use flyer_g_be.Submission.Calls.Checks.{IsPrepared, prepare-IsPrepared}
use flyer_g_be.Submission.Calls.Atomicity.{Served, serve-cases}
use flyer_g_be.Submission.Calls.Interleaving.{TakesEdge, call-TakesEdge}
use flyer_g_be.Submission.Calls.Periods.{commit-IsChecked}
use flyer_g_be.Submission.Calls.Approval.{IsApprovable, approve_check-IsApprovable}

abbrev requester : AuthUser
requester = record { id = 1; roles = submitter ∷ [] }

abbrev judge : AuthUser
judge = record { id = 9; roles = reviewer ∷ [] }

-- A poster with media 7 for the time from 1000 to 2000.
abbrev poster_row : ℕ → Status → Submission
poster_row id status = record {
  id = id;
  type = poster;
  requester_id = 1;
  ziggle_notice_id = none;
  title = "concert";
  category_id = none;
  asset_id = some 7;
  detail_url = none;
  start_at = some 1000;
  end_at = some 2000;
  status = status;
  priority = 0;
  organizer_name = none;
  subtitle = none;
  location = none;
  description = none;
  version = 3;
  submitted_at = some 10;
  created_at = 5;
  updated_at = 10;
}

abbrev media : Asset
media = record {
  id = 7;
  owner_id = 1;
  kind = AssetKind.image;
  status = ready;
  checksum = some "sha";
}

abbrev db_with : List Submission → Db
db_with rows = record {
  submissions = rows;
  assets = media ∷ [];
  stories = [];
  next_story_number = 1;
  event_banners = [];
  targets = [];
  categories = [];
  target_groups = [];
  reviews = [];
  audit_logs = [];
  emitted = 0;
}

-- One poster waits for review, and one is scheduled.
abbrev start : Db
start = db_with (poster_row 5 pending_review ∷ poster_row 6 scheduled ∷ [])

start-IsKeyed : IsKeyed start.submissions
start-IsKeyed = ((omega arith, tt), (tt, tt))

start-IsChecked : All IsChecked start.submissions
start-IsChecked = (omega arith, (omega arith, tt))

-- The approval of the poster that waits, as its checks leave it at the time 1500.
abbrev plan : Approval
plan = record {
  current = poster_row 5 pending_review;
  period = record { start_at = 1000; end_at = 2000 };
  status = published;
  asset_checksum = some "sha";
}

abbrev approving : Write
approving = Write.approve judge plan 1500

abbrev rejecting : Write
rejecting = Write.reject judge (poster_row 5 pending_review) duplicate "again" 1500

prepared : prepare (Call.approve judge 5 3) 1500 start ≡ (ok approving, start)
unfolding prepare approve_check find_row
prepared = refl

-- The status job runs between the approval's checks and its transaction.
abbrev later : Db
later = (run 1500 start).0

job_first : Reach start later
job_first = ran here 1500

later_done : (commit approving later).0 ≡ ok tt
unfolding commit run sync move must_publish must_end must_schedule
later_done = refl

later-IsChecked : All IsChecked later.submissions
unfolding run sync move must_publish must_end must_schedule
later-IsChecked = (omega arith, (omega arith, tt))

sync-placed_example : (sync 1500 start).0.submissions ≡ map (placed 1500) start.submissions
sync-placed_example = sync-placed 1500 start start-IsChecked

-- The job at 1500 publishes the poster that is scheduled, and leaves the other one.
sync_publishes :
    (sync 1500 start).0.submissions
    ≡ poster_row 5 pending_review ∷ moved 1500 published (poster_row 6 scheduled) ∷ []
unfolding sync move moved must_publish must_end must_schedule
sync_publishes = refl

serve-cases_example :
    ((e : AppException) × (serve (Call.approve judge 5 3) 1500 start ≡ (throw e, start)))
    ⊎ Served (Call.approve judge 5 3) 1500 start
serve-cases_example = serve-cases (Call.approve judge 5 3) 1500 start

prepare-IsPrepared_example : IsPrepared (Call.approve judge 5 3) start start approving
prepare-IsPrepared_example =
    prepare-IsPrepared (Call.approve judge 5 3) 1500 start start approving prepared

call-TakesEdge_example : TakesEdge 5 later (commit approving later).1
call-TakesEdge_example =
    call-TakesEdge (Call.approve judge 5 3) 1500 start later approving start-IsKeyed prepared
      job_first later_done

commit-IsChecked_example : All IsChecked (commit approving later).1.submissions
commit-IsChecked_example =
    commit-IsChecked (Call.approve judge 5 3) 1500 start later approving start-IsKeyed prepared
      job_first later-IsChecked

approved_now : approve_check 5 3 1500 start ≡ (ok plan, start)
unfolding approve_check find_row
approved_now = refl

approve_check-IsApprovable_example : IsApprovable 5 3 1500 start plan
approve_check-IsApprovable_example =
    approve_check-IsApprovable 5 3 1500 start start plan approved_now

one_day : validate_event_banner 1772377200000 1772463600000 0 ≡ []
unfolding validate_event_banner is_seoul_midnight
one_day = refl

abbrev story_row : Submission
story_row = record (poster_row 8 published) { type = story; asset_id = none }

abbrev stranger : AuthUser
stranger = record { id = 2; roles = submitter ∷ [] }

is_no_reviewer : is_reviewer stranger.roles ≡ false
unfolding is_reviewer
is_no_reviewer = refl

find_one_hidden_iff_example :
    ((row : Submission) → find_row 5 start.submissions ≡ some row → row.requester_id ≢ 2)
    ↔ (find_one stranger 5 start ≡ (throw no_submission, start))
find_one_hidden_iff_example = find_one_hidden_iff stranger 5 start is_no_reviewer
