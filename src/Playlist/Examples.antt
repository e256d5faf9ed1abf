-- ===== src/Playlist/Examples.antt =====
-- src/playlist/playlist.service.ts on two posters, one of them for a group of displays only, and a
-- live picture that shows it everywhere.
use flyer_g_be.Base.{ℕ, ◌≡◌, refl, true, Option, none, some, [], ◌∷◌, All, map, arith}
use flyer_g_be.Submission.Data.{
  Status, scheduled, published, poster, Submission, AssetKind, ready, Db,
}
use flyer_g_be.Submission.StatusJob.{run}
use flyer_g_be.Submission.StatusJob.Effective.{IsChecked}
use flyer_g_be.Lineup.{wall, submissions, Block, Lineup}
use flyer_g_be.Live.{LiveMain, show, LiveLayer}
use flyer_g_be.Playlist.{
  InfoBarEntry, Playlist, for_device, for_device_v2, shown_submission, shown_program, is_live,
  live_submissions, in_order, insert_row, targets_device, media_ready, submission_items,
  playlist_item, programs_of, with_shown,
}
use flyer_g_be.Playlist.StatusJob.{for_device-run}
use flyer_g_be.Playlist.References.{is_covered, has_submission, has_program, for_device_v2-covers}
use flyer_g_be.Playlist.Due.{Allowed, for_device_v2-Allowed}

abbrev poster_row : ℕ → Status → Submission
poster_row id status = record {
  id = id;
  type = poster;
  requester_id = 1;
  ziggle_notice_id = none;
  title = "concert";
  category_id = none;
  asset_id = some 7;
  detail_url = none;
  start_at = some 1000;
  end_at = some 2000;
  status = status;
  priority = 0;
  organizer_name = none;
  subtitle = none;
  location = none;
  description = none;
  version = 3;
  submitted_at = some 10;
  created_at = 5;
  updated_at = 10;
}

abbrev table : Db
table = record {
  submissions = poster_row 6 scheduled ∷ poster_row 8 published ∷ [];
  assets =
      record { id = 7; owner_id = 1; kind = AssetKind.image; status = ready; checksum = some "sha" }
      ∷ [];
  stories = [];
  next_story_number = 1;
  event_banners = [];
  targets = record { submission_id = 8; target_group_id = 3 } ∷ [];
  categories = [];
  target_groups = [];
  reviews = [];
  audit_logs = [];
  emitted = 0;
}

table-IsChecked : All IsChecked table.submissions
table-IsChecked = (omega arith, (omega arith, tt))

abbrev posters : Block ℕ
posters = record {
  id = 1;
  source = submissions;
  submission_type = some poster;
  program_id = none;
  duration_seconds = 10;
  per_visit = none;
  schedule = 0;
  enabled = true;
}

abbrev lineup : Lineup InfoBarEntry ℕ
lineup = record {
  settings = record {
    poster_layout = wall;
    rotation_seconds = 10;
    refresh_after_seconds = 60;
    info_bar = record { program_id = 2 } ∷ [];
    quiet_hours = [];
  };
  blocks = posters ∷ [];
}

abbrev layer : Option (LiveLayer LiveMain ℕ)
layer = some (record {
  main = some (record { content = show (some 8) (some 4); until = none });
  alert = none;
  set_by = 9;
  set_at = 1400;
})

abbrev playlist : Playlist ℕ ℕ
playlist = for_device_v2 lineup [] layer (2 ∷ 4 ∷ 5 ∷ []) 1500 table

-- Without the group, only the poster for all; with the live picture also what it shows
only_one : map (λ item. item.content.submission_id) (for_device [] 1500 table) ≡ 6 ∷ []
unfolding for_device live_submissions in_order insert_row is_live media_ready targets_device
    playlist_item
only_one = refl

both_shown : map (λ item. item.content.submission_id) (playlist.submissions poster) ≡ 6 ∷ 8 ∷ []
unfolding for_device_v2 with_shown submission_items live_submissions in_order insert_row is_live
    media_ready targets_device playlist_item
both_shown = refl

used_programs : playlist.programs ≡ 2 ∷ 4 ∷ []
unfolding for_device_v2 with_shown live_submissions in_order insert_row is_live media_ready
    targets_device programs_of
used_programs = refl

for_device-run_example :
    map (λ item. item.content) (for_device [] 1600 (run 1500 table).0)
    ≡ map (λ item. item.content) (for_device [] 1600 table)
for_device-run_example = for_device-run [] 1500 1600 table (omega arith) table-IsChecked

for_device_v2-covers_example :
    (is_covered (shown_submission playlist.main) (has_submission playlist) ≡ true)
    × (is_covered (shown_program playlist.main) (has_program playlist) ≡ true)
for_device_v2-covers_example = for_device_v2-covers lineup [] layer (2 ∷ 4 ∷ 5 ∷ []) 1500 table

for_device_v2-Allowed_example :
    All (Allowed [] (some 8) 1500 table poster) (playlist.submissions poster)
for_device_v2-Allowed_example =
    for_device_v2-Allowed lineup [] layer (2 ∷ 4 ∷ 5 ∷ []) 1500 table poster
