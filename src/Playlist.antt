-- ===== src/Playlist.antt =====
-- src/playlist/playlist.service.ts: what a display shows. The texts and addresses that an item is
-- made of, the hash of the content and the data of a program are left out: an item is the columns of
-- its row, and a program its id.
pub mod StatusJob
mod Rows
pub mod References
pub mod Due
mod Examples
use flyer_g_be.Base.{
  ℕ, ◌==◌, ltb, leb, String, Bool, true, false, not, ◌&&◌, ◌||◌, if◌then◌else◌, Option, none, some,
  is_some, get_or, List, [], ◌∷◌, ◌++◌, map, filter, find?, any,
}
use flyer_g_be.Submission.Data.{
  SubmissionType, poster, event_banner, story, Submission, Asset, AssetStatus, ready, Targeted, Db,
}
use flyer_g_be.Submission.Create.{same_type}
use flyer_g_be.Submission.StatusJob.{is_accepted, reached, ahead}
use flyer_g_be.Lineup.{LineupSettings, Block, Lineup}
use flyer_g_be.Live.{Part, LiveMain, game, show, LiveLayer}

-- `targetsDevice`, given the groups of the device
unfoldable pub targets_device : (groups : List ℕ) → List Targeted → Submission → Bool
targets_device groups targets row =
    not (any (λ t. t.submission_id == row.id) targets)
    || any (λ t. t.submission_id == row.id && any (λ g. g == t.target_group_id) groups) targets

abbrev is_ready : Option Asset → Bool
is_ready none = false
is_ready (some asset) = elim asset.status [ ready ↦ true | _ ↦ false ]

-- `or(isNull(assetId), eq(assets.status, 'READY'))` of the joined row
unfoldable pub media_ready : List Asset → Option ℕ → Bool
media_ready assets none = true
media_ready assets (some id) = is_ready (find? (λ a. a.id == id) assets)

-- The conditions of `liveSubmissions` beside `where`
unfoldable pub is_live : ℕ → List Asset → Submission → Bool
is_live now assets row =
    is_accepted row.status
    && reached row.start_at now
    && ahead row.end_at now
    && media_ready assets row.asset_id

-- `order by priority desc, start_at, id`
abbrev start_of : Submission → ℕ
start_of row = get_or row.start_at 0

abbrev pub goes_first : Submission → Submission → Bool
goes_first a b =
    ltb b.priority a.priority
    || (a.priority == b.priority
        && (ltb (start_of a) (start_of b) || (start_of a == start_of b && leb a.id b.id)))

unfoldable pub insert_row : Submission → List Submission → List Submission
insert_row row [] = row ∷ []
insert_row row (other ∷ rows) =
    let rest = insert_row row rows in
    if goes_first row other then row ∷ other ∷ rows else other ∷ rest

unfoldable pub in_order : List Submission → List Submission
in_order [] = []
in_order (row ∷ rows) = insert_row row (in_order rows)

-- `liveSubmissions`
unfoldable pub live_submissions : ℕ → (Submission → Bool) → Db → List Submission
live_submissions now where_ db =
    in_order (filter (λ row. where_ row && is_live now db.assets row) db.submissions)

-- An item, with the columns of the row that every kind's item is made of, and `revision`
pub record PlaylistContent : Type 0 where
  pub submission_id : ℕ
  pub type : SubmissionType
  pub title : String
  pub category_id : Option ℕ
  pub asset_id : Option ℕ
  pub detail_url : Option String
  pub starts_at : Option ℕ
  pub ends_at : Option ℕ
  pub priority : ℕ
  pub subtitle : Option String
  pub location : Option String
  pub organizer_name : Option String

pub record PlaylistItem : Type 0 where
  pub revision : ℕ
  pub content : PlaylistContent

-- `posterPlaylistItem`, `playlistEntry`
unfoldable pub playlist_item : Submission → PlaylistItem
playlist_item row = record {
  revision = row.version;
  content = record {
    submission_id = row.id;
    type = row.type;
    title = row.title;
    category_id = row.category_id;
    asset_id = row.asset_id;
    detail_url = row.detail_url;
    starts_at = row.start_at;
    ends_at = row.end_at;
    priority = row.priority;
    subtitle = row.subtitle;
    location = row.location;
    organizer_name = row.organizer_name;
  };
}

-- `forDevice`: its items
unfoldable pub for_device : (groups : List ℕ) → ℕ → Db → List PlaylistItem
for_device groups now db = map playlist_item (
    live_submissions now (λ row. same_type row.type poster && targets_device groups db.targets row)
      db)

-- The entries of the information bar, as far as they refer
pub record InfoBarEntry : Type 0 where
  pub program_id : ℕ

pub record Playlist (S B : Type 0) : Type 0 where
  pub settings : LineupSettings InfoBarEntry
  pub blocks : List (Block S)
  pub submissions : SubmissionType → List PlaylistItem
  pub programs : List ℕ
  pub main : Option (Part LiveMain)
  pub alert : Option (Part B)

abbrev pub shown_submission : Option (Part LiveMain) → Option ℕ
shown_submission none = none
shown_submission (some part) = elim part.content [ game ↦ none | show s p ↦ s ]

abbrev pub shown_program : Option (Part LiveMain) → Option ℕ
shown_program none = none
shown_program (some part) = elim part.content [ game ↦ none | show s p ↦ p ]

-- The rows that are shown and what is live, after the live picture's submission was looked up
unfoldable pub with_shown :
    ℕ → Db → List Submission → Option (Part LiveMain) → List Submission × Option (Part LiveMain)
with_shown now db targeted main = elim (shown_submission main) [
  | none ↦ (targeted, main)
  | some shown ↦
      if any (λ row. row.id == shown) targeted
      then (targeted, main)
      else elim (find? (λ row. true) (live_submissions now (λ row. row.id == shown) db)) [
        | none ↦ (targeted, none)
        | some row ↦ (targeted ++ row ∷ [], main)
      ]
]

-- `submissionItems`
unfoldable pub submission_items : List Submission → SubmissionType → List PlaylistItem
submission_items rows type = map playlist_item (filter (λ row. same_type row.type type) rows)

module _ {S : Type 0} where
  abbrev pub program_ids_of : List (Block S) → List ℕ
  program_ids_of [] = []
  program_ids_of (block ∷ blocks) = elim block.program_id [
    | none ↦ program_ids_of blocks
    | some id ↦ id ∷ program_ids_of blocks
  ]

abbrev pub optional : Option ℕ → List ℕ
optional none = []
optional (some id) = id ∷ []

-- `programsOf`: those that are there, each once
unfoldable pub programs_of : List ℕ → (programs : List ℕ) → List ℕ
programs_of ids programs = filter (λ p. any (λ id. id == p) ids) programs

-- A live picture of a program that is not there goes.
abbrev pub with_program : Option (Part LiveMain) → List ℕ → Option (Part LiveMain)
with_program main programs = elim (shown_program main) [
  | none ↦ main
  | some id ↦ if any (λ p. p == id) programs then main else none
]

module _ {B : Type 0} where
  abbrev pub layer_main : Option (LiveLayer LiveMain B) → Option (Part LiveMain)
  layer_main none = none
  layer_main (some layer) = layer.main

  abbrev pub layer_alert : Option (LiveLayer LiveMain B) → Option (Part B)
  layer_alert none = none
  layer_alert (some layer) = layer.alert

module _ {S B : Type 0} where
  -- `forDeviceV2`, given the lineup that the device follows, its groups, what is live, and the
  -- programs that there are
  unfoldable pub for_device_v2 :
      Lineup InfoBarEntry S
      → (groups : List ℕ) → Option (LiveLayer LiveMain B)
      → (programs : List ℕ) → ℕ
      → Db
      → Playlist S B
  for_device_v2 lineup groups live programs now db =
      let blocks = filter (λ block. block.enabled) lineup.blocks in
      let targeted = live_submissions now (targets_device groups db.targets) db in
      let (rows, main) = with_shown now db targeted (layer_main live) in
      let ids =
        program_ids_of blocks
        ++ map (λ entry. entry.program_id) lineup.settings.info_bar
        ++ optional (shown_program main) in
      let found = programs_of ids programs in
      record {
        settings = lineup.settings;
        blocks = blocks;
        submissions = submission_items rows;
        programs = found;
        main = with_program main found;
        alert = layer_alert live;
      }
