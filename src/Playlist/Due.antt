-- ===== src/Playlist/Due.antt =====
-- src/playlist/playlist.service.ts: what is in a playlist may be shown.
use flyer_g_be.Base.{
  ℕ, ◌≤◌, ◌<◌, ◌==◌, ◌≡◌, refl, Bool, true, false, ◌&&◌, ◌||◌, Bool-cases, Option-cases, inl, inr,
  Option, none, some, List, [], ◌∷◌, All, find?, any, arith,
}
use flyer_g_be.Base.Keyed.{In, All-In, find?-In, All-append, All-both}
use flyer_g_be.Submission.Data.{Submission, SubmissionType, Db}
use flyer_g_be.Submission.Create.{same_type}
use flyer_g_be.Submission.StatusJob.{is_accepted}
use flyer_g_be.Lineup.{Lineup}
use flyer_g_be.Live.{Part, LiveMain, LiveLayer}
use flyer_g_be.Playlist.{
  targets_device, is_live, media_ready, live_submissions, PlaylistItem, playlist_item,
  submission_items, InfoBarEntry, shown_submission, with_shown, layer_main, for_device_v2,
}
use flyer_g_be.Playlist.Rows.{live_submissions-All, live_submissions-In}

abbrev pub is_shown : Option ℕ → ℕ → Bool
is_shown none id = false
is_shown (some shown) id = shown == id

-- A row that was accepted, in its period, with its media
abbrev pub IsDue : ℕ → Db → Submission → Type 0
IsDue now db row =
    (is_accepted row.status ≡ true)
    × ((s : ℕ) × (row.start_at ≡ some s) × (s ≤ now))
    × ((e : ℕ) × (row.end_at ≡ some e) × (now < e))
    × (media_ready db.assets row.asset_id ≡ true)

is_live-IsDue :
    (now : ℕ) (db : Db) (row : Submission) → is_live now db.assets row ≡ true → IsDue now db row
unfolding is_live
is_live-IsDue now db row h = elim (Option-cases row.start_at) [
  | inl none_ ↦ absurd (ground arith)
  | inr (s, starts) ↦ elim (Option-cases row.end_at) [
    | inl none_ ↦ absurd (ground arith)
    | inr (e, ends) ↦
        (ground arith, (s, starts, ground arith), (e, ends, ground arith), ground arith)
  ]
]

-- An item of a submission of the kind that may be shown at the time, and that is meant for the
-- device or is what the live picture shows
abbrev pub Allowed : (groups : List ℕ) → Option ℕ → ℕ → Db → SubmissionType → PlaylistItem → Type 0
Allowed groups shown now db type item =
    (row : Submission) × In row db.submissions
    × (playlist_item row ≡ item)
    × (same_type row.type type ≡ true)
    × IsDue now db row
    × ((targets_device groups db.targets row || is_shown shown row.id) ≡ true)

-- The rows that a row of a playlist can be
abbrev RowAllowed : (groups : List ℕ) → Option ℕ → ℕ → Db → Submission → Type 0
RowAllowed groups shown now db row =
    In row db.submissions
    × (is_live now db.assets row ≡ true)
    × ((targets_device groups db.targets row || is_shown shown row.id) ≡ true)

live_submissions-Allowed :
    (groups : List ℕ) (shown : Option ℕ) (now : ℕ) (where_ : Submission → Bool) (db : Db)
    → ((row : Submission)
        → where_ row ≡ true
        → (targets_device groups db.targets row || is_shown shown row.id) ≡ true)
    → All (RowAllowed groups shown now db) (live_submissions now where_ db)
live_submissions-Allowed groups shown now where_ db meant =
    All-both (λ row. In row db.submissions)
      (λ row. (where_ row && is_live now db.assets row) ≡ true) (RowAllowed groups shown now db)
      (live_submissions now where_ db)
      (λ row i h. (i, ground (arith, h), meant row (ground (arith, h))))
      (live_submissions-In now where_ db) (live_submissions-All now where_ db)

with_shown-Allowed :
    (groups : List ℕ) (now : ℕ) (db : Db) (targeted : List Submission)
    (main : Option (Part LiveMain)) (shown : Option ℕ)
    → shown_submission main ≡ shown
    → All (RowAllowed groups shown now db) targeted
    → All (RowAllowed groups shown now db) (with_shown now db targeted main).0
unfolding with_shown
with_shown-Allowed groups now db targeted main none e h = rw (with_shown, e) h
with_shown-Allowed groups now db targeted main (some id) e h =
    let found = live_submissions now (λ row. row.id == id) db in
    elim (Bool-cases (any (λ row. row.id == id) targeted)) [
      | inl k ↦ rw (with_shown, e, k) h
      | inr k ↦ elim (Option-cases (find? (λ row. true) found)) [
        | inl f ↦ rw (with_shown, e, k, f) h
        | inr (row, f) ↦
            let allowed =
              live_submissions-Allowed groups (some id) now (λ r. r.id == id) db
                (λ r same. ground (arith, same)) in
            rw (with_shown, e, k, f)
              (All-append (RowAllowed groups (some id) now db) targeted row h (
                All-In (RowAllowed groups (some id) now db) row found allowed
                  (find?-In (λ r. true) found row f).0))
      ]
    ]

items-Allowed :
    (groups : List ℕ) (shown : Option ℕ) (now : ℕ) (db : Db) (type : SubmissionType)
    (rows : List Submission)
    → All (RowAllowed groups shown now db) rows
    → All (Allowed groups shown now db type) (submission_items rows type)
unfolding submission_items
items-Allowed groups shown now db type [] h = tt
items-Allowed groups shown now db type (row ∷ rows) ((i, live, meant), hs) =
    elim (Bool-cases (same_type row.type type)) [
      | inl e ↦ rw (e) (
        (row, i, refl, e, is_live-IsDue now db row live, meant),
        items-Allowed groups shown now db type rows hs,
      )
      | inr e ↦ rw (e) (items-Allowed groups shown now db type rows hs)
    ]

module _ {S B : Type 0} where
  -- Every item that the second version of the playlist lists under a kind is that of a row of this
  -- kind whose status is approved, scheduled or published, whose period has begun and not ended,
  -- and whose media is ready if it has one, and it is meant for the device (without target groups,
  -- or for a group of the device) or is the one that the live picture shows.
  pub for_device_v2-Allowed :
      (lineup : Lineup InfoBarEntry S) (groups : List ℕ) (live : Option (LiveLayer LiveMain B))
      (programs : List ℕ) (now : ℕ) (db : Db) (type : SubmissionType)
      → All
          (Allowed groups (shown_submission (layer_main live)) now db type)
          ((for_device_v2 lineup groups live programs now db).submissions type)
  unfolding for_device_v2
  for_device_v2-Allowed lineup groups live programs now db type =
      let shown = shown_submission (layer_main live) in
      let targeted = live_submissions now (targets_device groups db.targets) db in
      items-Allowed groups shown now db type (with_shown now db targeted (layer_main live)).0 (
        with_shown-Allowed groups now db targeted (layer_main live) shown refl (
          live_submissions-Allowed groups shown now (targets_device groups db.targets) db
            (λ row h. ground (arith, h))))
