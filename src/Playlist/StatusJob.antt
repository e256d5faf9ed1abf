-- ===== src/Playlist/StatusJob.antt =====
-- src/playlist/playlist.service.ts judges what is shown by the period, so that it does not matter
-- when src/jobs/submission-status.job.ts last ran.
use flyer_g_be.Base.{
  ℕ, ◌≤◌, ◌<◌, ◌≡◌, refl, sym, ap, ◌∙◌, inl, inr, Bool, true, false, ◌&&◌, Bool-cases, some, List,
  [], ◌∷◌, All, map, filter, arith,
}
use mathlib.Core.Path.{ap₂}
use flyer_g_be.Submission.Data.{Submission, Asset, Targeted, Db, poster}
use flyer_g_be.Submission.Create.{same_type}
use flyer_g_be.Submission.StatusJob.{run, sync, moved, move, is_accepted}
use flyer_g_be.Submission.StatusJob.Effective.{
  IsChecked, placed, sync-placed, period_of_accepted, accepted-cases,
}
use flyer_g_be.Submission.Writes.Evolution.{run-submissions}
use flyer_g_be.Playlist.{
  targets_device, is_live, goes_first, insert_row, in_order, live_submissions, playlist_item,
  for_device,
}

-- What the job leaves of a row
module _ (t : ℕ) (row : Submission) where
  placed-id : (placed t row).id ≡ row.id
  unfolding placed moved
  placed-id = ground arith

  placed-content : (playlist_item (placed t row)).content ≡ (playlist_item row).content
  unfolding placed moved playlist_item
  placed-content = ground arith

  placed-type : (placed t row).type ≡ row.type
  unfolding placed moved
  placed-type = ground arith

  placed-other : is_accepted row.status ≡ false → placed t row ≡ row
  unfolding placed moved
  placed-other h = ground arith

-- The job at an earlier time does not change whether a row is shown.
module _ (t now : ℕ) (assets : List Asset) (row : Submission) where
  accepted-live :
      (s e : ℕ)
      → t ≤ now
      → row.start_at ≡ some s
      → row.end_at ≡ some e
      → s < e
      → is_accepted row.status ≡ true
      → is_live now assets (placed t row) ≡ is_live now assets row
  unfolding placed moved is_live
  accepted-live s e h starts ends order accepted = elim (accepted-cases row.status accepted) [
    | inl st ↦ ground arith
    | inr (inl st) ↦ ground arith
    | inr (inr st) ↦ ground arith
  ]

  placed-live : t ≤ now → IsChecked row → is_live now assets (placed t row) ≡ is_live now assets row
  placed-live h checked = elim (Bool-cases (is_accepted row.status)) [
    | inr other ↦ ap (is_live now assets) (placed-other t row other)
    | inl accepted ↦
        let (s, e, starts, ends, order) =
          period_of_accepted row.type row.status row.start_at row.end_at checked accepted in
        accepted-live s e h starts ends order accepted
  ]

-- The order of two rows reads nothing that the job writes.
placed-first : (t : ℕ) (a b : Submission) → goes_first (placed t a) (placed t b) ≡ goes_first a b
unfolding placed moved
placed-first t a b = ground arith

insert_row-placed :
    (t : ℕ) (row : Submission) (rows : List Submission)
    → insert_row (placed t row) (map (placed t) rows) ≡ map (placed t) (insert_row row rows)
unfolding insert_row
insert_row-placed t row [] = refl
insert_row-placed t row (other ∷ rows) =
    let first = placed-first t row other in
    let rest = insert_row-placed t row rows in
    elim (Bool-cases (goes_first row other)) [
      | inl h ↦ rw (first, h) refl
      | inr h ↦ rw (first, h, rest) refl
    ]

in_order-placed :
    (t : ℕ) (rows : List Submission)
    → in_order (map (placed t) rows) ≡ map (placed t) (in_order rows)
unfolding in_order
in_order-placed t [] = refl
in_order-placed t (row ∷ rows) =
    ap (insert_row (placed t row)) (in_order-placed t rows)
    ∙ insert_row-placed t row (in_order rows)

filter-placed :
    (t : ℕ) (keep keep' : Submission → Bool) (rows : List Submission)
    → All (λ row. keep (placed t row) ≡ keep' row) rows
    → filter keep (map (placed t) rows) ≡ map (placed t) (filter keep' rows)
filter-placed t keep keep' [] h = refl
filter-placed t keep keep' (row ∷ rows) (h, hs) =
    let rest = filter-placed t keep keep' rows hs in
    elim (Bool-cases (keep' row)) [ inl k ↦ rw (h, k, rest) refl | inr k ↦ rw (h, k, rest) refl ]

contents-placed :
    (t : ℕ) (rows : List Submission)
    → map (λ row. (playlist_item row).content) (map (placed t) rows)
      ≡ map (λ row. (playlist_item row).content) rows
contents-placed t [] = refl
contents-placed t (row ∷ rows) = ap₂ ◌∷◌ (placed-content t row) (contents-placed t rows)

run-assets : (t : ℕ) (db : Db) → (run t db).0.assets ≡ db.assets
unfolding run sync move
run-assets t db = ground arith

run-targets : (t : ℕ) (db : Db) → (run t db).0.targets ≡ db.targets
unfolding run sync move
run-targets t db = ground arith

kept-placed :
    (t now : ℕ) (where_ : Submission → Bool) (assets : List Asset) (rows : List Submission)
    → t ≤ now
    → ((row : Submission) → where_ (placed t row) ≡ where_ row)
    → All IsChecked rows
    → All
        (λ row.
          (where_ (placed t row) && is_live now assets (placed t row))
          ≡ (where_ row && is_live now assets row))
        rows
kept-placed t now where_ assets [] h same checked = tt
kept-placed t now where_ assets (row ∷ rows) h same (c, cs) = (
  ap₂ ◌&&◌ (same row) (placed-live t now assets row h c),
  kept-placed t now where_ assets rows h same cs,
)

live_submissions-run :
    (t now : ℕ) (where_ : Submission → Bool) (db : Db)
    → t ≤ now
    → ((row : Submission) → where_ (placed t row) ≡ where_ row)
    → All IsChecked db.submissions
    → live_submissions now where_ (run t db).0 ≡ map (placed t) (live_submissions now where_ db)
unfolding live_submissions
live_submissions-run t now where_ db h same checked =
    rw (run-assets t db, run-submissions t db, sync-placed t db checked)
      (ap in_order (
          filter-placed t (λ row. where_ row && is_live now db.assets row)
            (λ row. where_ row && is_live now db.assets row) db.submissions
            (kept-placed t now where_ db.assets db.submissions h same checked))
        ∙ in_order-placed t
            (filter (λ row. where_ row && is_live now db.assets row) db.submissions))

map-content :
    (rows : List Submission)
    → map (λ item. item.content) (map playlist_item rows)
      ≡ map (λ row. (playlist_item row).content) rows
map-content [] = refl
map-content (row ∷ rows) = ap ((playlist_item row).content ∷◌) (map-content rows)

meant-placed :
    (t : ℕ) (groups : List ℕ) (targets : List Targeted) (row : Submission)
    → (same_type (placed t row).type poster && targets_device groups targets (placed t row))
      ≡ (same_type row.type poster && targets_device groups targets row)
unfolding targets_device
meant-placed t groups targets row = rw (placed-type t row, placed-id t row) refl

-- On rows that satisfy the checks of the table on periods, the first version of the playlist has
-- the same items in the same order, apart from their revisions, whether or not the status job ran
-- at a time before.
pub for_device-run :
    (groups : List ℕ) (t now : ℕ) (db : Db)
    → t ≤ now
    → All IsChecked db.submissions
    → map (λ item. item.content) (for_device groups now (run t db).0)
      ≡ map (λ item. item.content) (for_device groups now db)
unfolding for_device
for_device-run groups t now db h checked =
    let where_ : Submission → Bool =
      λ row. same_type row.type poster && targets_device groups db.targets row in
    let shown = live_submissions now where_ db in
    rw (run-targets t db) (
      map-content (live_submissions now where_ (run t db).0)
      ∙ ap (map (λ row. (playlist_item row).content))
          (live_submissions-run t now where_ db h (meant-placed t groups db.targets) checked)
      ∙ contents-placed t shown
      ∙ sym (map-content shown))
