-- ===== src/Playlist/References.antt =====
-- src/playlist/playlist.service.ts: what a live picture refers to is in the playlist.
use flyer_g_be.Base.{
  ℕ, ◌==◌, ◌≡◌, refl, ◌∙◌, Bool, true, ◌&&◌, ◌||◌, Bool-cases, Option-cases, inl, inr, Option, none,
  some, List, [], ◌∷◌, ◌++◌, map, filter, find?, any, arith,
}
use flyer_g_be.Submission.Data.{Submission, SubmissionType, poster, event_banner, story, Db}
use flyer_g_be.Submission.Create.{same_type}
use flyer_g_be.Lineup.{Lineup}
use flyer_g_be.Live.{Part, LiveMain, LiveLayer}
use flyer_g_be.Playlist.{
  targets_device, is_live, live_submissions, PlaylistItem, playlist_item, submission_items,
  Playlist, InfoBarEntry, shown_submission, shown_program, with_shown, with_program, programs_of,
  program_ids_of, optional, layer_main, for_device_v2,
}
use flyer_g_be.Playlist.Rows.{live_submissions-All, any-append, first-holds}

-- What is referred to, if anything, is there.
abbrev pub is_covered : Option ℕ → (ℕ → Bool) → Bool
is_covered none has = true
is_covered (some id) has = has id

abbrev pub has_item : (submissions : List PlaylistItem) → ℕ → Bool
has_item items id = any (λ item. item.content.submission_id == id) items

module _ {S B : Type 0} where
  -- Among the items of all kinds
  abbrev pub has_submission : Playlist S B → ℕ → Bool
  has_submission playlist id =
      has_item (playlist.submissions poster) id
      || has_item (playlist.submissions event_banner) id
      || has_item (playlist.submissions story) id

  abbrev pub has_program : Playlist S B → ℕ → Bool
  has_program playlist id = any (λ p. p == id) playlist.programs

is_first :
    (shown : ℕ) (now : ℕ) (db : Db) (row : Submission)
    → find? (λ r. true) (live_submissions now (λ r. r.id == shown) db) ≡ some row
    → ((row.id == shown) && is_live now db.assets row) ≡ true
is_first shown now db row e =
    first-holds (λ r. (r.id == shown) && is_live now db.assets r)
      (live_submissions now (λ r. r.id == shown) db) row
      (live_submissions-All now (λ r. r.id == shown) db) e

with_shown-covers :
    (now : ℕ) (db : Db) (targeted : List Submission) (main : Option (Part LiveMain))
    → is_covered
        (shown_submission (with_shown now db targeted main).1)
        (λ id. any (λ row. row.id == id) (with_shown now db targeted main).0)
      ≡ true
unfolding with_shown
with_shown-covers now db targeted main = elim (Option-cases (shown_submission main)) [
  | inl e ↦ rw (with_shown, e, e) refl
  | inr (shown, e) ↦ elim (Bool-cases (any (λ row. row.id == shown) targeted)) [
    | inl h ↦ rw (with_shown, e, h, e, h) refl
    | inr h ↦
        elim (Option-cases
          (find? (λ row. true) (live_submissions now (λ row. row.id == shown) db))) [
            | inl f ↦ rw (with_shown, e, h, f) refl
            | inr (row, f) ↦
                let k = is_first shown now db row f in
                rw (with_shown, e, h, f, e)
                  (any-append (λ r. r.id == shown) targeted row (ground (arith, k)))
          ]
  ]
]

has_item-any :
    (rows : List Submission) (type : SubmissionType) (id : ℕ)
    → has_item (submission_items rows type) id
      ≡ any (λ row. same_type row.type type && row.id == id) rows
unfolding submission_items playlist_item
has_item-any [] type id = refl
has_item-any (row ∷ rows) type id = ground (arith, has_item-any rows type id)

any-kinds :
    (rows : List Submission) (id : ℕ)
    → (any (λ row. same_type row.type poster && row.id == id) rows
        || any (λ row. same_type row.type event_banner && row.id == id) rows
        || any (λ row. same_type row.type story && row.id == id) rows)
      ≡ any (λ row. row.id == id) rows
any-kinds [] id = refl
any-kinds (row ∷ rows) id = ground (arith, any-kinds rows id)

items-cover :
    (rows : List Submission) (id : ℕ)
    → (has_item (submission_items rows poster) id
        || has_item (submission_items rows event_banner) id
        || has_item (submission_items rows story) id)
      ≡ any (λ row. row.id == id) rows
items-cover rows id =
    rw (has_item-any rows poster id, has_item-any rows event_banner id, has_item-any rows story id)
      (any-kinds rows id)

with_program-shown :
    (main : Option (Part LiveMain)) (found : List ℕ)
    → is_covered (shown_program (with_program main found)) (λ id. any (λ p. p == id) found) ≡ true
with_program-shown main found = ground arith

with_program-covers :
    (main : Option (Part LiveMain)) (found : List ℕ) (has : ℕ → Bool)
    → is_covered (shown_submission main) has ≡ true
    → is_covered (shown_submission (with_program main found)) has ≡ true
with_program-covers main found has h = ground arith

is_covered-same :
    (shown : Option ℕ) (has has' : ℕ → Bool)
    → ((id : ℕ) → has id ≡ has' id)
    → is_covered shown has ≡ is_covered shown has'
is_covered-same none has has' same = refl
is_covered-same (some id) has has' same = same id

module _ {S B : Type 0} where
  -- If a live picture is in the second version of the playlist and shows a submission, an item of
  -- it is among the items, and if it shows a program, the program is among the programs.
  pub for_device_v2-covers :
      (lineup : Lineup InfoBarEntry S) (groups : List ℕ) (live : Option (LiveLayer LiveMain B))
      (programs : List ℕ) (now : ℕ) (db : Db)
      → let playlist = for_device_v2 lineup groups live programs now db in
        (is_covered (shown_submission playlist.main) (has_submission playlist) ≡ true)
        × (is_covered (shown_program playlist.main) (has_program playlist) ≡ true)
  unfolding for_device_v2
  for_device_v2-covers lineup groups live programs now db =
      let blocks = filter (λ block. block.enabled) lineup.blocks in
      let targeted = live_submissions now (targets_device groups db.targets) db in
      let shown = with_shown now db targeted (layer_main live) in
      let found =
        programs_of
          (program_ids_of blocks
            ++ map (λ entry. entry.program_id) lineup.settings.info_bar
            ++ optional (shown_program shown.1))
          programs in
      (
        with_program-covers shown.1 found
            (has_submission (for_device_v2 lineup groups live programs now db))
            (is_covered-same (shown_submission shown.1)
                (has_submission (for_device_v2 lineup groups live programs now db))
                (λ id. any (λ row. row.id == id) shown.0) (items-cover shown.0)
              ∙ with_shown-covers now db targeted (layer_main live)),
        with_program-shown shown.1 found,
      )
