-- ===== src/Submission/StatusJob/Effective.antt =====
-- src/jobs/submission-status.job.ts against the status that the period alone gives.
use flyer_g_be.Base.{
  ℕ, ◌<◌, leb, ◌≡◌, ◌⊎◌, refl, Bool, true, false, Bool-cases, if◌then◌else◌, inl, inr, Option, none,
  some, List, [], ◌∷◌, map, All, arith, get_or,
}
use mathlib.Core.Path.{ap₂}
use flyer_g_be.Submission.Data.{
  SubmissionType, poster, event_banner, story, Status, draft, pending_review, rejected, approved,
  scheduled, published, ended, canceled, suspended, archived, Submission, Db,
}
use flyer_g_be.Submission.Store.{update_rows}
use flyer_g_be.Submission.StatusJob.{
  must_end, must_publish, must_schedule, moved, move, sync, is_accepted,
}

-- The statuses that the check `submissions_period_after_approval` lets go without a period.
abbrev pub is_unapproved : Status → Bool
is_unapproved draft = true
is_unapproved pending_review = true
is_unapproved rejected = true
is_unapproved canceled = true
is_unapproved archived = true
is_unapproved _ = false

-- The table's checks on the period, and that only a story can be without one.
abbrev pub MayLack : SubmissionType → Status → Type 0
MayLack story status = is_unapproved status ≡ true
MayLack _ _ = ⊥

abbrev pub PeriodChecked : SubmissionType → Status → Option ℕ → Option ℕ → Type 0
PeriodChecked type status (some start_at) (some end_at) = start_at < end_at
PeriodChecked type status none none = MayLack type status
PeriodChecked _ _ _ _ = ⊥

abbrev pub IsChecked : Submission → Type 0
IsChecked row = PeriodChecked row.type row.status row.start_at row.end_at

-- What an accepted submission is at a time, by its period; one that was published stays so.
abbrev pub effective : ℕ → Status → ℕ → ℕ → Status
effective now published start_at end_at = if leb end_at now then ended else published
effective now status start_at end_at =
    if is_accepted status
    then if leb end_at now then ended else if leb start_at now then published else scheduled
    else status

abbrev pub same : Status → Status → Bool
same approved approved = true
same scheduled scheduled = true
same published published = true
same ended ended = true
same draft draft = true
same pending_review pending_review = true
same rejected rejected = true
same canceled canceled = true
same suspended suspended = true
same archived archived = true
same _ _ = false

-- A row after the job: as it was if its status fits, and changed once if not.
unfoldable pub placed : ℕ → Submission → Submission
unfolding moved
placed now row =
    let status = effective now row.status (get_or row.start_at 0) (get_or row.end_at 0) in
    if same row.status status then row else moved now status row

-- The three moves on one row.
abbrev one : (Submission → Bool) → (Submission → Submission) → Submission → Submission
one hit set row = if hit row then set row else row

abbrev thrice : ℕ → Submission → Submission
thrice now row =
    one (must_schedule now) (moved now scheduled)
      (one (must_publish now) (moved now published) (one (must_end now) (moved now ended) row))

-- A row with a period.
module _ (now : ℕ) (row : Submission) (s e : ℕ) (starts : row.start_at ≡ some s)
    (ends : row.end_at ≡ some e) (order : s < e) where
  thrice-approved : row.status ≡ approved → thrice now row ≡ placed now row
  unfolding placed must_end must_publish must_schedule
  thrice-approved st = ground arith

  thrice-scheduled : row.status ≡ scheduled → thrice now row ≡ placed now row
  unfolding placed must_end must_publish must_schedule
  thrice-scheduled st = ground arith

  thrice-published : row.status ≡ published → thrice now row ≡ placed now row
  unfolding placed must_end must_publish must_schedule
  thrice-published st = ground arith

thrice-other :
    (now : ℕ) (row : Submission) → is_accepted row.status ≡ false → thrice now row ≡ placed now row
unfolding placed must_end must_publish must_schedule
thrice-other now row h = ground arith

pub period_of_accepted :
    (type : SubmissionType) (status : Status) (start_at end_at : Option ℕ)
    → PeriodChecked type status start_at end_at
    → is_accepted status ≡ true
    → (s : ℕ) × (e : ℕ) × (start_at ≡ some s) × (end_at ≡ some e) × (s < e)
period_of_accepted type status (some s) (some e) h a = (s, e, refl, refl, h)
period_of_accepted type status (some s) none h a = absurd h
period_of_accepted type status none (some e) h a = absurd h
period_of_accepted poster status none none h a = absurd h
period_of_accepted event_banner status none none h a = absurd h
period_of_accepted story status none none h a = absurd (not_both status h a)
  where
    not_both : (st : Status) → is_unapproved st ≡ true → is_accepted st ≡ true → ⊥
    not_both st u a = ground arith

pub accepted-cases :
    (st : Status) → is_accepted st ≡ true → (st ≡ approved) ⊎ (st ≡ scheduled) ⊎ (st ≡ published)
accepted-cases st h = ground arith

thrice-placed : (now : ℕ) (row : Submission) → IsChecked row → thrice now row ≡ placed now row
thrice-placed now row h = elim (Bool-cases (is_accepted row.status)) [
  | inr other ↦ thrice-other now row other
  | inl accepted ↦
      let (s, e, starts, ends, order) =
        period_of_accepted row.type row.status row.start_at row.end_at h accepted in
      elim (accepted-cases row.status accepted) [
        | inl st ↦ thrice-approved now row s e starts ends order st
        | inr (inl st) ↦ thrice-scheduled now row s e starts ends order st
        | inr (inr st) ↦ thrice-published now row s e starts ends order st
      ]
]

rows-placed :
    (now : ℕ) (rows : List Submission)
    → All IsChecked rows
    → update_rows (must_schedule now) (moved now scheduled) (
        update_rows
          (must_publish now)
          (moved now published)
          (update_rows (must_end now) (moved now ended) rows))
      ≡ map (placed now) rows
unfolding update_rows
rows-placed now [] h = refl
rows-placed now (r ∷ rows) (h, hs) = ap₂ ◌∷◌ (thrice-placed now r h) (rows-placed now rows hs)

-- On rows that satisfy the checks of the table, the three statements of the status job together
-- put every row into the status that its period gives at that time, leave rows that fit untouched,
-- and raise the version of each other row by one.
pub sync-placed :
    (now : ℕ) (db : Db)
    → All IsChecked db.submissions
    → (sync now db).0.submissions ≡ map (placed now) db.submissions
unfolding sync move
sync-placed now db h = rows-placed now db.submissions h
