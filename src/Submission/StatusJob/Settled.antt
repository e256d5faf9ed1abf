-- ===== src/Submission/StatusJob/Settled.antt =====
-- src/jobs/submission-status.job.ts: a second run at the same time has nothing to do.
use flyer_g_be.Base.{
  ℕ, ◌<◌, ◌≡◌, refl, ap, Bool, false, Bool-cases, inl, inr, Option, none, some, List, [], ◌∷◌, map,
  All, filter, arith, ◌∙◌, sym, subst,
}
use mathlib.Core.List.{append-nil}
use flyer_g_be.Submission.Data.{
  SubmissionType, Status, scheduled, published, ended, Submission, AuditAction, submission_ended,
  submission_published, submission_scheduled, Db,
}
use flyer_g_be.Submission.Store.{update_rows}
use flyer_g_be.Submission.StatusJob.{
  must_end, must_publish, must_schedule, moved, move, sync, is_accepted,
}
use flyer_g_be.Submission.StatusJob.Effective.{
  IsChecked, PeriodChecked, placed, period_of_accepted, sync-placed,
}

placed_other : (now : ℕ) (row : Submission) → is_accepted row.status ≡ false → placed now row ≡ row
unfolding placed
placed_other now row h = ground arith

placed_period :
    (now : ℕ) (row : Submission)
    → ((placed now row).start_at ≡ row.start_at) × ((placed now row).end_at ≡ row.end_at)
unfolding placed
placed_period now row = ground arith

PeriodChecked-of_some :
    (type : SubmissionType) (st : Status) (start_at end_at : Option ℕ) (s e : ℕ)
    → start_at ≡ some s
    → end_at ≡ some e
    → s < e
    → PeriodChecked type st start_at end_at
PeriodChecked-of_some type st (some s') (some e') s e p q h = ground arith
PeriodChecked-of_some type st (some s') none s e p q h = cc
PeriodChecked-of_some type st none end_at s e p q h = cc

-- The job keeps the table's checks.
pub placed-IsChecked : (now : ℕ) (row : Submission) → IsChecked row → IsChecked (placed now row)
placed-IsChecked now row h = elim (Bool-cases (is_accepted row.status)) [
  | inr other ↦ subst IsChecked (sym (placed_other now row other)) h
  | inl accepted ↦
      let (s, e, starts, ends, order) =
        period_of_accepted row.type row.status row.start_at row.end_at h accepted in
      let (same_start, same_end) = placed_period now row in
      PeriodChecked-of_some _ _ _ _ s e (same_start ∙ starts) (same_end ∙ ends) order
]

-- A row that the job has placed is not moved again at that time.
IsSettled : ℕ → Submission → Type 0
IsSettled now row =
    (must_end now row ≡ false) × (must_publish now row ≡ false) × (must_schedule now row ≡ false)

IsSettled-other : (now : ℕ) (row : Submission) → is_accepted row.status ≡ false → IsSettled now row
unfolding IsSettled must_end must_publish must_schedule
IsSettled-other now row h = (ground arith, ground arith, ground arith)

IsSettled-accepted :
    (now : ℕ) (row : Submission) (s e : ℕ)
    → row.start_at ≡ some s
    → row.end_at ≡ some e
    → IsSettled now (placed now row)
unfolding IsSettled placed must_end must_publish must_schedule
IsSettled-accepted now row s e starts ends = (ground arith, ground arith, ground arith)

placed-IsSettled : (now : ℕ) (row : Submission) → IsChecked row → IsSettled now (placed now row)
placed-IsSettled now row h = elim (Bool-cases (is_accepted row.status)) [
  | inr other ↦
      subst (IsSettled now) (sym (placed_other now row other)) (IsSettled-other now row other)
  | inl accepted ↦
      let (s, e, starts, ends, order) =
        period_of_accepted row.type row.status row.start_at row.end_at h accepted in
      IsSettled-accepted now row s e starts ends
]

All-IsSettled :
    (now : ℕ) (rows : List Submission)
    → All IsChecked rows
    → All (IsSettled now) (map (placed now) rows)
All-IsSettled now [] h = tt
All-IsSettled now (r ∷ rows) (h, hs) = (placed-IsSettled now r h, All-IsSettled now rows hs)

-- A statement that hits no row.
filter_none :
    (hit : Submission → Bool) (rows : List Submission)
    → All (λ r. hit r ≡ false) rows
    → filter hit rows ≡ []
filter_none hit [] h = refl
filter_none hit (r ∷ rows) (h, hs) = rw h (filter_none hit rows hs)

update_none :
    (hit : Submission → Bool) (set : Submission → Submission) (rows : List Submission)
    → All (λ r. hit r ≡ false) rows
    → update_rows hit set rows ≡ rows
unfolding update_rows
update_none hit set [] h = refl
update_none hit set (r ∷ rows) (h, hs) = rw h (ap (λ rest. r ∷ rest) (update_none hit set rows hs))

move_none :
    (now : ℕ) (st : Status) (action : AuditAction) (hit : Submission → Bool) (db : Db)
    → All (λ r. hit r ≡ false) db.submissions
    → move now st action hit db ≡ (db, 0)
unfolding move
move_none now st action hit db h =
    simp (
      filter_none hit db.submissions h,
      update_none hit (moved now st) db.submissions h,
      append-nil,
    )

All-first :
    (now : ℕ) (rows : List Submission)
    → All (IsSettled now) rows
    → All (λ r. must_end now r ≡ false) rows
      × All (λ r. must_publish now r ≡ false) rows
      × All (λ r. must_schedule now r ≡ false) rows
unfolding IsSettled
All-first now [] h = (tt, tt, tt)
All-first now (r ∷ rows) ((a, b, c), hs) =
    let (x, y, z) = All-first now rows hs in ((a, x), (b, y), (c, z))

sync_settled :
    (now : ℕ) (db : Db)
    → All (IsSettled now) db.submissions
    → sync now db ≡ (db, record { scheduled = 0; published = 0; ended = 0 })
unfolding sync
sync_settled now db h =
    let (no_end, no_publish, no_schedule) = All-first now db.submissions h in
    simp (
      move_none now ended submission_ended (must_end now) db no_end,
      move_none now published submission_published (must_publish now) db no_publish,
      move_none now scheduled submission_scheduled (must_schedule now) db no_schedule,
    )

-- On rows that satisfy the checks of the table, a second run of the status job at the same time
-- moves no row, raises no version and writes no audit entry.
sync_again :
    (now : ℕ) (db : Db)
    → All IsChecked db.submissions
    → sync now (sync now db).0
      ≡ ((sync now db).0, record { scheduled = 0; published = 0; ended = 0 })
sync_again now db h =
    sync_settled now (sync now db).0 (
      subst (All (IsSettled now)) (sym (sync-placed now db h)) (All-IsSettled now db.submissions h))
