-- ===== src/Submission/Writes/Evolution.antt =====
-- What every write leaves of the rows.
use flyer_g_be.Base.{ℕ, ◌+◌, ◌<◌, ◌≡◌, ◌⊎◌, inl, inr, Bool, true, List, count, Bool-cases, arith}
use flyer_g_be.Failure.{ok, throw}
use flyer_g_be.Submission.Data.{
  Status, pending_review, canceled, ended, published, scheduled, submission_ended,
  submission_published, submission_scheduled, Submission, Story, AuditAction, Db, AuthUser,
}
use flyer_g_be.Submission.Store.{
  Extra, submitted, period, nothing, transit, is_current, update_rows, in_conflict,
}
use flyer_g_be.Submission.Store.Laws.{apply_transition-cases}
use flyer_g_be.Submission.History.{Grows, Evolves, Evolves-refl, Evolves-trans, update_rows-Evolves}
use flyer_g_be.Submission.Kinds.{kind_of}
use flyer_g_be.Submission.Reviews.{number_story, on_approve}
use flyer_g_be.Submission.StatusJob.{moved, move, sync, run, must_end, must_publish, must_schedule}
use flyer_g_be.Submission.Update.{with_changes}
use flyer_g_be.Submission.Update.Call.{Edit, edited, update_commit}
use flyer_g_be.Submission.Update.Effect.{update_commit-cases}
use flyer_g_be.Submission.Writes.{
  Write, current_of, status_after, commit, Reach, here, wrote, updated, ran, submit, cancel,
  approve, reject, suspend,
}

-- The status and the other columns that a write sets.
transit-Grows :
    (current : Submission) (st : Status) (now : ℕ) (extra : Extra) (r : Submission)
    → is_current current r ≡ true
    → Grows r (transit current st now extra r)
unfolding transit
transit-Grows current st now extra r h = ground arith

moved-Grows : (now : ℕ) (st : Status) (r : Submission) → Grows r (moved now st r)
unfolding moved
moved-Grows now st r = ground arith

abbrev pub extra_of : Write → Extra
extra_of (submit actor current now) = submitted now
extra_of (approve reviewer plan now) = period plan.period
extra_of _ = nothing

abbrev pub time_of : Write → ℕ
time_of (submit actor current now) = now
time_of (cancel actor current now) = now
time_of (approve reviewer plan now) = now
time_of (reject reviewer current reason_code comment now) = now
time_of (suspend actor current reason now) = now

abbrev pub rows_after : Write → List Submission → List Submission
rows_after w rows =
    update_rows (is_current (current_of w))
      (transit (current_of w) (status_after w) (time_of w) (extra_of w)) rows

-- A transaction throws and leaves everything, or it found the row that was read and wrote.
pub record Wrote (w : Write) (db : Db) : Type 0 where
  pub done : (commit w db).0 ≡ ok tt
  pub hit : 0 < count (is_current (current_of w)) db.submissions
  pub rows : (commit w db).1.submissions ≡ rows_after w db.submissions

-- Numbering a story always succeeds, and leaves the submissions.
on_approve-cases :
    (current : Submission) (db : Db)
    → (stories : List Story) × (next : ℕ) × (on_approve current db
        ≡ (ok tt, record db { stories = stories; next_story_number = next }))
unfolding on_approve
on_approve-cases current db = elim (Bool-cases ((kind_of current.type).numbered)) [
  | inl e ↦
      (number_story current.id db.stories db.next_story_number, db.next_story_number + 1, rw e)
  | inr e ↦ (db.stories, db.next_story_number, rw e)
]

pub commit-cases : (w : Write) (db : Db) → (commit w db ≡ (throw in_conflict, db)) ⊎ Wrote w db
unfolding commit status_after
commit-cases (submit actor current now) db =
    elim (apply_transition-cases current pending_review now (submitted now) db) [
      | inl e ↦ inl (rw e)
      | inr (h, e) ↦ inr (record { done = rw e; hit = h; rows = rw e })
    ]
commit-cases (cancel actor current now) db =
    elim (apply_transition-cases current canceled now nothing db) [
      | inl e ↦ inl (rw e)
      | inr (h, e) ↦ inr (record { done = rw e; hit = h; rows = rw e })
    ]
commit-cases (approve reviewer plan now) db =
    elim (apply_transition-cases plan.current plan.status now (period plan.period) db) [
      | inl e ↦ inl (rw e)
      | inr (h, e) ↦
          let (stories, next, numbered) =
            on_approve-cases plan.current
              (record db { submissions = rows_after (approve reviewer plan now) db.submissions }) in
          inr (record { done = rw (e, numbered); hit = h; rows = rw (e, numbered) })
    ]
commit-cases (reject reviewer current reason_code comment now) db =
    elim (apply_transition-cases current Status.rejected now nothing db) [
      | inl e ↦ inl (rw e)
      | inr (h, e) ↦ inr (record { done = rw e; hit = h; rows = rw e })
    ]
commit-cases (suspend actor current reason now) db =
    elim (apply_transition-cases current Status.suspended now nothing db) [
      | inl e ↦ inl (rw e)
      | inr (h, e) ↦ inr (record { done = rw e; hit = h; rows = rw e })
    ]

pub commit-Evolves : (w : Write) (db : Db) → Evolves db.submissions (commit w db).1.submissions
commit-Evolves w db = elim (commit-cases w db) [
  | inl e ↦ rw e (Evolves-refl db.submissions)
  | inr done ↦ rw done.rows (
      update_rows-Evolves (is_current (current_of w)) _ db.submissions
        (transit-Grows (current_of w) (status_after w) (time_of w) (extra_of w)))
]

move-Evolves :
    (now : ℕ) (st : Status) (action : AuditAction) (hit : Submission → Bool) (db : Db)
    → Evolves db.submissions (move now st action hit db).0.submissions
unfolding move
move-Evolves now st action hit db =
    update_rows-Evolves hit (moved now st) db.submissions (λ r h. moved-Grows now st r)

-- Telling the displays changes no row.
pub run-submissions : (now : ℕ) (db : Db) → (run now db).0.submissions ≡ (sync now db).0.submissions
unfolding run
run-submissions now db = ground arith

run-Evolves : (now : ℕ) (db : Db) → Evolves db.submissions (run now db).0.submissions
unfolding sync
run-Evolves now db =
    let ends = (move now ended submission_ended (must_end now) db).0 in
    let starts = (move now published submission_published (must_publish now) ends).0 in
    let waits = (move now scheduled submission_scheduled (must_schedule now) starts).0 in
    rw (run-submissions now db) (
      Evolves-trans db.submissions ends.submissions waits.submissions
        (move-Evolves now ended submission_ended (must_end now) db)
        (Evolves-trans ends.submissions starts.submissions waits.submissions
          (move-Evolves now published submission_published (must_publish now) ends)
          (move-Evolves now scheduled submission_scheduled (must_schedule now) starts)))

edited-Grows :
    (edit : Edit) (r : Submission) → is_current edit.current r ≡ true → Grows r (edited edit r)
unfolding edited with_changes
edited-Grows edit r h = ground arith

update_commit-Evolves :
    (actor : AuthUser) (edit : Edit) (db : Db)
    → Evolves db.submissions (update_commit actor edit db).1.submissions
update_commit-Evolves actor edit db = elim (update_commit-cases actor edit db) [
  | inl e ↦ rw e (Evolves-refl db.submissions)
  | inr e ↦ rw e (
      update_rows-Evolves (is_current edit.current) (edited edit) db.submissions
        (edited-Grows edit))
]

pub Reach-Evolves : {db later : Db} → Reach db later → Evolves db.submissions later.submissions
Reach-Evolves here = Evolves-refl _
Reach-Evolves (wrote {later} r w) = Evolves-trans _ _ _ (Reach-Evolves r) (commit-Evolves w later)
Reach-Evolves (updated {later} r actor edit) =
    Evolves-trans _ _ _ (Reach-Evolves r) (update_commit-Evolves actor edit later)
Reach-Evolves (ran {later} r now) = Evolves-trans _ _ _ (Reach-Evolves r) (run-Evolves now later)
