-- ===== src/Submission/StatusJob.antt =====
-- src/jobs/submission-status.job.ts: the stored statuses follow the periods. `withJobLock` lets one
-- job run at a time; a run that does not get the lock does nothing and is left out here.
pub mod Effective
pub mod Settled
use flyer_g_be.Base.{
  ℕ, ◌+◌, leb, ltb, Bool, true, false, ◌&&◌, if◌then◌else◌, Option, none, some, ◌++◌, map, filter,
  length,
}
use flyer_g_be.Submission.Data.{
  Status, approved, scheduled, published, ended, Submission, system, AuditAction,
  submission_scheduled, submission_published, submission_ended, to_status, AuditEntry, Db,
}
use flyer_g_be.Submission.Store.{update_rows}

-- `lte(column, now)` and `gt(column, now)`: neither holds of a null.
abbrev pub reached : Option ℕ → ℕ → Bool
reached none now = false
reached (some t) now = leb t now

abbrev pub ahead : Option ℕ → ℕ → Bool
ahead none now = false
ahead (some t) now = ltb now t

abbrev pub is_accepted : Status → Bool
is_accepted approved = true
is_accepted scheduled = true
is_accepted published = true
is_accepted _ = false

abbrev is_waiting : Status → Bool
is_waiting approved = true
is_waiting scheduled = true
is_waiting _ = false

abbrev is_unplaced : Status → Bool
is_unplaced approved = true
is_unplaced _ = false

-- The conditions of the three moves.
unfoldable pub must_end : ℕ → Submission → Bool
must_end now row = is_accepted row.status && reached row.end_at now

unfoldable pub must_publish : ℕ → Submission → Bool
must_publish now row = is_waiting row.status && reached row.start_at now && ahead row.end_at now

unfoldable pub must_schedule : ℕ → Submission → Bool
must_schedule now row = is_unplaced row.status && ahead row.start_at now

-- The row that `move` writes.
unfoldable pub moved : ℕ → Status → Submission → Submission
moved now status row = record row { status = status; version = row.version + 1; updated_at = now }

abbrev entry_of : ℕ → Status → AuditAction → Submission → AuditEntry
entry_of now status action row = record {
  actor = system;
  action = action;
  target = row.id;
  reason = none;
  metadata = to_status status;
  at = now;
}

-- `move`, with the number of rows that it changed
unfoldable pub move : ℕ → Status → AuditAction → (Submission → Bool) → Db → Db × ℕ
unfolding update_rows moved
move now status action hit db =
    let rows = filter hit db.submissions in
    (
      record db {
        submissions = update_rows hit (moved now status) db.submissions;
        audit_logs = db.audit_logs ++ map (entry_of now status action) rows;
      },
      length rows,
    )

pub record StatusSyncResult : Type 0 where
  pub scheduled : ℕ
  pub published : ℕ
  pub ended : ℕ

-- `sync`: what has ended goes first.
unfoldable pub sync : ℕ → Db → Db × StatusSyncResult
sync now db =
    let (db', ended_rows) = move now ended submission_ended (must_end now) db in
    let (db'', published_rows) = move now published submission_published (must_publish now) db' in
    let (db''', scheduled_rows) =
      move now scheduled submission_scheduled (must_schedule now) db'' in
    (db''', record { scheduled = scheduled_rows; published = published_rows; ended = ended_rows })

-- `run`
unfoldable pub run : ℕ → Db → Db × StatusSyncResult
run now db =
    let (db', result) = sync now db in
    (
      if ltb 0 (result.published + result.ended)
          then record db' { emitted = db'.emitted + 1 }
          else db',
      result,
    )
