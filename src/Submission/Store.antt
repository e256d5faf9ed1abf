-- ===== src/Submission/Store.antt =====
-- What the services of src/submissions and src/reviews share: their queries and statements, and
-- the conditional write that every change of a status goes through.
pub mod Laws
use flyer_g_be.Base.{
  ℕ, ◌+◌, ◌==◌, Bool, true, false, not, ◌&&◌, ◌||◌, if◌then◌else◌, Option, none, some, List, [],
  ◌∷◌, ◌++◌, map, find?, count, is_some,
}
use flyer_g_be.Failure.{
  AppException, exception, not_found, conflict, ok, Action, get, modify, throw_if, pure, raise,
  ◌>>=◌, ◌>>◌,
}
use flyer_g_be.Submission.Data.{
  Status, pending_review, Submission, Asset, Story, Review, Actor, AuditAction, Metadata,
  AuditEntry, Db, AuthUser,
}
use flyer_g_be.Submission.Rules.{is_reviewer}
use flyer_g_be.Submission.Kinds.{Period}

abbrev pub Service : Type 0 → Type 0
Service A = Action Db AppException A

-- The exceptions `notFound()` and `conflict(…)`
abbrev pub no_submission : AppException
no_submission = exception 404 not_found

abbrev pub in_conflict : AppException
in_conflict = exception 409 conflict

-- `findRow`
unfoldable pub find_row : ℕ → List Submission → Option Submission
find_row id rows = find? (λ r. r.id == id) rows

-- A value that must be there.
module _ {A : Type 0} where
  abbrev pub found : Option A → AppException → Service A
  found none e = raise e
  found (some a) e = pure a

-- `findExisting` of src/reviews/reviews.service.ts
abbrev pub find_existing : ℕ → Service Submission
find_existing id = do db ← get; found (find_row id db.submissions) no_submission

abbrev is_pending : Status → Bool
is_pending pending_review = true
is_pending _ = false

-- `findPending`: the row as the reviewer saw it, still to be reviewed
unfoldable pub find_pending : ℕ → ℕ → Service Submission
unfolding find_row
find_pending id revision = do
  row ← find_existing id
  throw_if (not (row.version == revision)) in_conflict
  throw_if (not (is_pending row.status)) in_conflict
  pure row

-- `findOwnRow`: the requester's own row, as the requester saw it
unfoldable pub find_own_row : AuthUser → ℕ → ℕ → Service Submission
unfolding find_row
find_own_row user id version = do
  row ← find_existing id
  throw_if (not (row.requester_id == user.id)) no_submission
  throw_if (not (row.version == version)) in_conflict
  pure row

-- `update submissions set … where …`
unfoldable pub update_rows :
    (Submission → Bool) → (Submission → Submission) → List Submission → List Submission
update_rows hit set rows = map (λ r. if hit r then set r else r) rows

-- The statement with `returning`: how many rows it changed.
abbrev pub update_where : (Submission → Bool) → (Submission → Submission) → Service ℕ
update_where hit set db =
    (ok (count hit db.submissions), record db { submissions = update_rows hit set db.submissions })

-- The `extra` of `applyTransition`: other columns that the statement sets.
pub data Extra : Type 0 where
  nothing : Extra
  submitted : (at : ℕ) → Extra
  period : Period → Extra

abbrev pub set_extra : Extra → Submission → Submission
set_extra nothing row = row
set_extra (submitted at) row = record row { submitted_at = some at }
set_extra (period p) row = record row { start_at = some p.start_at; end_at = some p.end_at }

-- The row that the update writes: `{ ...extra, status, version: current.version + 1, updatedAt }`
unfoldable pub transit : Submission → Status → ℕ → Extra → Submission → Submission
transit current status now extra row =
    let row' = set_extra extra row in
    record row' { status = status; version = current.version + 1; updated_at = now }

-- `where id = current.id and version = current.version`
abbrev pub is_current : Submission → Submission → Bool
is_current current row = row.id == current.id && row.version == current.version

-- `applyTransition`
unfoldable pub apply_transition : Submission → Status → ℕ → Extra → Service Unit
unfolding update_rows transit
apply_transition current status now extra = do
  updated ← update_where (is_current current) (transit current status now extra)
  throw_if (updated == 0) in_conflict

-- `insert into reviews`, `AuditService.record`
abbrev pub insert_review : Review → Service Unit
insert_review review = modify (λ db. record db { reviews = db.reviews ++ review ∷ [] })

abbrev pub record_audit : AuditEntry → Service Unit
record_audit entry = modify (λ db. record db { audit_logs = db.audit_logs ++ entry ∷ [] })

-- `signageChanges.emit({ scope: 'ALL' })`
abbrev pub emit : Service Unit
emit = modify (λ db. record db { emitted = db.emitted + 1 })
