-- ===== src/Submission/Calls/Interleaving.antt =====
-- The status graph under concurrency: a request reads and checks, other requests and the status
-- job write, and then the request writes.
use flyer_g_be.Base.{ℕ, ◌+◌, ◌≡◌, subst, some, arith}
use flyer_g_be.Failure.{ok}
use flyer_g_be.Submission.Data.{Submission, Db}
use flyer_g_be.Submission.Store.{find_row, transit}
use flyer_g_be.Submission.Store.Laws.{find_row-transit}
use flyer_g_be.Submission.History.Steps.{IsKeyed}
use flyer_g_be.Submission.Writes.{Write, current_of, status_after, commit, Reach}
use flyer_g_be.Submission.Writes.Evolution.{time_of, extra_of}
use flyer_g_be.Submission.Writes.Locking.{Wrote-of_ok, commit-current}
use flyer_g_be.Submission.Calls.{Call, prepare}
use flyer_g_be.Submission.Calls.Checks.{Allowed, id_of, prepare-IsPrepared}

-- The row before and after a write that takes an edge of the status graph.
pub record TakesEdge (id : ℕ) (before after : Db) : Type 0 where
  pub old : Submission
  pub new : Submission
  pub was : find_row id before.submissions ≡ some old
  pub is : find_row id after.submissions ≡ some new
  pub allowed : Allowed old.status new.status
  pub counted : new.version ≡ old.version + 1

transit_fields :
    (c : Submission) (w : Write)
    → ((transit c (status_after w) (time_of w) (extra_of w) c).status ≡ status_after w)
      × ((transit c (status_after w) (time_of w) (extra_of w) c).version ≡ c.version + 1)
unfolding transit
transit_fields c w = ground arith

-- In a table keyed by id, whatever other requests (creations aside) and the status job write
-- between the checks of a call and its transaction, the transaction, if it succeeds, takes the row
-- along an edge of the status graph and raises its version by one.
pub call-TakesEdge :
    (c : Call) (now : ℕ) (db later : Db) (w : Write)
    → IsKeyed db.submissions
    → prepare c now db ≡ (ok w, db)
    → Reach db later
    → (commit w later).0 ≡ ok tt
    → TakesEdge (id_of c) later (commit w later).1
call-TakesEdge c now db later w key prepared steps done =
    let checked = prepare-IsPrepared c now db db w prepared in
    let cur = current_of w in
    let next = transit cur (status_after w) (time_of w) (extra_of w) cur in
    let there = commit-current w db later key checked.read steps done in
    let after =
      find_row-transit cur (status_after w) (time_of w) (extra_of w) later.submissions there in
    let (st, v) = transit_fields cur w in
    record {
      old = cur;
      new = next;
      was = subst (λ i. find_row i later.submissions ≡ some cur) checked.target there;
      is =
          subst (λ i. find_row i (commit w later).1.submissions ≡ some next) checked.target
            (rw ((Wrote-of_ok w later done).rows) after);
      allowed = rw st checked.allowed;
      counted = v;
    }
