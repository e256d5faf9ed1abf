-- ===== src/Submission/Writes/Locking.antt =====
-- The optimistic lock of src/submissions/submissions.service.ts and src/reviews/reviews.service.ts:
-- what `version` guarantees to requests that read and write in any order.
use flyer_g_be.Base.{◌≡◌, inl, inr, some, arith}
use flyer_g_be.Failure.{ok}
use flyer_g_be.Submission.Data.{Submission, Db}
use flyer_g_be.Submission.Store.{find_row}
use flyer_g_be.Submission.History.Steps.{
  IsKeyed, find_row-Evolves, IsKeyed-Evolves, version_of_count,
}
use flyer_g_be.Submission.Writes.{Write, current_of, commit, Reach}
use flyer_g_be.Submission.Writes.Evolution.{Wrote, commit-cases, Reach-Evolves}

pub Wrote-of_ok : (w : Write) (db : Db) → (commit w db).0 ≡ ok tt → Wrote w db
Wrote-of_ok w db h = elim (commit-cases w db) [ inl e ↦ absurd (ground arith) | inr done ↦ done ]

-- In a table keyed by id, a write succeeds only if the row that is there then is, in every column,
-- the row that its request read, whatever was written in between.
pub commit-current :
    (w : Write) (db later : Db)
    → IsKeyed db.submissions
    → find_row (current_of w).id db.submissions ≡ some (current_of w)
    → Reach db later
    → (commit w later).0 ≡ ok tt
    → find_row (current_of w).id later.submissions ≡ some (current_of w)
commit-current w db later key read steps done =
    let evolved = Reach-Evolves steps in
    let (s, e, grown) =
      find_row-Evolves _ db.submissions later.submissions (current_of w) evolved read in
    let same =
      version_of_count (current_of w) later.submissions s
        (IsKeyed-Evolves db.submissions later.submissions evolved key)
        (Wrote-of_ok w later done).hit e in
    ground arith
