-- ===== src/Submission/View/Privacy.antt =====
-- Who learns what from `detail` and `findOne` of src/submissions/submissions.service.ts.
use flyer_g_be.Base.{ℕ, ◌≡◌, ◌≢◌, ◌↔◌, false, some, Option-cases, inl, inr, arith}
use flyer_g_be.Failure.{throw}
use flyer_g_be.Submission.Data.{Submission, Db, AuthUser}
use flyer_g_be.Submission.Rules.{is_reviewer}
use flyer_g_be.Submission.Store.{no_submission, find_row}
use flyer_g_be.Submission.View.{find_one}

-- findOne answers a user who is no reviewer with the same 404, and without a change, exactly if no
-- submission of that user has the id.
pub find_one_hidden_iff :
    (user : AuthUser) (id : ℕ) (db : Db)
    → is_reviewer user.roles ≡ false
    → ((row : Submission) → find_row id db.submissions ≡ some row → row.requester_id ≢ user.id)
      ↔ (find_one user id db ≡ (throw no_submission, db))
unfolding find_one
find_one_hidden_iff user id db h = (
  λ hidden. elim (Option-cases (find_row id db.submissions)) [
    | inl e ↦ ground arith
    | inr (row, e) ↦ let stranger = hidden row e in ground arith
  ],
  λ refused row e own. ground arith,
)
