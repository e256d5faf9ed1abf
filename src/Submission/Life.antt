-- ===== src/Submission/Life.antt =====
-- The table of submissions over time, with new rows: everything that
-- src/submissions/submissions.service.ts, src/reviews/reviews.service.ts and
-- src/jobs/submission-status.job.ts write to it.
use flyer_g_be.Base.{ℕ, ◌≡◌, refl, List, [], ◌∷◌, count, arith}
use flyer_g_be.Submission.Data.{SubmissionType, Submission, AuthUser, Db}
use flyer_g_be.Submission.Create.Call.{Creation, create_commit}
use flyer_g_be.Submission.Create.Limits.{is_of_day, IsWithinLimits, create_commit-IsWithinLimits}
use flyer_g_be.Submission.History.{Grows, Evolves}
use flyer_g_be.Submission.Writes.{Reach}
use flyer_g_be.Submission.Writes.Evolution.{Reach-Evolves}

pub data Life (db : Db) : Db → Type 0 where
  begins : Life db db
  goes_on : {later next : Db} → Life db later → Reach later next → Life db next
  creates :
      {later : Db}
      → Life db later
      → (actor : AuthUser) → (plan : Creation) → (now id : ℕ)
      → Life db (create_commit actor plan now id later).1

is_of_day-Grows :
    (user_id : ℕ) (type : SubmissionType) (day : ℕ) (r s : Submission)
    → Grows r s
    → is_of_day user_id type day s ≡ is_of_day user_id type day r
is_of_day-Grows user_id type day r s g = rw (g.requester_id, g.type, g.created_at) refl

count-Evolves :
    (user_id : ℕ) (type : SubmissionType) (day : ℕ) (rs ss : List Submission)
    → Evolves rs ss
    → count (is_of_day user_id type day) ss ≡ count (is_of_day user_id type day) rs
count-Evolves user_id type day [] [] h = refl
count-Evolves user_id type day [] (s ∷ ss) h = absurd h
count-Evolves user_id type day (r ∷ rs) [] h = absurd h
count-Evolves user_id type day (r ∷ rs) (s ∷ ss) (g, h) =
    let same = is_of_day-Grows user_id type day r s g in
    ground (arith, count-Evolves user_id type day rs ss h)

-- The daily limits hold at all times if they held at the start: whatever is created, at any time
-- of the clock, and whatever is written to the rows by updates, reviews, requests and the status
-- job, no user has more submissions of a kind from one day in Seoul than the limit of the kind.
pub Life-IsWithinLimits :
    {db later : Db}
    → Life db later
    → IsWithinLimits db.submissions
    → IsWithinLimits later.submissions
Life-IsWithinLimits begins within = within
Life-IsWithinLimits (goes_on {later} {next} life steps) within = λ user_id type day limit h.
    let before = Life-IsWithinLimits life within user_id type day limit h in
    let same =
      count-Evolves user_id type day later.submissions next.submissions (Reach-Evolves steps) in
    rw same before
Life-IsWithinLimits (creates {later} life actor plan now id) within =
    create_commit-IsWithinLimits actor plan now id later (Life-IsWithinLimits life within)
