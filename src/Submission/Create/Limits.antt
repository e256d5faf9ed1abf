-- ===== src/Submission/Create/Limits.antt =====
-- The daily limit of `create` in src/submissions/submissions.service.ts, and what its transaction
-- does to the table of submissions.
use flyer_g_be.Base.{
  ℕ, ◌+◌, ◌≤◌, ◌<◌, ◌==◌, ◌≡◌, ◌⊎◌, inl, inr, refl, sym, ap, ◌∙◌, subst, Bool, true, false, ◌&&◌,
  Bool-cases, Option-cases, some, List, [], ◌∷◌, ◌++◌, count, any, all, leb, arith, if◌then◌else◌,
}
use flyer_g_be.Failure.{AppException, ok, throw, exception, daily_limit_exceeded, server_error}
use flyer_g_be.Failure.Laws.{transaction-cases}
use flyer_g_be.Time.{seoul_date, start_of_seoul_day}
use flyer_g_be.Submission.Data.{
  SubmissionType, poster, event_banner, story, Submission, AuthUser, Db,
}
use flyer_g_be.Submission.Kinds.{kind_of}
use flyer_g_be.Submission.Content.{Detail, no_detail, banner_detail, story_detail}
use flyer_g_be.Submission.Create.{
  same_type, is_of_today, assert_daily_limit, new_submission, collides,
}
use flyer_g_be.Submission.Create.Call.{
  Creation, save_detail, insert_targets, create_body, create_commit,
}

-- The transaction is rolled back, or the daily limit allowed a row and it was added.
pub data Created (actor : AuthUser) (plan : Creation) (now id : ℕ) (db : Db) : Type 0 where
  rolled_back : (create_commit actor plan now id db).1 ≡ db → Created actor plan now id db
  added :
      ((create_commit actor plan now id db).1.submissions
        ≡ db.submissions
          ++ new_submission id plan.type actor plan.columns plan.start_at plan.end_at now ∷ [])
      → ((limit : ℕ)
          → (kind_of plan.type).daily_limit ≡ some limit
          → count (is_of_today actor.id plan.type now) db.submissions < limit)
      → Created actor plan now id db

-- Storing the detail comes through, and leaves the table of submissions.
pub save_detail-submissions :
    (id : ℕ) (d : Detail) (db : Db)
    → (after : Db) × (save_detail id d db ≡ (ok tt, after)) × (after.submissions ≡ db.submissions)
unfolding save_detail
save_detail-submissions id no_detail db = (db, refl, refl)
save_detail-submissions id (banner_detail d) db =
    ((save_detail id (banner_detail d) db).1, refl, refl)
save_detail-submissions id (story_detail d) db =
    ((save_detail id (story_detail d) db).1, refl, refl)

-- The target groups are stored, or one is gone; the table of submissions stays.
pub insert_targets-cases :
    (id : ℕ) (ids : List ℕ) (db : Db)
    → ((x : AppException) × (insert_targets id ids db ≡ (throw x, db)))
      ⊎ ((after : Db) × (insert_targets id ids db ≡ (ok tt, after))
          × (after.submissions ≡ db.submissions))
unfolding insert_targets
insert_targets-cases id ids db =
    elim (Bool-cases (all (λ i. any (λ g. g.id == i) db.target_groups) ids)) [
      | inl there ↦ inr ((insert_targets id ids db).1, ground arith, ground arith)
      | inr gone ↦ inl (exception 500 server_error, ground arith)
    ]

-- The limit is reached, or lets through and leaves everything as it was.
limit-cases :
    (actor : AuthUser) (type : SubmissionType) (now : ℕ) (db : Db)
    → ((x : AppException) × (assert_daily_limit actor type now db ≡ (throw x, db)))
      ⊎ (((limit : ℕ)
            → (kind_of type).daily_limit ≡ some limit
            → count (is_of_today actor.id type now) db.submissions < limit)
          × (assert_daily_limit actor type now db ≡ (ok tt, db)))
unfolding assert_daily_limit
limit-cases actor type now db = elim (Option-cases ((kind_of type).daily_limit)) [
  | inl n ↦ inr (λ limit h. absurd (ground arith), ground arith)
  | inr (limit, n) ↦
      elim (Bool-cases (leb limit (count (is_of_today actor.id type now) db.submissions))) [
        | inl full ↦ inl (exception 429 daily_limit_exceeded, ground arith)
        | inr free ↦ inr (λ limit' h. ground arith, ground arith)
      ]
]

-- What a transaction that came through did to the table of submissions.
create_body-ok :
    (actor : AuthUser) (plan : Creation) (now id : ℕ) (db after : Db)
    → create_body actor plan now id db ≡ (ok tt, after)
    → (after.submissions
        ≡ db.submissions
          ++ new_submission id plan.type actor plan.columns plan.start_at plan.end_at now ∷ [])
      × ((limit : ℕ)
          → (kind_of plan.type).daily_limit ≡ some limit
          → count (is_of_today actor.id plan.type now) db.submissions < limit)
      × (any
            (collides
              (new_submission id plan.type actor plan.columns plan.start_at plan.end_at now))
            db.submissions
          ≡ false)
unfolding create_body
create_body-ok actor plan now id db after e =
    let new = new_submission id plan.type actor plan.columns plan.start_at plan.end_at now in
    elim (limit-cases actor plan.type now db) [
      | inl (x, thrown) ↦ absurd (ground arith)
      | inr (few, passed) ↦ elim (Bool-cases (any (collides new) db.submissions)) [
        | inl hit ↦ absurd (ground arith)
        | inr free ↦
            let db1 : Db = record db { submissions = db.submissions ++ new ∷ [] } in
            let (db2, saved, same) = save_detail-submissions id plan.detail db1 in
            elim (insert_targets-cases id plan.target_group_ids db2) [
              | inl (x, thrown) ↦ absurd (ground arith)
              | inr (db3, targeted, still) ↦ (ground arith, few, free)
            ]
      ]
    ]

create_commit-cases :
    (actor : AuthUser) (plan : Creation) (now id : ℕ) (db : Db) → Created actor plan now id db
unfolding create_commit
create_commit-cases actor plan now id db =
    elim (transaction-cases (create_body actor plan now id) db) [
      | inl e ↦ rolled_back e
      | inr (u, after, body, e) ↦
          let (appended, few, free) = create_body-ok actor plan now id db after body in
          added (ap (λ r. r.1.submissions) e ∙ appended) few
    ]

abbrev pub is_of_day : ℕ → SubmissionType → ℕ → Submission → Bool
is_of_day user_id type day row =
    row.requester_id == user_id && same_type row.type type && seoul_date row.created_at == day

-- Of no kind with a limit has a user more rows of one day in Seoul than the limit.
abbrev pub IsWithinLimits : List Submission → Type 0
IsWithinLimits rows =
    (user_id : ℕ) (type : SubmissionType) (day limit : ℕ)
    → (kind_of type).daily_limit ≡ some limit
    → count (is_of_day user_id type day) rows ≤ limit

count-append :
    (p : Submission → Bool) (rows : List Submission) (new : Submission)
    → count p (rows ++ new ∷ []) ≡ count p rows + (if p new then 1 else 0)
count-append p [] new = ground arith
count-append p (r ∷ rows) new = ground (arith, count-append p rows new)

-- A row of a day was created from the start of that day on.
from_start : (now t : ℕ) → seoul_date t ≡ seoul_date now → start_of_seoul_day (seoul_date now) ≤ t
unfolding seoul_date start_of_seoul_day
from_start now t e = omega (arith, e)

today-le :
    (user_id : ℕ) (type : SubmissionType) (now : ℕ) (rows : List Submission)
    → count (is_of_day user_id type (seoul_date now)) rows
      ≤ count (is_of_today user_id type now) rows
today-le user_id type now [] = omega arith
today-le user_id type now (r ∷ rows) =
    elim (Bool-cases (seoul_date r.created_at == seoul_date now)) [
      | inl e ↦
          let from = from_start now r.created_at (ground arith) in
          ground (arith, today-le user_id type now rows)
      | inr e ↦ ground (arith, today-le user_id type now rows)
    ]

same_type-eq : (a b : SubmissionType) → same_type a b ≡ true → a ≡ b
same_type-eq poster poster e = refl
same_type-eq event_banner event_banner e = refl
same_type-eq story story e = refl
same_type-eq _ _ e = absurd (ground arith)

counted-same :
    (a b : ℕ) (s t : SubmissionType) (now day : ℕ)
    → (a == b && same_type s t && seoul_date now == day) ≡ true
    → (a ≡ b) × (s ≡ t) × (seoul_date now ≡ day)
counted-same a b s t now day e = (ground arith, same_type-eq s t (ground arith), ground arith)

-- The transaction that creates a submission keeps the daily limits of every user, kind and day in
-- Seoul, whatever time the clock shows.
pub create_commit-IsWithinLimits :
    (actor : AuthUser) (plan : Creation) (now id : ℕ) (db : Db)
    → IsWithinLimits db.submissions
    → IsWithinLimits (create_commit actor plan now id db).1.submissions
create_commit-IsWithinLimits actor plan now id db within user_id type day limit h =
    elim (create_commit-cases actor plan now id db) [
      | rolled_back e ↦ rw e (within user_id type day limit h)
      | added e few ↦
          let new = new_submission id plan.type actor plan.columns plan.start_at plan.end_at now in
          let before = within user_id type day limit h in
          let grown = count-append (is_of_day user_id type day) db.submissions new in
          rw e (elim (Bool-cases (is_of_day user_id type day new)) [
            | inr not_counted ↦ ground (arith, before, grown)
            | inl counted ↦
                let (u, t, d) = counted-same actor.id user_id plan.type type now day counted in
                let today = today-le actor.id plan.type now db.submissions in
                let room =
                  few limit (subst (λ x. (kind_of x).daily_limit ≡ some limit) (sym t) h) in
                let same : count (is_of_day user_id type day) db.submissions
                    ≡ count (is_of_day actor.id plan.type (seoul_date now)) db.submissions =
                  rw (sym u, sym t, sym d) refl in
                ground (arith, grown, today, room, same)
          ])
    ]
