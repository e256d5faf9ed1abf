-- ===== src/Submission/Update/Effect.antt =====
-- What a call of `update` in src/submissions/submissions.service.ts does to the submissions.
use flyer_g_be.Base.{
  ℕ, String, ◌==◌, ◌≡◌, ◌⊎◌, inl, inr, refl, sym, ap, ◌∙◌, not, Bool-cases, Option-cases, Option,
  none, some, List, filter, count, arith,
}
use flyer_g_be.Failure.{AppException, Result, ok, throw, continue}
use flyer_g_be.Failure.Laws.{transaction-cases}
use flyer_g_be.Submission.Data.{AuthUser, Db}
use flyer_g_be.Submission.Text.{Url}
use flyer_g_be.Submission.Content.{Detail}
use flyer_g_be.Submission.Store.{find_row, find_own_row, is_current, in_conflict, update_rows}
use flyer_g_be.Submission.View.{detail}
use flyer_g_be.Submission.Create.{already_submitted_exception}
use flyer_g_be.Submission.Create.Limits.{save_detail-submissions, insert_targets-cases}
use flyer_g_be.Submission.Update.{UpdateSubmission}
use flyer_g_be.Submission.Update.Call.{
  Edit, edited, violates_notice, edit_row, save_if, replace_targets, update_body, update_commit,
  update_check, update,
}

save_if-submissions :
    (id : ℕ) (d : Option Detail) (db : Db)
    → (after : Db) × (save_if id d db ≡ (ok tt, after)) × (after.submissions ≡ db.submissions)
save_if-submissions id none db = (db, refl, refl)
save_if-submissions id (some d) db = save_detail-submissions id d db

replace_targets-cases :
    (id : ℕ) (ids : Option (List ℕ)) (db : Db)
    → ((x : AppException) × (after : Db) × (replace_targets id ids db ≡ (throw x, after)))
      ⊎ ((after : Db) × (replace_targets id ids db ≡ (ok tt, after))
          × (after.submissions ≡ db.submissions))
unfolding replace_targets
replace_targets-cases id none db = inr (db, refl, refl)
replace_targets-cases id (some ids) db =
    let cleared : Db = record db {
      targets = filter (λ t. not (t.submission_id == id)) db.targets;
    } in
    elim (insert_targets-cases id ids cleared) [
      | inl (x, e) ↦ inl (x, cleared, e)
      | inr (after, e, same) ↦ inr (after, e, same)
    ]

abbrev pub Rewritten : Edit → Db → Db → Type 0
Rewritten edit db after =
    after.submissions ≡ update_rows (is_current edit.current) (edited edit) db.submissions

-- The statement is refused, or rewrites the row that was read.
edit_row-cases :
    (edit : Edit) (db : Db)
    → ((x : AppException) × (edit_row edit db ≡ (throw x, db)))
      ⊎ ((after : Db) × (edit_row edit db ≡ (ok tt, after)) × Rewritten edit db after)
unfolding edit_row
edit_row-cases edit db = elim (Bool-cases (violates_notice edit db.submissions)) [
  | inl hit ↦ inl (already_submitted_exception, ground arith)
  | inr free ↦ elim (Bool-cases (count (is_current edit.current) db.submissions == 0)) [
    | inl lost ↦ inl (in_conflict, ground arith)
    | inr hits ↦ inr ((edit_row edit db).1, ground arith, ground arith)
  ]
]

update_body-ok :
    (actor : AuthUser) (edit : Edit) (db after : Db)
    → update_body actor edit db ≡ (ok tt, after)
    → Rewritten edit db after
unfolding update_body
update_body-ok actor edit db after e = elim (edit_row-cases edit db) [
  | inl (x, thrown) ↦ absurd (ground arith)
  | inr (db1, wrote, rewritten) ↦
      let (db2, saved, same) = save_if-submissions edit.current.id edit.detail db1 in
      elim (replace_targets-cases edit.current.id edit.target_group_ids db2) [
        | inl (x, db3, thrown) ↦ absurd (ground arith)
        | inr (db3, targeted, still) ↦
            let last : after.submissions ≡ db3.submissions = ground arith in
            last ∙ still ∙ same ∙ rewritten
      ]
]

-- The transaction of an update leaves the submissions, or rewrites the row that was read.
pub update_commit-cases :
    (actor : AuthUser) (edit : Edit) (db : Db)
    → ((update_commit actor edit db).1 ≡ db) ⊎ Rewritten edit db (update_commit actor edit db).1
unfolding update_commit
update_commit-cases actor edit db = elim (transaction-cases (update_body actor edit) db) [
  | inl e ↦ inl e
  | inr (u, after, body, e) ↦
      inr (ap (λ r. r.1.submissions) e ∙ update_body-ok actor edit db after body)
]

detail-pure : (id : ℕ) (actor : AuthUser) (db : Db) → (detail id actor db).1 ≡ db
unfolding detail
detail-pure id actor db = elim (Option-cases (find_row id db.submissions)) [
  | inl nowhere ↦ ground arith
  | inr (row, there) ↦ ground arith
]

answered-pure :
    (id : ℕ) (actor : AuthUser) (r : Result AppException Unit × Db)
    → (continue r (λ _. detail id actor)).1 ≡ r.1
answered-pure id actor (ok u, db) = detail-pure id actor db
answered-pure id actor (throw x, db) = refl

-- The checks change nothing.
update_check-pure :
    (new_url : String → Option Url) (actor : AuthUser) (id : ℕ) (dto : UpdateSubmission) (now : ℕ)
    (db : Db)
    → (update_check new_url actor id dto now db).1 ≡ db
unfolding update_check find_own_row
update_check-pure new_url actor id dto now db = elim (Option-cases (find_row id db.submissions)) [
  | inl nowhere ↦ ground arith
  | inr (row, there) ↦ ground arith
]

-- An update leaves the tables, or runs the transaction of an edit that its checks let through.
pub update-ran :
    (new_url : String → Option Url) (actor : AuthUser) (id : ℕ) (dto : UpdateSubmission) (now : ℕ)
    (db : Db)
    → ((update new_url actor id dto now db).1 ≡ db)
      ⊎ ((edit : Edit) × (update_check new_url actor id dto now db ≡ (ok (some edit), db))
          × ((update new_url actor id dto now db).1 ≡ (update_commit actor edit db).1))
unfolding update
update-ran new_url actor id dto now db = by_check (update_check new_url actor id dto now db) refl
  where
    by_check :
        (r : Result AppException (Option Edit) × Db)
        → update_check new_url actor id dto now db ≡ r
        → ((update new_url actor id dto now db).1 ≡ db)
          ⊎ ((edit : Edit) × (update_check new_url actor id dto now db ≡ (ok (some edit), db))
              × ((update new_url actor id dto now db).1 ≡ (update_commit actor edit db).1))
    by_check (throw x, after) e =
        let same = update_check-pure new_url actor id dto now db in inl (ground arith)
    by_check (ok none, after) e =
        let same = update_check-pure new_url actor id dto now db in
        let answered = detail-pure id actor db in inl (ground arith)
    by_check (ok (some edit), after) e =
        let same : after ≡ db =
          sym (ap (λ r. r.1) e) ∙ update_check-pure new_url actor id dto now db in
        let passed = e ∙ ap (λ s. (ok (some edit), s)) same in
        inr (edit, passed, rw passed (answered-pure id actor (update_commit actor edit db)))
