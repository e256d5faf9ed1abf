-- ===== src/Submission/Update/Guarded.antt =====
-- Which submissions a call of `update` in src/submissions/submissions.service.ts changes, and what
-- it leaves of them.
use flyer_g_be.Base.{
  ℕ, String, ◌+◌, ◌==◌, ◌≡◌, ◌⊎◌, inl, inr, refl, sym, ap, ◌∙◌, subst, true, false, Bool-cases,
  Option, none, some, find?, arith, if◌then◌else◌,
}
use flyer_g_be.Base.Keyed.{find?-map, find?-In}
use flyer_g_be.Submission.Data.{Submission, AuthUser, Db}
use flyer_g_be.Submission.Rules.{is_editable, needs_reapproval, has_started_publishing}
use flyer_g_be.Submission.Text.{Url}
use flyer_g_be.Submission.Store.{find_row, is_current, update_rows}
use flyer_g_be.Submission.Update.{UpdateSubmission, with_changes}
use flyer_g_be.Submission.Update.Call.{Edit, next_status, edited, update_commit, update}
use flyer_g_be.Submission.Update.Laws.{IsOpen, update_check-IsOpen}
use flyer_g_be.Submission.Update.Effect.{Rewritten, update_commit-cases, update-ran}

-- A row before a call of `update` and after it, where the call changed it
pub record IsEdited (actor : AuthUser) (id : ℕ) (dto : UpdateSubmission) (now : ℕ)
    (row row' : Submission) : Type 0 where
  pub target : row.id ≡ id
  pub owner : row.requester_id ≡ actor.id
  pub seen : row.version ≡ dto.version
  pub editable : is_editable row.status ≡ true
  pub not_started : has_started_publishing row.status row.start_at now ≡ false
  pub status : row'.status ≡ next_status row.status
  pub submitted :
      row'.submitted_at ≡ (if needs_reapproval row.status then some now else row.submitted_at)
  pub version : row'.version ≡ row.version + 1
  pub same :
      (row'.id ≡ row.id)
      × (row'.type ≡ row.type)
      × (row'.requester_id ≡ row.requester_id)
      × (row'.priority ≡ row.priority)
      × (row'.created_at ≡ row.created_at)

edited-IsEdited :
    (actor : AuthUser) (id : ℕ) (dto : UpdateSubmission) (now : ℕ) (db : Db) (edit : Edit)
    → IsOpen actor id dto.version now db edit
    → edit.current.id ≡ id
    → IsEdited actor id dto now edit.current (edited edit edit.current)
unfolding edited with_changes
edited-IsEdited actor id dto now db edit o e =
    let at = o.at in
    record {
      target = e;
      owner = o.owner;
      seen = o.seen;
      editable = o.editable;
      not_started = o.not_started;
      status = refl;
      submitted = ground arith;
      version = refl;
      same = (refl, refl, refl, refl, refl);
    }

edited-id : (edit : Edit) (row : Submission) → (edited edit row).id ≡ row.id
unfolding edited with_changes
edited-id edit row = refl

abbrev rewrite : Edit → Submission → Submission
rewrite edit row = if is_current edit.current row then edited edit row else row

rewrite-id : (edit : Edit) (row : Submission) → (rewrite edit row).id ≡ row.id
rewrite-id edit row = ground (arith, edited-id edit row)

-- The row with an id, after the statement
find_row_after :
    (edit : Edit) (j : ℕ) (db after : Db) (row : Submission)
    → Rewritten edit db after
    → find_row j db.submissions ≡ some row
    → find_row j after.submissions ≡ some (rewrite edit row)
unfolding find_row update_rows
find_row_after edit j db after row e there =
    ap (λ rows. find_row j rows) e
    ∙ find?-map (λ r. r.id) (rewrite edit) j db.submissions (rewrite-id edit)
    ∙ ap (λ o. elim o [ none ↦ none | some r ↦ some (rewrite edit r) ]) there

same-current :
    (actor : AuthUser) (id version now : ℕ) (db : Db) (edit : Edit) (j : ℕ) (row : Submission)
    → IsOpen actor id version now db edit
    → find_row j db.submissions ≡ some row
    → (row.id == edit.current.id) ≡ true
    → (edit.current.id ≡ id) × (edit.current ≡ row)
unfolding find_row
same-current actor id version now db edit j row o there e =
    let read = o.read in
    let (i, k) = find?-In (λ r. r.id == j) db.submissions row there in
    let (i', k') = find?-In (λ r. r.id == id) db.submissions edit.current read in
    let same : j ≡ id = ground arith in
    let found : some edit.current ≡ some row =
      sym read ∙ sym (ap (λ x. find? (λ r. r.id == x) db.submissions) same) ∙ there in
    (ground arith, ground arith)

rewrite-cases :
    (actor : AuthUser) (id : ℕ) (dto : UpdateSubmission) (now : ℕ) (db : Db) (edit : Edit) (j : ℕ)
    (row : Submission)
    → IsOpen actor id dto.version now db edit
    → find_row j db.submissions ≡ some row
    → (rewrite edit row ≡ row) ⊎ IsEdited actor id dto now row (rewrite edit row)
rewrite-cases actor id dto now db edit j row o there =
    elim (Bool-cases (is_current edit.current row)) [
      | inr other ↦ inl (ground arith)
      | inl hit ↦
          let (target, same) =
            same-current actor id dto.version now db edit j row o there (ground arith) in
          let written : edited edit row ≡ rewrite edit row = ground arith in
          let e = edited-IsEdited actor id dto now db edit o target in
          inr (
            subst (λ r. IsEdited actor id dto now row r) written
              (subst (λ r. IsEdited actor id dto now r (edited edit r)) same e))
    ]

-- A call of update, with any outcome, leaves the row with an id as it was, or this is the row
-- named, it belongs to the user in the version that the form has, may be edited in its status and
-- has not begun to be shown; then the version grows by one, an approved or scheduled row goes back
-- to review with a new time of submission and any other keeps its status, and id, kind, requester,
-- priority and time of creation stay.
pub update-IsEdited :
    (new_url : String → Option Url) (actor : AuthUser) (id : ℕ) (dto : UpdateSubmission) (now : ℕ)
    (db : Db) (j : ℕ) (row : Submission)
    → find_row j db.submissions ≡ some row
    → (row' : Submission) × (find_row j (update new_url actor id dto now db).1.submissions
        ≡ some row')
      × ((row' ≡ row) ⊎ IsEdited actor id dto now row row')
update-IsEdited new_url actor id dto now db j row there =
    elim (update-ran new_url actor id dto now db) [
      | inl e ↦ (row, rw e there, inl refl)
      | inr (edit, passed, e) ↦
          let (same, o) = update_check-IsOpen new_url actor id dto now db db edit passed in
          elim (update_commit-cases actor edit db) [
            | inl f ↦ (row, rw (e, f) there, inl refl)
            | inr f ↦ (
              rewrite edit row,
              rw e (find_row_after edit j db (update_commit actor edit db).1 row f there),
              rewrite-cases actor id dto now db edit j row o there,
            )
          ]
    ]
