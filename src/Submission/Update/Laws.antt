-- ===== src/Submission/Update/Laws.antt =====
-- What `update` of src/submissions/submissions.service.ts may change.
use flyer_g_be.Base.{
  ℕ, String, ◌==◌, ◌≡◌, inl, inr, true, false, not, ◌&&◌, Option-cases, Option, some, arith,
}
use flyer_g_be.Failure.{ok, has_errors}
use flyer_g_be.Submission.Kinds.{kind_of}
use flyer_g_be.Submission.Data.{Submission, AuthUser, Db}
use flyer_g_be.Submission.Rules.{is_editable, is_returned, has_started_publishing}
use flyer_g_be.Submission.Text.{Url}
use flyer_g_be.Submission.Store.{find_row, find_own_row}
use flyer_g_be.Submission.Update.{UpdateSubmission}
use flyer_g_be.Submission.Update.Call.{Edit, plan_edit, update_check}

-- What the checks of `update` have found: the row of the requester in the version of the form,
-- whose publishing has not begun.
pub record IsOpen (actor : AuthUser) (id version now : ℕ) (db : Db) (edit : Edit) : Type 0 where
  pub read : find_row id db.submissions ≡ some edit.current
  pub owner : edit.current.requester_id ≡ actor.id
  pub seen : edit.current.version ≡ version
  pub editable : is_editable edit.current.status ≡ true
  pub not_started : has_started_publishing edit.current.status edit.current.start_at now ≡ false
  pub at : edit.now ≡ now

plan_edit-edit :
    (new_url : String → Option Url) (actor : AuthUser) (current : Submission)
    (dto : UpdateSubmission) (now : ℕ) (db : Db) (edit : Edit)
    → (plan_edit new_url actor current dto now db).edit ≡ some edit
    → (edit.current ≡ current) × (edit.now ≡ now)
unfolding plan_edit
plan_edit-edit new_url actor current dto now db edit e = (ground arith, ground arith)

-- The guards of an update on a row that is there
module _ (new_url : String → Option Url) (actor : AuthUser) (row : Submission)
    (dto : UpdateSubmission) (now : ℕ) (db : Db) where
  pub record Passes : Type 0 where
    pub owner : (row.requester_id == actor.id) ≡ true
    pub seen : (row.version == dto.version) ≡ true
    pub editable : is_editable row.status ≡ true
    pub not_started : has_started_publishing row.status row.start_at now ≡ false
    pub again : (not ((kind_of row.type).resubmittable) && is_returned row.status) ≡ false
    pub sound : has_errors ((plan_edit new_url actor row dto now db).errors) ≡ false

  -- With them, the checks leave the edit that is planned.
  pub update_check-Passes :
      (id : ℕ)
      → find_row id db.submissions ≡ some row
      → Passes
      → update_check new_url actor id dto now db
        ≡ (ok ((plan_edit new_url actor row dto now db).edit), db)
  unfolding update_check find_own_row
  update_check-Passes id there p =
      let owner = p.owner in
      let seen = p.seen in
      let editable = p.editable in
      let not_started = p.not_started in let again = p.again in let sound = p.sound in ground arith

-- If the checks of an update pass with something to write, they have changed nothing and found an
-- open row.
pub update_check-IsOpen :
    (new_url : String → Option Url) (actor : AuthUser) (id : ℕ) (dto : UpdateSubmission) (now : ℕ)
    (db after : Db) (edit : Edit)
    → update_check new_url actor id dto now db ≡ (ok (some edit), after)
    → (after ≡ db) × IsOpen actor id dto.version now db edit
unfolding update_check find_own_row
update_check-IsOpen new_url actor id dto now db after edit e =
    elim (Option-cases (find_row id db.submissions)) [
      | inl nowhere ↦ absurd (ground arith)
      | inr (row, there) ↦
          let found : (plan_edit new_url actor row dto now db).edit ≡ some edit = ground arith in
          let (current, at) = plan_edit-edit new_url actor row dto now db edit found in
          (
            ground arith,
            record {
              read = rw current there;
              owner = rw current (ground arith);
              seen = rw current (ground arith);
              editable = rw current (ground arith);
              not_started = rw current (ground arith);
              at = at;
            },
          )
    ]
