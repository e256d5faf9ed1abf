-- ===== src/Submission/Store/Laws.antt =====
-- The conditional write of src/submissions/submissions.service.ts: when `applyTransition` writes,
-- what it writes, and that a second write from the same reading fails.
use flyer_g_be.Base.{
  ℕ, ◌<◌, ◌==◌, ◌≡◌, refl, sym, subst, ◌⊎◌, inl, inr, Bool, Bool-cases, some, List, [], ◌∷◌, count,
  arith,
}
use flyer_g_be.Failure.{ok, throw}
use flyer_g_be.Submission.Data.{Status, Submission, Db}
use flyer_g_be.Submission.Store.{
  in_conflict, find_row, update_rows, Extra, transit, is_current, apply_transition,
}

pub update_rows_of_count_zero :
    (hit : Submission → Bool) (set : Submission → Submission) (rows : List Submission)
    → count hit rows ≡ 0
    → update_rows hit set rows ≡ rows
unfolding update_rows
update_rows_of_count_zero hit set [] h = refl
update_rows_of_count_zero hit set (r ∷ rows) h =
    ground (arith, update_rows_of_count_zero hit set rows)

-- The statement found the row that was read, and wrote; or it found none, and nothing changed.
pub apply_transition-cases :
    (current : Submission) (st : Status) (now : ℕ) (extra : Extra) (db : Db)
    → (apply_transition current st now extra db ≡ (throw in_conflict, db))
      ⊎ ((0 < count (is_current current) db.submissions)
          × (apply_transition current st now extra db ≡ (
            ok tt,
            record db {
              submissions =
                  update_rows (is_current current) (transit current st now extra) db.submissions;
            },
          )))
unfolding apply_transition
apply_transition-cases current st now extra db =
    elim (Bool-cases (count (is_current current) db.submissions == 0)) [
      | inl e ↦ inl (
          ground (
            arith,
            update_rows_of_count_zero (is_current current) (transit current st now extra)
                db.submissions,
          ))
      | inr e ↦ inr (ground arith, ground arith)
    ]

-- After a write no row has the version that was read, so a second write from that reading fails.
pub update_rows-not_current :
    (current : Submission) (st : Status) (now : ℕ) (extra : Extra) (rows : List Submission)
    → count
        (is_current current)
        (update_rows (is_current current) (transit current st now extra) rows)
      ≡ 0
unfolding update_rows transit
update_rows-not_current current st now extra [] = refl
update_rows-not_current current st now extra (r ∷ rows) =
    ground (arith, update_rows-not_current current st now extra rows)

written-not_current :
    (current : Submission) (st : Status) (now : ℕ) (extra : Extra) (db after : Db)
    → apply_transition current st now extra db ≡ (ok tt, after)
    → count (is_current current) after.submissions ≡ 0
written-not_current current st now extra db after h = ground (
  arith,
  apply_transition-cases current st now extra db,
  update_rows-not_current current st now extra db.submissions,
)

apply_transition_stale :
    (current : Submission) (st st' : Status) (now now' : ℕ) (extra extra' : Extra) (db after : Db)
    → apply_transition current st now extra db ≡ (ok tt, after)
    → apply_transition current st' now' extra' after ≡ (throw in_conflict, after)
apply_transition_stale current st st' now now' extra extra' db after h = ground (
  arith,
  apply_transition-cases current st' now' extra' after,
  written-not_current current st now extra db after h,
)

pub find_row-id :
    (id : ℕ) (rows : List Submission) (r : Submission) → find_row id rows ≡ some r → r.id ≡ id
unfolding find_row
find_row-id id [] r e = cc
find_row-id id (s ∷ rows) r e = ground (arith, find_row-id id rows r)

-- The query by the id of the row that it gave gives it again.
pub find_row_again :
    (id : ℕ) (rows : List Submission) (r : Submission)
    → find_row id rows ≡ some r
    → find_row r.id rows ≡ some r
find_row_again id rows r e = subst (λ i. find_row i rows ≡ some r) (sym (find_row-id id rows r e)) e

-- The row as it stands after the write.
pub find_row-transit :
    (current : Submission) (st : Status) (now : ℕ) (extra : Extra) (rows : List Submission)
    → find_row current.id rows ≡ some current
    → find_row current.id (update_rows (is_current current) (transit current st now extra) rows)
      ≡ some (transit current st now extra current)
unfolding find_row update_rows transit
find_row-transit current st now extra [] e = cc
find_row-transit current st now extra (r ∷ rows) e =
    ground (arith, find_row-transit current st now extra rows)
