-- ===== src/Submission/Calls/Atomicity.antt =====
-- A call as a whole: it fails and changes nothing, or it writes once and answers with the row.
use flyer_g_be.Base.{ℕ, ◌+◌, ◌≡◌, refl, sym, ap, ◌∙◌, subst, ◌⊎◌, inl, inr, some, arith}
use flyer_g_be.Failure.{AppException, Result, ok, throw, Action, continue}
use flyer_g_be.Submission.Data.{Submission, Db, AuthUser}
use flyer_g_be.Submission.Store.{Service, in_conflict, find_row, find_pending}
use flyer_g_be.Submission.View.{SubmissionDto, to_dto, detail}
use flyer_g_be.Submission.Requests
use flyer_g_be.Submission.Requests.{submit_check, cancel_check}
use flyer_g_be.Submission.Reviews
use flyer_g_be.Submission.Reviews.{approve_check, suspend_check}
use flyer_g_be.Submission.Writes.{Write, commit}
use flyer_g_be.Submission.Calls.Checks.{id_of, prepare-IsPrepared}
use flyer_g_be.Submission.Writes.Evolution.{Wrote, commit-cases, commit-Evolves}
use flyer_g_be.Submission.History.Steps.{find_row-Evolves}
use flyer_g_be.Submission.Calls.{Call, submit, cancel, approve, reject, suspend, prepare, serve}

-- The user who calls, and whether the displays are told.
abbrev caller : Call → AuthUser
caller (submit actor id version) = actor
caller (cancel actor id version) = actor
caller (approve reviewer id revision) = reviewer
caller (reject reviewer id revision reason_code comment) = reviewer
caller (suspend actor id reason) = actor

abbrev told : Call → Db → Db
told (submit actor id version) db = db
told (reject reviewer id revision reason_code comment) db = db
told _ db = record db { emitted = db.emitted + 1 }

bind_pure :
    {S E A B C : Type 0} (r : Result E A × S) (g : A → B) (f : B → Action S E C)
    → continue (continue r (λ a s. (ok (g a), s))) f ≡ continue r (λ a. f (g a))
bind_pure (ok a, s) g f = refl
bind_pure (throw e, s) g f = refl

-- What a call does once its transaction is known.
abbrev finish : Call → ℕ → Write → Service SubmissionDto
finish c now w db = continue (commit w db) (λ _ after. detail (id_of c) (caller c) (told c after))

-- A call is its two phases, the notice and the answer.
serve-eq :
    (c : Call) (now : ℕ) (db : Db) → serve c now db ≡ continue (prepare c now db) (finish c now)
unfolding serve prepare commit Requests.submit Requests.cancel Reviews.approve Reviews.reject
    Reviews.suspend
serve-eq (submit actor id version) now db =
    sym (bind_pure (submit_check actor id version now db) (λ r. Write.submit actor r now) _)
serve-eq (cancel actor id version) now db =
    sym (bind_pure (cancel_check actor id version now db) (λ r. Write.cancel actor r now) _)
serve-eq (approve reviewer id revision) now db =
    sym (bind_pure (approve_check id revision now db) (λ p. Write.approve reviewer p now) _)
serve-eq (reject reviewer id revision reason_code comment) now db = sym (
    bind_pure (find_pending id revision db) (λ r. Write.reject reviewer r reason_code comment now)
      _)
serve-eq (suspend actor id reason) now db =
    sym (bind_pure (suspend_check actor id now db) (λ r. Write.suspend actor r reason now) _)

-- The checks read only.
prepare_reads : (c : Call) (now : ℕ) (db : Db) → (prepare c now db).1 ≡ db
unfolding prepare submit_check cancel_check approve_check suspend_check find_pending
prepare_reads (submit actor id version) now db = ground arith
prepare_reads (cancel actor id version) now db = ground arith
prepare_reads (approve reviewer id revision) now db = ground arith
prepare_reads (reject reviewer id revision reason_code comment) now db = ground arith
prepare_reads (suspend actor id reason) now db = ground arith

-- A call that succeeded: its transaction found the row as it was read, and the answer is the row
-- that it wrote, as the caller may see it.
pub record Served (c : Call) (now : ℕ) (db : Db) : Type 0 where
  pub write : Write
  pub row : Submission
  pub prepared : prepare c now db ≡ (ok write, db)
  pub committed : (commit write db).0 ≡ ok tt
  pub wrote : find_row (id_of c) (commit write db).1.submissions ≡ some row
  pub result : serve c now db ≡ (ok (to_dto (caller c) row), told c (commit write db).1)

continue_ok :
    {S E A B : Type 0} (r : Result E A × S) {a : A}
    → r.0 ≡ ok a
    → (f : A → Action S E B) → continue r f ≡ f a r.1
continue_ok (ok b, s) e f = ground arith
continue_ok (throw x, s) e f = cc

told-submissions : (c : Call) (db : Db) → (told c db).submissions ≡ db.submissions
told-submissions (submit actor id version) db = refl
told-submissions _ db = refl

detail_of_row :
    (id : ℕ) (viewer : AuthUser) (db : Db) (row : Submission)
    → find_row id db.submissions ≡ some row
    → detail id viewer db ≡ (ok (to_dto viewer row), db)
unfolding detail
detail_of_row id viewer db row e = ground arith

prepare-cases :
    (c : Call) (now : ℕ) (db : Db)
    → ((e : AppException) × (prepare c now db ≡ (throw e, db)))
      ⊎ ((w : Write) × (prepare c now db ≡ (ok w, db)))
prepare-cases c now db = split (prepare c now db) (prepare_reads c now db)
  where
    split :
        (r : Result AppException Write × Db)
        → r.1 ≡ db
        → ((e : AppException) × (r ≡ (throw e, db))) ⊎ ((w : Write) × (r ≡ (ok w, db)))
    split (ok w, after) e = inr (w, rw e)
    split (throw x, after) e = inl (x, rw e)

-- The row that a transaction has written is there to be answered with.
finished :
    (c : Call) (now : ℕ) (db : Db) (w : Write)
    → prepare c now db ≡ (ok w, db)
    → Wrote w db
    → Served c now db
finished c now db w prepared wrote =
    let checked = prepare-IsPrepared c now db db w prepared in
    let (row, there, _) =
      find_row-Evolves _ db.submissions (commit w db).1.submissions _ (commit-Evolves w db)
        checked.read in
    let found =
      subst (λ i. find_row i (commit w db).1.submissions ≡ some row) checked.target there in
    let told_found =
      subst (λ rows. find_row (id_of c) rows ≡ some row) (sym (told-submissions c (commit w db).1))
        found in
    record {
      write = w;
      row = row;
      prepared = prepared;
      committed = wrote.done;
      wrote = found;
      result =
          serve-eq c now db
          ∙ ap (λ r. continue r (finish c now)) prepared
          ∙ continue_ok (commit w db) wrote.done _
          ∙ detail_of_row _ _ _ row told_found;
    }

-- submit, cancel, approve, reject and suspend each either throw and leave everything as it was, or
-- they find the row as it was read, write once, and answer with the written row as the caller may
-- see it, the displays being told exactly by cancel, approve and suspend.
pub serve-cases :
    (c : Call) (now : ℕ) (db : Db)
    → ((e : AppException) × (serve c now db ≡ (throw e, db))) ⊎ Served c now db
serve-cases c now db = elim (prepare-cases c now db) [
  | inl (e, failed) ↦ inl (e, rw (serve-eq, failed))
  | inr (w, prepared) ↦ elim (commit-cases w db) [
    | inl failed ↦ inl (in_conflict, rw (serve-eq, prepared) (rw failed))
    | inr wrote ↦ inr (finished c now db w prepared wrote)
  ]
]
