-- ===== src/Idempotency/Exclusion.antt =====
-- src/common/idempotency/idempotency.service.ts: of the requests with one key, one at a time is
-- handled, and after it is done the others get its answer.
use flyer_g_be.Base.{
  false, ℕ, ◌+◌, ◌≤◌, ◌==◌, ◌≡◌, ◌∙◌, All, inl, inr, refl, if◌then◌else◌, Option, List, arith,
}
use flyer_g_be.Idempotency.{
  may_take_over, KeyStatus, KeyRow, ClaimResult, claimed, mismatch, lock_ttl, retention, claiming,
  answer, claim, complete,
}
use flyer_g_be.Idempotency.Statements.{
  run_all, find-replace, find_key-is_at, IsQuiet, not_taken_over, claim-kept, run_all-quiet,
  claimed-row, Statement,
}

module _ {A : Type 0} where
  -- Once a request has claimed a key, and until its lock of 30 seconds runs out, no other claim of
  -- the key is granted, whatever is done with other keys and whatever claims of the key within
  -- that time and cleanups within 24 hours come in between: a claim with the same content is told
  -- to wait, and one with other content is a mismatch.
  pub claim-exclusive :
      (s k fingerprint other start now : ℕ) (rows after : List (KeyRow A))
      (sts : List (Statement A))
      → claim s k fingerprint start rows ≡ (after, claimed)
      → All (IsQuiet s k (claiming s k fingerprint start)) sts
      → now ≤ start + lock_ttl
      → claim s k other now (run_all sts after)
        ≡ (run_all sts after, if fingerprint == other then ClaimResult.in_progress else mismatch)
  unfolding answer
  claim-exclusive s k fingerprint other start now rows after sts h quiet in_time =
      let there =
        run_all-quiet s k sts after _ quiet (claimed-row s k fingerprint start rows after h) in
      let row : KeyRow A = claiming s k fingerprint start in
      let kept : may_take_over other now row ≡ false =
        not_taken_over other now row (omega arith) (inr in_time) in
      claim-kept s k other now (run_all sts after) _ there kept ∙ ground arith

  abbrev pub done : KeyRow A → Option A → KeyRow A
  done row body = record row { status = KeyStatus.completed; response_body = body }

  -- Once the request that claimed a key has completed, with no other claim of the key after its
  -- lock ran out, every claim of the key in the 24 hours from its own is answered with the stored
  -- body if the content is the same and as a mismatch if not, and none is granted, whatever is
  -- done with other keys and whatever releases of the key and, within those 24 hours, claims of it
  -- and cleanups come after.
  pub complete-replayed :
      (s k fingerprint other start now : ℕ) (body : Option A) (rows after : List (KeyRow A))
      (before later : List (Statement A))
      → claim s k fingerprint start rows ≡ (after, claimed)
      → All (IsQuiet s k (claiming s k fingerprint start)) before
      → All (IsQuiet s k (done (claiming s k fingerprint start) body)) later
      → now ≤ start + retention
      → let table = run_all later (complete s k body (run_all before after)) in
        claim s k other now table
        ≡ (table, if fingerprint == other then ClaimResult.completed body else mismatch)
  unfolding answer complete
  complete-replayed s k fingerprint other start now body rows after before later h quiet quiet'
        in_time =
      let row = claiming s k fingerprint start in
      let there =
        run_all-quiet s k before after row quiet (claimed-row s k fingerprint start rows after h) in
      let stored =
        find-replace s k (λ r. done r body) (run_all before after) row
          (find_key-is_at s k _ row there) there in
      let there' = run_all-quiet s k later _ (done row body) quiet' stored in
      let kept = not_taken_over other now (done row body) in_time (inl refl) in
      claim-kept s k other now _ _ there' kept ∙ ground arith
