-- ===== src/Idempotency/Examples.antt =====
-- src/common/idempotency: two requests with one key, and a third with other content.
use flyer_g_be.Base.{
  ℕ, zero, suc, ◌+◌, ◌*◌, ◌≤◌, ◌<◌, ◌==◌, ◌≡◌, inl, inr, refl, true, if◌then◌else◌, none, some,
  List, [], ◌∷◌, All, arith,
}
use flyer_g_be.Idempotency.{
  KeyRow, ClaimResult, claimed, mismatch, find_key, claiming, try_claim, claim, complete,
}
use flyer_g_be.Idempotency.Statements.{Statement, claim_of, release_of, cleanup, run_all, IsQuiet}
use flyer_g_be.Idempotency.Exclusion.{done, claim-exclusive, complete-replayed}
use flyer_g_be.Idempotency.Waiting.{Outcome, replayed, outcome_of, handle, handle_ends}

-- The table after the first request claimed the key 7 in the scope 1 at the time 1000.
abbrev after : List (KeyRow ℕ)
after = claiming 1 7 50 1000 ∷ []

first_claim : claim 1 7 50 1000 [] ≡ (after, claimed)
unfolding claim try_claim find_key
first_claim = refl

-- Another request tries the key, and a request with another key comes.
abbrev others : List (Statement ℕ)
others = claim_of 1 7 51 2000 ∷ claim_of 2 7 50 40000 ∷ []

others-IsQuiet : All (IsQuiet 1 7 (claiming 1 7 50 1000)) others
others-IsQuiet = (inr (omega arith, inr (omega arith)), (inl (inl (omega arith)), tt))

claim-exclusive_example :
    claim 1 7 50 31000 (run_all others after)
    ≡ (run_all others after, if 50 == 50 then ClaimResult.in_progress else mismatch)
claim-exclusive_example =
    claim-exclusive 1 7 50 50 1000 31000 [] after others first_claim others-IsQuiet (omega arith)

abbrev later : List (Statement ℕ)
later = release_of 1 7 ∷ cleanup 50000000 ∷ []

later-IsQuiet : All (IsQuiet 1 7 (done (claiming 1 7 50 1000) (some 99))) later
later-IsQuiet = (inr refl, (omega arith, tt))

complete-replayed_example :
    let table = run_all later (complete 1 7 (some 99) (run_all others after)) in
    claim 1 7 50 60000000 table
    ≡ (table, if 50 == 50 then ClaimResult.completed (some 99) else mismatch)
complete-replayed_example =
    complete-replayed 1 7 50 50 1000 60000000 (some 99) [] after others later first_claim
      others-IsQuiet later-IsQuiet (omega arith)

-- The claims of a request that finds the key in progress once.
abbrev results : ℕ → ClaimResult ℕ
results zero = ClaimResult.in_progress
results (suc n) = ClaimResult.completed (some 99)

abbrev clock : ℕ → ℕ
clock i = 5000 + 100 * i

sleeps : (i : ℕ) → clock i + 100 ≤ clock (suc i)
sleeps i = omega arith

handle_ends_example : (o : Outcome ℕ) × (handle true results clock 5000 ≡ some o)
handle_ends_example = handle_ends results clock true 5000 sleeps (omega arith)

once : (j : ℕ) → j < 1 → (outcome_of (results j) ≡ none) × (clock j < 15000)
unfolding outcome_of
once zero h = (refl, omega arith)
once (suc j) h = absurd (omega arith)

second_answer : outcome_of (results 1) ≡ some (replayed (some 99))
unfolding outcome_of
second_answer = refl

after_found : find_key 1 7 after ≡ some (claiming 1 7 50 1000)
unfolding find_key
after_found = refl
