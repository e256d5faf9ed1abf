-- ===== src/Submission/Rules/Laws.antt =====
-- src/submissions/submission-rules.ts: periods, and what a requester may do when.
use flyer_g_be.Base.{ℕ, ◌<◌, ◌≡◌, ◌↔◌, ◌⊎◌, true, false, some, [], arith}
use flyer_g_be.Submission.Data.{Status, approved, scheduled}
use flyer_g_be.Submission.Rules.{validate_period, can_cancel, has_started_publishing}

validate_period_iff : (s e now : ℕ) → (validate_period s e now ≡ []) ↔ ((s < e) × (now < e))
unfolding validate_period
validate_period_iff s e now = (λ h. ground arith, λ h. ground arith)

-- An approved or scheduled submission with a start can be canceled exactly as long as it has not
-- started publishing.
can_cancel-eq-not_started :
    (st : Status) (start now : ℕ)
    → (st ≡ approved) ⊎ (st ≡ scheduled)
    → (can_cancel st (some start) now ≡ true) ↔ (has_started_publishing st (some start) now ≡ false)
unfolding can_cancel has_started_publishing
can_cancel-eq-not_started st start now h = (λ k. ground arith, λ k. ground arith)
