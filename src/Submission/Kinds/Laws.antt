-- ===== src/Submission/Kinds/Laws.antt =====
-- src/submissions/kinds: the periods that each kind accepts.
use flyer_g_be.Base.{ℕ, ◌+◌, ◌*◌, ◌≤◌, ◌<◌, ◌≡◌, ◌↔◌, true, [], arith}
use flyer_g_be.Time.{day_ms, is_seoul_midnight, add_months_in_seoul}
use flyer_g_be.Submission.Kinds.{
  validate_poster, validate_event_banner, max_publish_months, event_banner_max_days,
}

-- The period of a poster is accepted exactly if it starts before it ends, ends in the future, and
-- ends no later than three calendar months in Seoul after its start.
validate_poster_iff :
    (s e now : ℕ)
    → (validate_poster s e now ≡ [])
      ↔ ((s < e) × (now < e) × (e ≤ add_months_in_seoul s max_publish_months))
unfolding validate_poster
validate_poster_iff s e now = (λ h. ground arith, λ h. ground arith)

-- The period of an event banner is accepted exactly if it starts before it ends, ends in the
-- future, starts and ends at midnight in Seoul, and lasts three days at most.
validate_event_banner_iff :
    (s e now : ℕ)
    → (validate_event_banner s e now ≡ []) ↔ (
        (s < e)
        × (now < e)
        × (is_seoul_midnight s ≡ true)
        × (is_seoul_midnight e ≡ true)
        × (e ≤ s + event_banner_max_days * day_ms))
unfolding validate_event_banner
validate_event_banner_iff s e now = (λ h. ground arith, λ h. ground arith)
