-- ===== src/Device/Sampling.antt =====
-- `recentlySleeping` of src/notifications/device-alert-policy.ts: the samples that it takes.
use flyer_g_be.Base.{
  ℕ, ◌+◌, ◌-◌, ◌≤◌, ◌≡◌, ◌⊎◌, ◌↔◌, inl, inr, ap, subst, sym, ◌∙◌, true, Bool-cases, leb, List, any,
  arith,
}
use flyer_g_be.Time.{seoul_minute_of_day}
use flyer_g_be.Device.{Range, in_range, is_quiet_at}
use flyer_g_be.Device.Alert.{recently_sleeping}

-- One of two samples that are 30 seconds apart shows the minute of a time between them.
minute_between :
    (t s : ℕ)
    → s ≤ t
    → t ≤ s + 30000
    → (seoul_minute_of_day t ≡ seoul_minute_of_day s)
      ⊎ (seoul_minute_of_day t ≡ seoul_minute_of_day (s + 30000))
unfolding seoul_minute_of_day
minute_between t s h k = omega arith

quiet_of_minute :
    (quiet_hours : List Range) (t s : ℕ)
    → seoul_minute_of_day t ≡ seoul_minute_of_day s
    → is_quiet_at quiet_hours t ≡ is_quiet_at quiet_hours s
unfolding is_quiet_at
quiet_of_minute quiet_hours t s e = ap (λ m. any (in_range m) quiet_hours) e

quiet_between :
    (quiet_hours : List Range) (t s : ℕ)
    → s ≤ t
    → t ≤ s + 30000
    → is_quiet_at quiet_hours t ≡ true
    → (is_quiet_at quiet_hours s ≡ true) ⊎ (is_quiet_at quiet_hours (s + 30000) ≡ true)
quiet_between quiet_hours t s h k q = elim (minute_between t s h k) [
  | inl e ↦ inl (sym (quiet_of_minute quiet_hours t s e) ∙ q)
  | inr e ↦ inr (sym (quiet_of_minute quiet_hours t (s + 30000) e) ∙ q)
]

-- From 90 seconds after the first time on, the four samples at 0, 30, 60 and 90 seconds find quiet
-- hours exactly if there is any time in the last 90 seconds that lies in them.
pub recently_sleeping_iff :
    (quiet_hours : List Range) (now : ℕ)
    → 90000 ≤ now
    → (recently_sleeping quiet_hours now ≡ true)
      ↔ ((t : ℕ) × (t ≤ now) × (now ≤ t + 90000) × (is_quiet_at quiet_hours t ≡ true))
unfolding recently_sleeping
recently_sleeping_iff quiet_hours now h = (λ e. found e, λ (t, l, m, q). sampled_at t l m q)
  where
    found :
        recently_sleeping quiet_hours now ≡ true
        → (t : ℕ) × (t ≤ now) × (now ≤ t + 90000) × (is_quiet_at quiet_hours t ≡ true)
    found e = elim (Bool-cases (is_quiet_at quiet_hours (now - 0))) [
      | inl q ↦ (now - 0, omega arith, omega arith, q)
      | inr a ↦ elim (Bool-cases (is_quiet_at quiet_hours (now - 30000))) [
        | inl q ↦ (now - 30000, omega arith, omega arith, q)
        | inr b ↦ elim (Bool-cases (is_quiet_at quiet_hours (now - 60000))) [
          | inl q ↦ (now - 60000, omega arith, omega arith, q)
          | inr c ↦ (now - 90000, omega arith, omega arith, ground arith)
        ]
      ]
    ]

    at : (s s' : ℕ) → s ≡ s' → is_quiet_at quiet_hours s ≡ true → is_quiet_at quiet_hours s' ≡ true
    at s s' e q = subst (λ x. is_quiet_at quiet_hours x ≡ true) e q

    between :
        (t s s' : ℕ)
        → s ≤ t
        → t ≤ s'
        → s' ≡ s + 30000
        → is_quiet_at quiet_hours t ≡ true
        → (is_quiet_at quiet_hours s ≡ true) ⊎ (is_quiet_at quiet_hours s' ≡ true)
    between t s s' l m e q = elim (quiet_between quiet_hours t s l (omega arith) q) [
      | inl k ↦ inl k
      | inr k ↦ inr (at (s + 30000) s' (sym e) k)
    ]

    sampled_at :
        (t : ℕ)
        → t ≤ now
        → now ≤ t + 90000
        → is_quiet_at quiet_hours t ≡ true
        → recently_sleeping quiet_hours now ≡ true
    sampled_at t l m q = elim (Bool-cases (leb t (now - 60000))) [
      | inl early ↦
          let k =
            between t (now - 90000) (now - 60000) (omega arith) (ground arith) (omega arith) q in
          ground arith
      | inr after ↦ elim (Bool-cases (leb t (now - 30000))) [
        | inl middle ↦
            let k =
              between t (now - 60000) (now - 30000) (ground arith) (ground arith) (omega arith) q in
            ground arith
        | inr late ↦
            let k =
              between t (now - 30000) (now - 0) (ground arith) (omega arith) (omega arith) q in
            ground arith
      ]
    ]
