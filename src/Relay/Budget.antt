-- ===== src/Relay/Budget.antt =====
-- The class `MessageBudget` of src/realtime/game-relay.ts. A token is counted in thousandths, so that
-- a millisecond gives a whole number of them: 20 messages a second are 20 thousandths a millisecond.
-- The state keeps what is missing from a full bucket, which is never below 0 and may be more than
-- the bucket holds when the clock goes back. The rounding of the source's floating point is left out.
use flyer_g_be.Base.{
  ℕ, ◌+◌, ◌-◌, ◌*◌, ◌≤◌, ◌≡◌, refl, ltb, Bool, true, false, if◌then◌else◌, List, [], ◌∷◌, length,
  sym, subst, ◌∙◌, arith,
}
use mathlib.Core.Path.{ap₂}

-- `RELAY_LIMITS.messagesPerSecond`
abbrev pub messages_per_second : ℕ
messages_per_second = 20

-- `tokens` is `messagesPerSecond` less `missing / 1000`.
pub record MessageBudget : Type 0 where
  pub missing : ℕ
  pub refilled_at : ℕ

unfoldable pub new_budget : ℕ → MessageBudget
new_budget now = record { missing = 0; refilled_at = now }

-- What is missing once the elapsed time is credited. A clock that has gone back is debited.
abbrev refilled : MessageBudget → ℕ → ℕ
refilled b now =
    b.missing
    + messages_per_second * (b.refilled_at - now)
    - messages_per_second * (now - b.refilled_at)

-- `take`: less than one token left is more than 19 missing.
unfoldable pub take : MessageBudget → ℕ → MessageBudget × Bool
take b now =
    let missing = refilled b now in
    if ltb (messages_per_second * 1000 - 1000) missing
    then (record { missing = missing; refilled_at = now }, false)
    else (record { missing = missing + 1000; refilled_at = now }, true)

-- The messages of a connection at the given times, and how many of them pass.
abbrev count_taken : Bool → ℕ → ℕ
count_taken true n = n + 1
count_taken false n = n

pub passed : MessageBudget → List ℕ → ℕ
unfolding take
passed b [] = 0
passed b (now ∷ times) = let (b', took) = take b now in count_taken took (passed b' times)

-- Times in order, from a first one to a last one.
abbrev pub Between : ℕ → List ℕ → ℕ → Type 0
Between start [] end = start ≤ end
Between start (now ∷ times) end = (start ≤ now) × Between now times end

Between-le : (start : ℕ) (times : List ℕ) (end : ℕ) → Between start times end → start ≤ end
Between-le start [] end h = h
Between-le start (now ∷ times) end (p, h) = omega (arith, Between-le now times end h)

count_taken-eq : (took : Bool) (n : ℕ) → count_taken took n ≡ count_taken took 0 + n
count_taken-eq true n = omega arith
count_taken-eq false n = omega arith

module _ (b : MessageBudget) (now : ℕ) (h : b.refilled_at ≤ now) where
  take_refills : (take b now).0.refilled_at ≡ now
  unfolding take
  take_refills = ground arith

  take_step :
      1000 * count_taken (take b now).1 0 + b.missing
      ≤ (take b now).0.missing + messages_per_second * (now - b.refilled_at)
  unfolding take
  take_step = ground arith

  take_within : b.missing ≤ 20000 → (take b now).0.missing ≤ 20000
  unfolding take
  take_within k = ground arith

  take_lets :
      b.missing ≤ 19000 → ((take b now).1 ≡ true) × ((take b now).0.missing ≤ b.missing + 1000)
  unfolding take
  take_lets k = ground arith

passed_bound :
    (b : MessageBudget) (times : List ℕ) (end : ℕ)
    → b.missing ≤ 20000
    → Between b.refilled_at times end
    → 1000 * passed b times + b.missing ≤ 20000 + messages_per_second * (end - b.refilled_at)
unfolding passed
passed_bound b [] end k h = omega arith
passed_bound b (now ∷ times) end k (p, h) =
    let same = take_refills b now p in
    let h' = subst (λ t. Between t times end) (sym same) h in
    omega (
      arith,
      same,
      take_step b now p,
      count_taken-eq (take b now).1 (passed (take b now).0 times),
      Between-le now times end h,
      passed_bound (take b now).0 times end (take_within b now p k) h',
    )

-- From the time a connection opens, with a clock that does not go back, at most 20 messages pass,
-- and 20 more for each second since then.
pub passed-le :
    (start : ℕ) (times : List ℕ) (end : ℕ)
    → Between start times end
    → 1000 * passed (new_budget start) times ≤ 20000 + messages_per_second * (end - start)
unfolding new_budget
passed-le start times end h =
    omega (arith, passed_bound (new_budget start) times end (omega arith) h)

passed_all :
    (b : MessageBudget) (times : List ℕ) (end : ℕ)
    → b.missing + 1000 * length times ≤ 20000
    → Between b.refilled_at times end
    → passed b times ≡ length times
unfolding passed
passed_all b [] end k h = refl
passed_all b (now ∷ times) end k (p, h) =
    let (took, less) = take_lets b now p (omega arith) in
    let h' = subst (λ t. Between t times end) (sym (take_refills b now p)) h in
    ap₂ count_taken took (passed_all (take b now).0 times end (omega arith) h') ∙ omega arith

-- With a clock that does not go back, the first 20 messages of a connection all pass, however fast
-- they come.
passed_of_few :
    (start : ℕ) (times : List ℕ) (end : ℕ)
    → length times ≤ 20
    → Between start times end
    → passed (new_budget start) times ≡ length times
unfolding new_budget
passed_of_few start times end k h = passed_all (new_budget start) times end (omega arith) h
