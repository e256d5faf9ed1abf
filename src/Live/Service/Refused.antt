-- ===== src/Live/Service/Refused.antt =====
-- src/live/live.service.ts: what an error leaves.
use flyer_g_be.Base.{ℕ, ◌≡◌, refl, sym, ap, ◌∙◌, inl, inr, Bool-cases, Option, none, arith}
use flyer_g_be.Failure.{Result, ok, throw, AppException, ◌>>◌, continue, pure}
use flyer_g_be.Live.{active_layer}
use flyer_g_be.Live.Service.{
  layer_of, LiveScope, Layer, LiveDb, LiveCall, LiveInput, is_clearing, assert_target, set_layer,
  clear, set, get_live,
}
use flyer_g_be.Live.Service.Laws.{
  set_layer-ok, set_layer-ids, get_live-eq, set-clearing, set-layering, thrown,
}

-- A chain whose second action comes through wherever the first one did
chain-refused :
    {A : Type 0} (m : LiveCall Unit) (k : LiveCall A) (db : LiveDb) (x : AppException)
    → ((y : AppException) → (m db).0 ≡ throw y → (m db).1 ≡ db)
    → ((m db).0 ≡ ok tt → (a : A) × ((k (m db).1).0 ≡ ok a))
    → ((m >> k) db).0 ≡ throw x
    → ((m >> k) db).1 ≡ db
chain-refused {A} m k db x refused done h = by_outcome (m db) refl
  where
    by_outcome : (r : Result AppException Unit × LiveDb) → m db ≡ r → ((m >> k) db).1 ≡ db
    by_outcome (throw y, after) e =
        ap (λ r. (continue r (λ _. k)).1) e ∙ sym (ap (λ r. r.1) e) ∙ refused y (ap (λ r. r.0) e)
    by_outcome (ok u, after) e =
        let (a, came) = done (ap (λ r. r.0) e) in
        let second : (k after).0 ≡ ok a = sym (ap (λ r. (k r.1).0) e) ∙ came in
        absurd (thrown x a (sym h ∙ ap (λ r. (continue r (λ _. k)).0) e ∙ second))

module _ (admin : ℕ) (scope : LiveScope) (id : ℕ) (input : LiveInput) (now later : ℕ) (db : LiveDb)
    (x : AppException) where
  set_layer-refused :
      (set_layer admin scope id input now db).0 ≡ throw x
      → (set_layer admin scope id input now db).1 ≡ db
  unfolding set_layer assert_target
  set_layer-refused h = ground arith

  clear-refused : (clear admin scope id now db).0 ≡ throw x → (clear admin scope id now db).1 ≡ db
  unfolding clear assert_target
  clear-refused h = ground arith

module _ (admin : ℕ) (scope : LiveScope) (id : ℕ) (input : LiveInput) (now later : ℕ) where
  answered :
      (db : LiveDb)
      → (set_layer admin scope id input now db).0 ≡ ok tt
      → (a : Option Layer) × ((get_live scope id later (set_layer admin scope id input now db).1).0
          ≡ ok a)
  answered db h =
      let after = (set_layer admin scope id input now db).1 in
      let (errors, rows, there) = set_layer-ok admin scope id input now db h in
      (
        active_layer (layer_of scope id after.live_states) later,
        ap (λ r. r.0) (get_live-eq scope id later after)
            ∙ rw (set_layer-ids admin scope id input now scope db, there) refl,
      )

  -- A call to set what is live, also with an empty input, that ends in an error has changed no
  -- table and told no display.
  pub set-refused :
      (db : LiveDb) (x : AppException)
      → (set admin scope id input now later db).0 ≡ throw x
      → (set admin scope id input now later db).1 ≡ db
  set-refused db x h = elim (Bool-cases (is_clearing input)) [
    | inl e ↦
        let eq = set-clearing admin scope id input now later db e in
        ap (λ r. r.1) eq
        ∙ chain-refused (clear admin scope id now) (pure none) db x
            (clear-refused admin scope id input now later db) (λ _. (none, refl))
            (sym (ap (λ r. r.0) eq) ∙ h)
    | inr e ↦
        let eq = set-layering admin scope id input now later db e in
        ap (λ r. r.1) eq
        ∙ chain-refused (set_layer admin scope id input now) (get_live scope id later) db x
            (set_layer-refused admin scope id input now later db) (answered db)
            (sym (ap (λ r. r.0) eq) ∙ h)
  ]
