-- ===== src/Live/Service/Laws.antt =====
-- src/live/live.service.ts: what was set is read and shown.
use flyer_g_be.Base.{
  ℕ, String, ◌==◌, ◌≡◌, refl, sym, ap, ◌∙◌, subst, inl, inr, true, false, ◌&&◌, Bool-cases,
  if◌then◌else◌, Option, none, some, [], arith,
}
use flyer_g_be.Failure.{Result, ok, throw, AppException, exception, not_found, ◌>>◌, continue, pure}
use flyer_g_be.Live.{Part, LiveMain, alive, active_layer, main_of}
use flyer_g_be.Live.Laws.{resolve_live-device}
use flyer_g_be.Live.Service.{
  LiveScope, device, same_scope, Layer, LiveDb, LiveCall, LiveInput, layer_of, put_state,
  remove_state, layer_with, is_clearing, assert_target, time_errors, set_layer, clear, set,
  get_live, group_layers, groups_of, effective_for_device, has_id, scope_ids,
}
use flyer_g_be.Live.Service.Keys.{layer_of-put_state, layer_of-remove_state}

-- A call to set or to clear that came through
abbrev pub stored_with : ℕ → LiveInput → ℕ → Option Layer
stored_with admin input now = if is_clearing input then none else some (layer_with admin input now)

module _ (admin : ℕ) (scope : LiveScope) (id : ℕ) (input : LiveInput) (now : ℕ) where
  pub set_layer-ok :
      (db : LiveDb)
      → (set_layer admin scope id input now db).0 ≡ ok tt
      → (time_errors input.main input.alert now ≡ [])
        × ((set_layer admin scope id input now db).1.live_states
            ≡ put_state scope id (layer_with admin input now) db.live_states)
        × (has_id id (scope_ids scope db) ≡ true)
  unfolding set_layer assert_target
  set_layer-ok db h = ground arith

  clear-ok :
      (db : LiveDb)
      → (clear admin scope id now db).0 ≡ ok tt
      → ((clear admin scope id now db).1.live_states ≡ remove_state scope id db.live_states)
        × (has_id id (scope_ids scope db) ≡ true)
  unfolding clear assert_target
  clear-ok db h = ground arith

  pub set_layer-ids :
      (s : LiveScope) (db : LiveDb)
      → scope_ids s (set_layer admin scope id input now db).1 ≡ scope_ids s db
  unfolding set_layer assert_target
  set_layer-ids s db = ground arith

  clear-ids :
      (s : LiveScope) (db : LiveDb) → scope_ids s (clear admin scope id now db).1 ≡ scope_ids s db
  unfolding clear assert_target
  clear-ids s db = ground arith

get_live-state : (s : LiveScope) (i t : ℕ) (db : LiveDb) → (get_live s i t db).1 ≡ db
unfolding get_live assert_target
get_live-state s i t db = ground arith

-- Reading a key
pub get_live-eq :
    (s : LiveScope) (i t : ℕ) (db : LiveDb)
    → get_live s i t db ≡ (
      if has_id i (scope_ids s db)
          then ok (active_layer (layer_of s i db.live_states) t)
          else throw (exception 404 not_found),
      db,
    )
unfolding get_live assert_target
get_live-eq s i t db = ground arith

pub thrown :
    {A : Type 0} (x : AppException) (a : A) → Path (Result AppException A) (throw x) (ok a) → ⊥
thrown x a e = ground arith

-- A chain of two actions that came through
first-ok :
    {A : Type 0} (m : LiveCall Unit) (k : LiveCall A) (db : LiveDb) (a : A)
    → ((m >> k) db).0 ≡ ok a
    → (m db).0 ≡ ok tt
first-ok m k db a h = by_outcome (m db) refl
  where
    by_outcome : (r : Result AppException Unit × LiveDb) → m db ≡ r → (m db).0 ≡ ok tt
    by_outcome (ok u, after) e = ap (λ r. r.0) e
    by_outcome (throw x, after) e =
        absurd (thrown x a (sym (ap (λ r. (continue r (λ _. k)).0) e) ∙ h))

after-first :
    {A : Type 0} (m : LiveCall Unit) (k : LiveCall A) (db : LiveDb)
    → ((s : LiveDb) → (k s).1 ≡ s)
    → ((m >> k) db).1 ≡ (m db).1
after-first m k db keep = by_outcome (m db) refl
  where
    by_outcome : (r : Result AppException Unit × LiveDb) → m db ≡ r → ((m >> k) db).1 ≡ (m db).1
    by_outcome (ok u, after) e = rw e (keep after)
    by_outcome (throw x, after) e = rw e refl

module _ (admin : ℕ) (scope : LiveScope) (id : ℕ) (input : LiveInput) (now later : ℕ) where
  pub set-clearing :
      (db : LiveDb)
      → is_clearing input ≡ true
      → set admin scope id input now later db ≡ (clear admin scope id now >> pure none) db
  unfolding set
  set-clearing db e = rw (set, e) refl

  pub set-layering :
      (db : LiveDb)
      → is_clearing input ≡ false
      → set admin scope id input now later db
        ≡ (set_layer admin scope id input now >> get_live scope id later) db
  unfolding set
  set-layering db e = rw (set, e) refl

  set-ok :
      (db : LiveDb) (answer : Option Layer)
      → (set admin scope id input now later db).0 ≡ ok answer
      → (s : LiveScope) (i : ℕ)
      → (layer_of s i (set admin scope id input now later db).1.live_states ≡ (
          if same_scope s scope && (i == id)
          then stored_with admin input now
          else layer_of s i db.live_states))
        × (scope_ids s (set admin scope id input now later db).1 ≡ scope_ids s db)
        × (has_id id (scope_ids scope db) ≡ true)
  set-ok db answer h s i = elim (Bool-cases (is_clearing input)) [
    | inl e ↦
        let eq = set-clearing db e in
        let state =
          ap (λ r. r.1) eq ∙ after-first (clear admin scope id now) (pure none) db (λ s. refl) in
        let (rows, there) = clear-ok admin scope id input now db (
          first-ok (clear admin scope id now) (pure none) db answer (sym (ap (λ r. r.0) eq) ∙ h)) in
        (
          rw (state, rows, e) (layer_of-remove_state scope id s i db.live_states),
          rw state (clear-ids admin scope id input now s db),
          there,
        )
    | inr e ↦
        let eq = set-layering db e in
        let state =
          ap (λ r. r.1) eq
          ∙ after-first (set_layer admin scope id input now) (get_live scope id later) db
              (get_live-state scope id later) in
        let (errors, rows, there) = set_layer-ok admin scope id input now db (
          first-ok (set_layer admin scope id input now) (get_live scope id later) db answer
            (sym (ap (λ r. r.0) eq) ∙ h)) in
        (
          rw (state, rows, e)
              (layer_of-put_state scope id (layer_with admin input now) s i db.live_states),
          rw state (set_layer-ids admin scope id input now s db),
          there,
        )
  ]

  set-in_time :
      (db : LiveDb) (answer : Option Layer)
      → (set admin scope id input now later db).0 ≡ ok answer
      → is_clearing input ≡ false
      → time_errors input.main input.alert now ≡ []
  set-in_time db answer h e =
      (set_layer-ok admin scope id input now db (
        first-ok (set_layer admin scope id input now) (get_live scope id later) db answer
          (sym (ap (λ r. r.0) (set-layering db e)) ∙ h))).0

  -- After a call that sets what is live (or, with an empty input, clears it) came through, reading
  -- its display or group at any time gives the input, with the caller and the time of the call,
  -- less the parts that are over by then (nothing for an empty input), and reading any other
  -- display or group gives what it gave before.
  pub set-get :
      (db : LiveDb) (answer : Option Layer)
      → (set admin scope id input now later db).0 ≡ ok answer
      → (s : LiveScope) (i t : ℕ)
      → (get_live s i t (set admin scope id input now later db).1).0 ≡ (
          if same_scope s scope && (i == id)
          then ok (active_layer (stored_with admin input now) t)
          else (get_live s i t db).0)
  set-get db answer h s i t =
      let after = (set admin scope id input now later db).1 in
      let (layer, ids, there) = set-ok db answer h s i in
      ap (λ r. r.0) (get_live-eq s i t after)
      ∙ elim (Bool-cases (same_scope s scope && (i == id))) [
        | inl same ↦
            let one : s ≡ scope = ground arith in
            let two : i ≡ id = ground arith in
            let here : has_id i (scope_ids s db) ≡ true = rw (one, two) there in
            rw (ids, here, layer, same) refl
        | inr other ↦ rw (ids, layer, other) (sym (ap (λ r. r.0) (get_live-eq s i t db)))
      ]

in_time-alive :
    (main : Part LiveMain) (alert : Option (Part String)) (now : ℕ)
    → time_errors (some main) alert now ≡ []
    → alive (some main) now ≡ true
unfolding time_errors alive
in_time-alive main alert now h = ground arith

module _ (admin : ℕ) (id : ℕ) (input : LiveInput) (now later : ℕ) where
  -- When a call that sets a live picture for a display came through, the picture was not over at
  -- the time of the call, and it is what is effective for the display at every time at which it is
  -- not over, whatever is live for the groups of the display.
  pub set-shown :
      (db : LiveDb) (answer : Option Layer) (main : Part LiveMain) (t : ℕ)
      → (set admin device id input now later db).0 ≡ ok answer
      → input.main ≡ some main
      → alive (some main) t ≡ true
      → (alive (some main) now ≡ true)
        × (main_of (effective_for_device id t (set admin device id input now later db).1)
            ≡ some main)
  unfolding effective_for_device
  set-shown db answer main t h shown live =
      let after = (set admin device id input now later db).1 in
      let full : is_clearing input ≡ false = ground arith in
      let (layer, ids, there) = set-ok admin device id input now later db answer h device id in
      let stored : layer_of device id after.live_states ≡ some (layer_with admin input now) =
        rw layer (ground arith) in
      (
        in_time-alive main input.alert now (
            subst (λ m. time_errors m input.alert now ≡ []) shown
              (set-in_time admin device id input now later db answer h full)),
        rw stored (
            (resolve_live-device (layer_with admin input now)
              (group_layers (groups_of id after.memberships) after.live_states) t (rw shown live)).0
            ∙ shown),
      )
