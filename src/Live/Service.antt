-- ===== src/Live/Service.antt =====
-- src/live/live.service.ts: what is live for a display or a group is set, cleared and read. The
-- shapes that src/live/live-schema.ts demands (a game has an end, a picture shows one thing) are
-- those of the input; the text of an alert is all of it.
mod Keys
pub mod Laws
pub mod Refused
mod Examples
use flyer_g_be.Base.{
  ℕ, ◌+◌, ◌*◌, ◌==◌, ltb, String, Bool, true, false, not, ◌&&◌, ◌||◌, if◌then◌else◌, Option, none,
  some, List, [], ◌∷◌, ◌++◌, map, filter, find?, any,
}
use flyer_g_be.Failure.{
  AppException, FieldErrors, has_errors, validation_failure, exception, not_found, Action, get,
  modify, throw_if, pure, transaction, ◌>>=◌, ◌>>◌,
}
use flyer_g_be.Live.{Part, LiveMain, game, show, LiveLayer, active_layer, resolve_live}

-- `LiveScope`
pub data LiveScope : Type 0 where
  device group : LiveScope

abbrev pub same_scope : LiveScope → LiveScope → Bool
same_scope device device = true
same_scope group group = true
same_scope _ _ = false

abbrev pub Layer : Type 0
Layer = LiveLayer LiveMain String

-- `liveStates`
pub record LiveState : Type 0 where
  pub scope : LiveScope
  pub scope_id : ℕ
  pub layer : Layer

-- `deviceTargetGroups`
pub record Membership : Type 0 where
  pub device_id : ℕ
  pub target_group_id : ℕ

-- The entries `LIVE_SET` and `LIVE_CLEARED` of the audit log
pub data LiveAction : Type 0 where
  live_set : Option (Part LiveMain) → Option (Part String) → LiveAction
  live_cleared : LiveAction

pub record LiveEntry : Type 0 where
  pub actor : ℕ
  pub action : LiveAction
  pub scope : LiveScope
  pub scope_id : ℕ
  pub at : ℕ

-- The tables, those of the things referred to by their ids, and what was emitted to the displays
pub record LiveDb : Type 0 where
  pub devices : List ℕ
  pub groups : List ℕ
  pub memberships : List Membership
  pub submissions : List ℕ
  pub programs : List ℕ
  pub live_states : List LiveState
  pub audit_logs : List LiveEntry
  pub emitted : List (LiveScope × ℕ)

abbrev pub LiveCall : Type 0 → Type 0
LiveCall A = Action LiveDb AppException A

-- `LiveInput`
pub record LiveInput : Type 0 where
  pub main : Option (Part LiveMain)
  pub alert : Option (Part String)

abbrev pub has_id : ℕ → List ℕ → Bool
has_id id ids = any (λ i. i == id) ids

abbrev pub scope_ids : LiveScope → LiveDb → List ℕ
scope_ids device db = db.devices
scope_ids group db = db.groups

-- `assertTarget`
unfoldable pub assert_target : LiveScope → ℕ → LiveCall Unit
assert_target scope scope_id = do
  db ← get
  throw_if (not (has_id scope_id (scope_ids scope db))) (exception 404 not_found)

abbrev pub is_of : LiveScope → ℕ → LiveState → Bool
is_of scope scope_id row = same_scope row.scope scope && row.scope_id == scope_id

abbrev pub layer_in : Option LiveState → Option Layer
layer_in none = none
layer_in (some row) = some row.layer

-- `layersOf` of one key
unfoldable pub layer_of : LiveScope → ℕ → List LiveState → Option Layer
layer_of scope scope_id rows = layer_in (find? (is_of scope scope_id) rows)

-- `get`
unfoldable pub get_live : LiveScope → ℕ → ℕ → LiveCall (Option Layer)
unfolding assert_target layer_of
get_live scope scope_id now = do
  assert_target scope scope_id
  db ← get
  pure (active_layer (layer_of scope scope_id db.live_states) now)

abbrev pub max_game_duration_ms : ℕ
max_game_duration_ms = 3 * 3600000

-- A game must end within three hours from now, and the rest, if it ends, after now.
abbrev is_past : Option ℕ → ℕ → Bool
is_past none now = false
is_past (some until) now = not (ltb now until)

abbrev is_long : Option ℕ → ℕ → Bool
is_long none now = false
is_long (some until) now = ltb (now + max_game_duration_ms) until

abbrev main_error : Option (Part LiveMain) → ℕ → Bool
main_error none now = false
main_error (some part) now = elim part.content [
  | game ↦ is_past part.until now || is_long part.until now
  | show s p ↦ is_past part.until now
]

abbrev alert_error : Option (Part String) → ℕ → Bool
alert_error none now = false
alert_error (some part) now = is_past part.until now

abbrev error_if : String → Bool → FieldErrors
error_if field true = field ∷ []
error_if field false = []

-- `timeErrors`
unfoldable pub time_errors : Option (Part LiveMain) → Option (Part String) → ℕ → FieldErrors
time_errors main alert now =
    error_if "main.until" (main_error main now) ++ error_if "alert.until" (alert_error alert now)

-- `referenceErrors`
abbrev is_missing : Option ℕ → List ℕ → Bool
is_missing none ids = true
is_missing (some id) ids = not (has_id id ids)

abbrev shown_errors : LiveMain → LiveDb → FieldErrors
shown_errors game db = []
shown_errors (show (some s) p) db = error_if "main.submissionId" (not (has_id s db.submissions))
shown_errors (show none p) db = error_if "main.programId" (is_missing p db.programs)

unfoldable pub reference_errors : Option (Part LiveMain) → LiveDb → FieldErrors
reference_errors none db = []
reference_errors (some part) db = shown_errors part.content db

abbrev pub live_audit : LiveEntry → LiveCall Unit
live_audit entry = modify (λ db. record db { audit_logs = db.audit_logs ++ entry ∷ [] })

abbrev emit_change : LiveScope → ℕ → LiveCall Unit
emit_change scope scope_id =
    modify (λ db. record db { emitted = db.emitted ++ (scope, scope_id) ∷ [] })

abbrev pub remove_state : LiveScope → ℕ → List LiveState → List LiveState
remove_state scope scope_id rows = filter (λ row. not (is_of scope scope_id row)) rows

-- `clear`: its transaction, and the whole
abbrev pub clear_states : ℕ → LiveScope → ℕ → ℕ → LiveCall Bool
clear_states admin scope scope_id now = do
  db ← get
  modify (λ s. record s { live_states = remove_state scope scope_id s.live_states })
  let deleted = any (is_of scope scope_id) db.live_states
  if deleted
      then live_audit (record {
        actor = admin;
        action = live_cleared;
        scope = scope;
        scope_id = scope_id;
        at = now;
      })
      else pure tt
  pure deleted

unfoldable pub clear : ℕ → LiveScope → ℕ → ℕ → LiveCall Unit
unfolding assert_target
clear admin scope scope_id now = do
  assert_target scope scope_id
  cleared ← transaction (clear_states admin scope scope_id now)
  if cleared then emit_change scope scope_id else pure tt

-- `insert … on conflict do update`: the row of the key is replaced, or is new.
abbrev pub put_layer : LiveScope → ℕ → Layer → LiveState → LiveState
put_layer scope scope_id layer row =
    if is_of scope scope_id row then record row { layer = layer } else row

abbrev pub put_state : LiveScope → ℕ → Layer → List LiveState → List LiveState
put_state scope scope_id layer rows =
    if any (is_of scope scope_id) rows
    then map (put_layer scope scope_id layer) rows
    else rows ++ record { scope = scope; scope_id = scope_id; layer = layer } ∷ []

abbrev pub layer_with : ℕ → LiveInput → ℕ → Layer
layer_with admin input now = record {
  main = input.main;
  alert = input.alert;
  set_by = admin;
  set_at = now;
}

abbrev pub is_clearing : LiveInput → Bool
is_clearing input = elim input.main [
  | none ↦ elim input.alert [ none ↦ true | some a ↦ false ]
  | some m ↦ false
]

-- `set` of a layer that is not empty, up to the answer
unfoldable pub set_layer : ℕ → LiveScope → ℕ → LiveInput → ℕ → LiveCall Unit
unfolding assert_target time_errors reference_errors
set_layer admin scope scope_id input now = do
  assert_target scope scope_id
  db ← get
  let fields = time_errors input.main input.alert now ++ reference_errors input.main db
  throw_if (has_errors fields) (validation_failure fields)
  transaction (do
    modify (λ s. record s {
      live_states = put_state scope scope_id (layer_with admin input now) s.live_states;
    })
    live_audit (record {
      actor = admin;
      action = live_set input.main input.alert;
      scope = scope;
      scope_id = scope_id;
      at = now;
    }))
  emit_change scope scope_id

-- `set`, at the time `now` and with the answer read at `later`
unfoldable pub set : ℕ → LiveScope → ℕ → LiveInput → (now later : ℕ) → LiveCall (Option Layer)
unfolding clear set_layer get_live
set admin scope scope_id input now later =
    if is_clearing input
    then clear admin scope scope_id now >> pure none
    else set_layer admin scope scope_id input now >> get_live scope scope_id later

abbrev pub group_layers : List ℕ → List LiveState → List Layer
group_layers [] rows = []
group_layers (id ∷ ids) rows = elim (layer_of group id rows) [
  | none ↦ group_layers ids rows
  | some layer ↦ layer ∷ group_layers ids rows
]

-- The groups of a device
abbrev pub groups_of : ℕ → List Membership → List ℕ
groups_of device_id rows =
    map (λ m. m.target_group_id) (filter (λ m. m.device_id == device_id) rows)

-- `effectiveForDevice`, by `effectiveFor`
unfoldable pub effective_for_device : ℕ → ℕ → LiveDb → Option Layer
unfolding layer_of
effective_for_device device_id now db =
    resolve_live (layer_of device device_id db.live_states)
      (group_layers (groups_of device_id db.memberships) db.live_states) now
