-- ===== src/TargetGroups.antt =====
-- src/target-groups/target-groups.service.ts: groups of displays are created, renamed, hidden and
-- removed, while devices, submissions and live states refer to them. `lower` is SQL's. What other
-- services write is a reference under its foreign key; `DevicesService` and others check more.
pub mod Steps
mod Kept
pub mod Integrity
mod Examples
use flyer_g_be.Base.{
  ℕ, ◌+◌, ◌==◌, ltb, String, Bool, true, false, not, ◌&&◌, ◌||◌, if◌then◌else◌, Option, none, some,
  is_some, get_or, List, [], ◌∷◌, ◌++◌, map, filter, find?, any, count,
}
use flyer_g_be.Failure.{
  AppException, validation_failure, exception, not_found, in_use, server_error, Action, get, modify,
  throw_if, raise, pure, transaction, ◌>>=◌, ◌>>◌,
}
use flyer_g_be.Submission.Text.{same_string}

-- `targetGroups`
pub record Group : Type 0 where
  pub id : ℕ
  pub name : String
  pub is_active : Bool
  pub created_at : ℕ
  pub updated_at : ℕ

-- The columns of `devices` that are read
pub record GroupDevice : Type 0 where
  pub id : ℕ
  pub program_group_id : ℕ

-- `deviceTargetGroups` and `submissionTargetGroups`: what is linked, by its id, to a group
pub record GroupLink : Type 0 where
  pub owner_id : ℕ
  pub target_group_id : ℕ

pub data GroupAction : Type 0 where
  group_created group_deleted : (name : String) → GroupAction
  group_updated : (name : Option String) → (is_hidden : Option Bool) → GroupAction

pub record GroupEntry : Type 0 where
  pub actor : ℕ
  pub action : GroupAction
  pub target : ℕ
  pub at : ℕ

-- The tables; `groupLineups` and the live states of groups by the ids of their groups
pub record GroupDb : Type 0 where
  pub groups : List Group
  pub lineups : List ℕ
  pub devices : List GroupDevice
  pub device_groups : List GroupLink
  pub submission_groups : List GroupLink
  pub live_groups : List ℕ
  pub audit_logs : List GroupEntry

abbrev pub GroupCall : Type 0 → Type 0
GroupCall A = Action GroupDb AppException A

abbrev pub has_group : List Group → ℕ → Bool
has_group groups id = any (λ g. g.id == id) groups

abbrev pub name_taken : AppException
name_taken = validation_failure ("name" ∷ [])

abbrev pub group_audit : GroupEntry → GroupCall Unit
group_audit entry = modify (λ db. record db { audit_logs = db.audit_logs ++ entry ∷ [] })

abbrev pub new_group : ℕ → String → ℕ → Group
new_group id name now = record {
  id = id;
  name = name;
  is_active = true;
  created_at = now;
  updated_at = now;
}

-- The fields of `UpdateTargetGroupDto`, and those that differ from the row
pub record UpdateGroup : Type 0 where
  pub name : Option String
  pub is_hidden : Option Bool

abbrev same_flag : Bool → Bool → Bool
same_flag true b = b
same_flag false b = not b

abbrev new_name : Group → Option String → Option String
new_name current none = none
new_name current (some name) = if same_string name current.name then none else some name

abbrev new_hidden : Group → Option Bool → Option Bool
new_hidden current none = none
new_hidden current (some hidden) =
    if same_flag hidden (not current.is_active) then none else some hidden

abbrev pub changes_of : Group → UpdateGroup → UpdateGroup
changes_of current dto = record {
  name = new_name current dto.name;
  is_hidden = new_hidden current dto.is_hidden;
}

abbrev active_of : Group → Option Bool → Bool
active_of row none = row.is_active
active_of row (some hidden) = not hidden

abbrev pub renamed : ℕ → UpdateGroup → ℕ → Group → Group
renamed id changes now row =
    if row.id == id
    then record row {
      name = get_or changes.name row.name;
      is_active = active_of row changes.is_hidden;
      updated_at = now;
    }
    else row

abbrev found_group : Option Group → GroupCall Group
found_group none = raise (exception 404 not_found)
found_group (some group) = pure group

abbrev pub find_group : ℕ → GroupCall Group
find_group id = do db ← get; found_group (find? (λ g. g.id == id) db.groups)

-- `usageOf`: devices that are in the group or follow its lineup, and submissions for it
pub record GroupUsage : Type 0 where
  pub devices : ℕ
  pub submission_count : ℕ

abbrev pub links_to : ℕ → List GroupLink → Bool
links_to id links = any (λ l. l.target_group_id == id) links

abbrev uses_group : ℕ → List GroupLink → GroupDevice → Bool
uses_group id links device =
    any (λ l. l.owner_id == device.id && l.target_group_id == id) links
    || device.program_group_id == id

unfoldable pub usage_of : ℕ → GroupDb → GroupUsage
usage_of id db = record {
  devices = count (uses_group id db.device_groups) db.devices;
  submission_count = count (λ l. l.target_group_id == id) db.submission_groups;
}

-- The foreign keys of `GROUP_REFERENCES`, whose violation `remove` turns into the same 409
abbrev pub is_referenced : ℕ → GroupDb → Bool
is_referenced id db =
    links_to id db.device_groups
    || links_to id db.submission_groups
    || any (λ d. d.program_group_id == id) db.devices

abbrev in_use_exception : AppException
in_use_exception = exception 409 in_use

-- `delete` of the group, with the lineup that goes with it
abbrev pub delete_group : ℕ → GroupCall Unit
delete_group id = do
  db ← get
  throw_if (is_referenced id db) in_use_exception
  modify (λ s. record s {
    groups = filter (λ g. not (g.id == id)) s.groups;
    lineups = filter (λ g. not (g == id)) s.lineups;
  })

abbrev pub delete_live : ℕ → GroupCall Unit
delete_live id = modify (λ s. record s { live_groups = filter (λ g. not (g == id)) s.live_groups })

-- `remove`
abbrev remove_body : ℕ → ℕ → ℕ → GroupCall Unit
remove_body admin id now = do
  group ← find_group id
  db ← get
  let usage = usage_of id db
  throw_if (ltb 0 usage.devices || ltb 0 usage.submission_count) in_use_exception
  delete_group id
  delete_live id
  group_audit (record { actor = admin; action = group_deleted group.name; target = id; at = now })

unfoldable pub remove : ℕ → ℕ → ℕ → GroupCall Unit
unfolding usage_of
remove admin id now = transaction (remove_body admin id now)

module _ (lower : String → String) where
  abbrev pub same_name : String → String → Bool
  same_name a b = same_string (lower a) (lower b)

  -- `create`, up to its answer, with the random id: the unique keys are those of the table.
  abbrev create_body : ℕ → ℕ → String → ℕ → GroupCall Unit
  create_body admin id name now = do
    db ← get
    throw_if (has_group db.groups id) (exception 500 server_error)
    throw_if (any (λ g. same_name g.name name) db.groups) name_taken
    modify (λ s. record s {
      groups = s.groups ++ new_group id name now ∷ [];
      lineups = s.lineups ++ id ∷ [];
    })
    group_audit (record { actor = admin; action = group_created name; target = id; at = now })

  unfoldable pub create : ℕ → ℕ → String → ℕ → GroupCall Unit
  create admin id name now = transaction (create_body admin id name now)

  abbrev pub is_taken : ℕ → Option String → List Group → Bool
  is_taken id none groups = false
  is_taken id (some name) groups = any (λ g. not (g.id == id) && same_name g.name name) groups

  -- The write of `update`
  abbrev write_changes : ℕ → ℕ → UpdateGroup → ℕ → GroupCall Unit
  write_changes admin id changes now = do
    db ← get
    throw_if (is_taken id changes.name db.groups) name_taken
    modify (λ s. record s { groups = map (renamed id changes now) s.groups })
    group_audit (record {
      actor = admin;
      action = group_updated changes.name changes.is_hidden;
      target = id;
      at = now;
    })

  abbrev update_body : ℕ → ℕ → UpdateGroup → ℕ → GroupCall Unit
  update_body admin id dto now = do
    current ← find_group id
    let changes = changes_of current dto
    if is_some changes.name || is_some changes.is_hidden
        then write_changes admin id changes now
        else pure tt

  -- `update`, up to its answer
  unfoldable pub update : ℕ → ℕ → UpdateGroup → ℕ → GroupCall Unit
  update admin id dto now = transaction (update_body admin id dto now)
