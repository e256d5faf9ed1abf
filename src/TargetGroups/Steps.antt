-- ===== src/TargetGroups/Steps.antt =====
-- Sequences of calls of src/target-groups/target-groups.service.ts and of the writes of references to
-- groups.
use flyer_g_be.Base.{
  ℕ, ◌==◌, ◌≡◌, String, true, not, if◌then◌else◌, List, [], ◌∷◌, ◌++◌, All, filter, any,
}
use flyer_g_be.TargetGroups.{
  Group, GroupDevice, GroupLink, GroupDb, UpdateGroup, has_group, remove, create, update,
}

-- What the users of the service write: a reference under its foreign key, and the end of those of
-- an owner
pub data GroupStep : Type 0 where
  creates : (admin id : ℕ) → (name : String) → (now : ℕ) → GroupStep
  updates : (admin id : ℕ) → (dto : UpdateGroup) → (now : ℕ) → GroupStep
  removes : (admin id now : ℕ) → GroupStep
  links_device links_submission : (link : GroupLink) → GroupStep
  unlinks_device unlinks_submission : (owner_id : ℕ) → GroupStep
  saves_device : (saved : GroupDevice) → GroupStep

abbrev pub without : ℕ → List GroupLink → List GroupLink
without owner_id links = filter (λ l. not (l.owner_id == owner_id)) links

unfoldable pub step : (lower : String → String) → GroupStep → GroupDb → GroupDb
unfolding create update remove
step lower (creates admin id name now) db = (create lower admin id name now db).1
step lower (updates admin id dto now) db = (update lower admin id dto now db).1
step lower (removes admin id now) db = (remove admin id now db).1
step lower (links_device link) db =
    if has_group db.groups link.target_group_id
    then record db { device_groups = db.device_groups ++ link ∷ [] }
    else db
step lower (links_submission link) db =
    if has_group db.groups link.target_group_id
    then record db { submission_groups = db.submission_groups ++ link ∷ [] }
    else db
step lower (unlinks_device owner_id) db = record db {
  device_groups = without owner_id db.device_groups;
}
step lower (unlinks_submission owner_id) db = record db {
  submission_groups = without owner_id db.submission_groups;
}
step lower (saves_device saved) db =
    if has_group db.groups saved.program_group_id
    then record db { devices = filter (λ d. not (d.id == saved.id)) db.devices ++ saved ∷ [] }
    else db

abbrev pub steps : (lower : String → String) → List GroupStep → GroupDb → GroupDb
steps lower [] db = db
steps lower (one ∷ more) db = steps lower more (step lower one db)

abbrev pub Linked : List Group → List GroupLink → Type 0
Linked groups links = All (λ l. has_group groups l.target_group_id ≡ true) links

abbrev pub Followed : List Group → List GroupDevice → Type 0
Followed groups devices = All (λ d. has_group groups d.program_group_id ≡ true) devices

abbrev pub HasLineups : List ℕ → List Group → Type 0
HasLineups lineups groups = All (λ g. any (λ l. l == g.id) lineups ≡ true) groups

-- Every group that is referred to is there, and every group has a lineup.
pub record IsSound (db : GroupDb) : Type 0 where
  pub device_groups : Linked db.groups db.device_groups
  pub submission_groups : Linked db.groups db.submission_groups
  pub devices : Followed db.groups db.devices
  pub lineups : HasLineups db.lineups db.groups
