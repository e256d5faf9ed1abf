-- ===== src/TargetGroups/Examples.antt =====
-- src/target-groups/target-groups.service.ts on two groups, one of them in use.
use flyer_g_be.Base.{◌≡◌, refl, true, none, some, String, List, [], ◌∷◌, map}
use flyer_g_be.Failure.{throw, exception, in_use}
use flyer_g_be.TargetGroups.{Group, GroupDb, remove, create, update, usage_of}
use flyer_g_be.TargetGroups.Steps.{
  GroupStep, creates, updates, removes, links_submission, saves_device, step, steps,
}

abbrev lobby : Group
lobby = record { id = 1; name = "lobby"; is_active = true; created_at = 5; updated_at = 5 }

abbrev table : GroupDb
table = record {
  groups = lobby ∷ record lobby { id = 2; name = "hall" } ∷ [];
  lineups = 1 ∷ 2 ∷ [];
  devices = record { id = 7; program_group_id = 1 } ∷ [];
  device_groups = record { owner_id = 7; target_group_id = 1 } ∷ [];
  submission_groups = [];
  live_groups = 2 ∷ [];
  audit_logs = [];
}

-- Lower case as it is
abbrev as_is : String → String
as_is name = name

in_use_refused : remove 9 1 50 table ≡ (throw (exception 409 in_use), table)
unfolding remove usage_of
in_use_refused = refl

removed : map (λ g. g.id) (remove 9 2 50 table).1.groups ≡ 1 ∷ []
unfolding remove usage_of
removed = refl

-- The hall is renamed and removed, then a submission is meant for it, and a new group is made.
abbrev history : List GroupStep
history =
    updates 9 2 (record { name = some "gym"; is_hidden = none }) 60
    ∷ removes 9 2 70
    ∷ links_submission (record { owner_id = 4; target_group_id = 2 })
    ∷ creates 9 3 "hall" 80
    ∷ saves_device (record { id = 7; program_group_id = 3 })
    ∷ removes 9 1 90
    ∷ []

kept_groups : map (λ g. g.id) (steps as_is history table).groups ≡ 1 ∷ 3 ∷ []
unfolding step remove create update usage_of
kept_groups = refl
