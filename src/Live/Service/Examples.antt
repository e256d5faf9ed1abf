-- ===== src/Live/Service/Examples.antt =====
-- src/live/live.service.ts on a display in a group.
use flyer_g_be.Base.{◌≡◌, refl, true, none, some, [], ◌∷◌}
use flyer_g_be.Failure.{ok, throw, validation_failure}
use flyer_g_be.Live.{Part, LiveMain, show, active_layer, alive, main_of}
use flyer_g_be.Live.Service.{
  device, group, LiveDb, LiveInput, layer_with, set, set_layer, get_live, effective_for_device,
  time_errors, reference_errors, assert_target, layer_of,
}
use flyer_g_be.Live.Service.Laws.{set-get, set-shown}
use flyer_g_be.Live.Service.Refused.{set-refused}

abbrev table : LiveDb
table = record {
  devices = 1 ∷ [];
  groups = 2 ∷ [];
  memberships = record { device_id = 1; target_group_id = 2 } ∷ [];
  submissions = 5 ∷ [];
  programs = [];
  live_states = [];
  audit_logs = [];
  emitted = [];
}

abbrev picture : Part LiveMain
picture = record { content = show (some 5) none; until = some 900 }

abbrev input : LiveInput
input = record { main = some picture; alert = none }

-- A picture of a submission that is not there
abbrev missing : LiveInput
missing = record {
  main = some (record { content = show (some 6) none; until = none });
  alert = none;
}

set_done : (set 9 device 1 input 100 101 table).0 ≡ ok (some (layer_with 9 input 100))
unfolding set set_layer time_errors reference_errors assert_target get_live active_layer layer_of
    alive
set_done = refl

set_group_done : (set 9 group 2 input 100 101 table).0 ≡ ok (some (layer_with 9 input 100))
unfolding set set_layer time_errors reference_errors assert_target get_live active_layer layer_of
    alive
set_group_done = refl

refused :
    (set 9 device 1 missing 100 101 table).0 ≡ throw (validation_failure ("main.submissionId" ∷ []))
unfolding set set_layer time_errors reference_errors assert_target get_live active_layer layer_of
    alive
refused = refl

-- What is over is not read any more.
set-get_example :
    (get_live group 2 950 (set 9 group 2 input 100 101 table).1).0
    ≡ ok (active_layer (some (layer_with 9 input 100)) 950)
set-get_example =
    set-get 9 group 2 input 100 101 table (some (layer_with 9 input 100)) set_group_done group 2 950

alive_now : alive (some picture) 500 ≡ true
unfolding alive
alive_now = refl

set-shown_example :
    (alive (some picture) 100 ≡ true)
    × (main_of (effective_for_device 1 500 (set 9 device 1 input 100 101 table).1) ≡ some picture)
set-shown_example =
    set-shown 9 1 input 100 101 table (some (layer_with 9 input 100)) picture 500 set_done refl
      alive_now

set-refused_example : (set 9 device 1 missing 100 101 table).1 ≡ table
set-refused_example =
    set-refused 9 device 1 missing 100 101 table (validation_failure ("main.submissionId" ∷ []))
      refused
