-- ===== src/Live/Examples.antt =====
-- src/live/resolve-live.ts on a device in two groups.
use flyer_g_be.Base.{ℕ, ◌≡◌, refl, true, none, some, List, [], ◌∷◌}
use flyer_g_be.Live.{LiveLayer, alive, resolve_live, main_of, insert, newest_first, combine}

abbrev Layer : Type 0
Layer = LiveLayer ℕ ℕ

abbrev device : Layer
device = record {
  main = some (record { content = 1; until = none });
  alert = none;
  set_by = 9;
  set_at = 10;
}

abbrev older : Layer
older = record {
  main = some (record { content = 2; until = some 500 });
  alert = some (record { content = 3; until = none });
  set_by = 8;
  set_at = 20;
}

abbrev newer : Layer
newer = record {
  main = some (record { content = 4; until = some 100 });
  alert = none;
  set_by = 7;
  set_at = 30;
}

abbrev groups : List Layer
groups = older ∷ newer ∷ []

-- At 50 the newer group is shown, and at 200, when its picture is over, the older one.
shown_first : main_of (resolve_live none groups 50) ≡ newer.main
unfolding resolve_live newest_first insert combine alive
shown_first = refl

shown_later : main_of (resolve_live none groups 200) ≡ older.main
unfolding resolve_live newest_first insert combine alive
shown_later = refl

device_alive : alive device.main 200 ≡ true
unfolding alive
device_alive = refl
