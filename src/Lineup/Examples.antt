-- ===== src/Lineup/Examples.antt =====
-- src/lineups/resolve-lineup.ts on a lineup of one block, with the exception of a block that is gone.
use flyer_g_be.Base.{ℕ, ◌≡◌, refl, true, false, none, some, [], ◌∷◌, get}
use flyer_g_be.Submission.Data.{poster}
use flyer_g_be.Lineup.{
  wall, strip, submissions, Block, Lineup, DeviceOverrides, prune_overrides, with_change,
  resolve_lineup,
}
use flyer_g_be.Lineup.Pruning.{IsKeyed, resolve_lineup-prune_overrides}

abbrev posters : Block ℕ
posters = record {
  id = 1;
  source = submissions;
  submission_type = some poster;
  program_id = none;
  duration_seconds = 10;
  per_visit = none;
  schedule = 0;
  enabled = true;
}

abbrev lineup : Lineup ℕ ℕ
lineup = record {
  settings = record {
    poster_layout = wall;
    rotation_seconds = 10;
    refresh_after_seconds = 60;
    info_bar = [];
    quiet_hours = [];
  };
  blocks = posters ∷ [];
}

abbrev overrides : DeviceOverrides ℕ
overrides = record {
  settings = record {
    poster_layout = some strip;
    rotation_seconds = none;
    refresh_after_seconds = none;
    info_bar = none;
    quiet_hours = none;
  };
  blocks =
      (2, record { enabled = some false; duration_seconds = none })
      ∷ (1, record { enabled = none; duration_seconds = some 20 })
      ∷ [];
}

pruned :
    (prune_overrides overrides (1 ∷ [])).blocks
    ≡ (1, record { enabled = none; duration_seconds = some 20 }) ∷ []
unfolding prune_overrides
pruned = refl

overrides-IsKeyed : IsKeyed overrides.blocks
unfolding get
overrides-IsKeyed = (refl, (refl, tt))

resolve_lineup-prune_overrides_example :
    resolve_lineup lineup (prune_overrides overrides (1 ∷ [])) ≡ resolve_lineup lineup overrides
resolve_lineup-prune_overrides_example =
    resolve_lineup-prune_overrides lineup overrides (1 ∷ []) refl overrides-IsKeyed

followed : (resolve_lineup lineup overrides).blocks ≡ record posters { duration_seconds = 20 } ∷ []
unfolding resolve_lineup with_change get
followed = refl
