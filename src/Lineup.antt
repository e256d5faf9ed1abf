-- ===== src/Lineup.antt =====
-- src/lineups/resolve-lineup.ts: the lineup that a device follows, out of that of its group and the
-- exceptions of the device. The schedule of a block and the entries of the information bar are any
-- types.
pub mod Pruning
mod Examples
use flyer_g_be.Base.{
  ℕ, ◌==◌, Bool, true, false, not, ◌&&◌, ◌||◌, Option, none, some, is_some, get_or, List, any, map,
  filter, Map, get,
}
use flyer_g_be.Device.{Range}
use flyer_g_be.Submission.Data.{SubmissionType}

-- `POSTER_LAYOUTS`
pub data PosterLayout : Type 0 where
  wall strip : PosterLayout

-- `LineupSettings`, over the entries of the information bar
pub record LineupSettings (I : Type 0) : Type 0 where
  pub poster_layout : PosterLayout
  pub rotation_seconds : ℕ
  pub refresh_after_seconds : ℕ
  pub info_bar : List I
  pub quiet_hours : List Range

-- The settings that an exception changes: those keys only are there.
pub record PartialSettings (I : Type 0) : Type 0 where
  pub poster_layout : Option PosterLayout
  pub rotation_seconds : Option ℕ
  pub refresh_after_seconds : Option ℕ
  pub info_bar : Option (List I)
  pub quiet_hours : Option (List Range)

-- The sources of a block
pub data Source : Type 0 where
  submissions program : Source

-- `LineupBlockView`
pub record Block (S : Type 0) : Type 0 where
  pub id : ℕ
  pub source : Source
  pub submission_type : Option SubmissionType
  pub program_id : Option ℕ
  pub duration_seconds : ℕ
  pub per_visit : Option ℕ
  pub schedule : S
  pub enabled : Bool

-- An exception of a block
pub record BlockChange : Type 0 where
  pub enabled : Option Bool
  pub duration_seconds : Option ℕ

-- `Lineup` and `DeviceOverrides`
pub record Lineup (I S : Type 0) : Type 0 where
  pub settings : LineupSettings I
  pub blocks : List (Block S)

pub record DeviceOverrides (I : Type 0) : Type 0 where
  pub settings : PartialSettings I
  pub blocks : Map BlockChange

-- `Object.keys(change).length > 0`
abbrev pub changes_something : BlockChange → Bool
changes_something change = is_some change.enabled || is_some change.duration_seconds

-- The entries that `pruneOverrides` keeps
abbrev pub is_kept : List ℕ → ℕ × BlockChange → Bool
is_kept block_ids entry = any (λ id. id == entry.0) block_ids && changes_something entry.1

module _ {I : Type 0} where
  -- `resolveSettings`
  unfoldable pub resolve_settings : LineupSettings I → DeviceOverrides I → LineupSettings I
  resolve_settings settings overrides =
      let change = overrides.settings in
      record {
        poster_layout = get_or change.poster_layout settings.poster_layout;
        rotation_seconds = get_or change.rotation_seconds settings.rotation_seconds;
        refresh_after_seconds = get_or change.refresh_after_seconds settings.refresh_after_seconds;
        info_bar = get_or change.info_bar settings.info_bar;
        quiet_hours = get_or change.quiet_hours settings.quiet_hours;
      }

  -- `pruneOverrides`
  unfoldable pub prune_overrides : DeviceOverrides I → List ℕ → DeviceOverrides I
  prune_overrides overrides block_ids = record overrides {
    blocks = filter (is_kept block_ids) overrides.blocks;
  }

-- `{ ...block, ...change }`, where there may be no change
unfoldable pub with_change : {S : Type 0} → Block S → Option BlockChange → Block S
with_change block none = block
with_change block (some change) = record block {
  duration_seconds = get_or change.duration_seconds block.duration_seconds;
  enabled = get_or change.enabled block.enabled;
}

module _ {I S : Type 0} where
  -- `resolveLineup`
  unfoldable pub resolve_lineup : Lineup I S → DeviceOverrides I → Lineup I S
  resolve_lineup lineup overrides = record {
    settings = resolve_settings lineup.settings overrides;
    blocks = map (λ block. with_change block (get block.id overrides.blocks)) lineup.blocks;
  }
