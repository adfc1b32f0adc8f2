-- ===== src/Engine/Poll/Restart.antt =====
-- The scans of gamecollect/engine.py after a restart: _seed_restart_trackers and
-- _seed_restart_backfill_trackers. The rows come in the order of the table.
use gamealerts_collector.Prelude.{
  String, Bool, false, not, ◌&&◌, ◌||◌, List, [], ◌∷◌, Option, none, some, if◌then◌else◌, ◌==◌,
  string_eq,
}
use gamealerts_collector.Dict.{Dict, contains}
use gamealerts_collector.FallbackMerge.{is_terminal}
use gamealerts_collector.Writer.Table.{MatchRow, EventRow, Db, in_partition}
use gamealerts_collector.Writer.Rows.{get_value}
use gamealerts_collector.Engine.Rows.{as_str}
use gamealerts_collector.Engine.Tracking.{Tracking, tracker, backfill_tracker, listed}
use gamealerts_collector.Engine.Stored.{live_value, read_status, resolve_stored_provider_id}

-- `a & b` is not empty
unfoldable pub meets : List String → List String → Bool
unfolding listed
meets [] ids = false
meets (x ∷ xs) ids = listed x ids || meets xs ids

abbrev pub status_of : MatchRow → Option String
status_of row = as_str (get_value "status" row.columns)

-- the match has a tracker of either kind
abbrev pub is_tracked : String → Tracking → Bool
is_tracked id t = contains id t.transitions || contains id t.backfill

-- the provider id to track, unless one of the row's ids is among `present`
abbrev pub seedable : Option String × List String → List String → Tracking → Option String
seedable (none, ids) present t = none
seedable (some id, ids) present t = if meets ids present || is_tracked id t then none else some id

abbrev pub seed_tracker : Option String → Tracking → Tracking
seed_tracker none t = t
seed_tracker (some id) t = (tracker id t).1

abbrev pub seed_backfill : Option String → Tracking → Tracking
seed_backfill none t = t
seed_backfill (some id) t = (backfill_tracker id t).1

module _ (default_seed : Bool) (source : String) (db : Db) (present : List String) where
  -- the body of the loop of _seed_restart_trackers
  abbrev pub seed_live_row : String → MatchRow → Tracking → Tracking
  seed_live_row stored_id row t =
      if row.source == source && live_value (status_of row)
      then seed_tracker
          (seedable (resolve_stored_provider_id default_seed source db stored_id) present t) t
      else t

  unfoldable pub seed_live_rows : Dict MatchRow → Tracking → Tracking
  unfolding meets tracker resolve_stored_provider_id
  seed_live_rows [] t = t
  seed_live_rows ((stored_id, row) ∷ rows) t = seed_live_rows rows (seed_live_row stored_id row t)

  -- the match has an event row
  unfoldable pub has_event : String → List EventRow → Bool
  has_event stored_id [] = false
  has_event stored_id (e ∷ es) = in_partition source stored_id e || has_event stored_id es

  -- the body of the loop of _seed_restart_backfill_trackers
  abbrev pub seed_eventless_row : String → MatchRow → Tracking → Tracking
  seed_eventless_row stored_id row t =
      if row.source == source
        && (not (has_event stored_id db.events) && is_terminal (read_status (status_of row)))
      then seed_backfill
          (seedable (resolve_stored_provider_id default_seed source db stored_id) present t) t
      else t

  unfoldable pub seed_eventless_rows : Dict MatchRow → Tracking → Tracking
  unfolding meets backfill_tracker resolve_stored_provider_id read_status has_event
  seed_eventless_rows [] t = t
  seed_eventless_rows ((stored_id, row) ∷ rows) t =
      seed_eventless_rows rows (seed_eventless_row stored_id row t)

-- _seed_restart_trackers
unfoldable pub seed_restart_trackers : Bool → String → Db → List String → Tracking → Tracking
unfolding seed_live_rows
seed_restart_trackers default_seed source db slate t =
    seed_live_rows default_seed source db slate db.matches t

-- _seed_restart_backfill_trackers
unfoldable pub seed_restart_backfill_trackers :
    Bool → String → Db → List String → Tracking → Tracking
unfolding seed_eventless_rows
seed_restart_backfill_trackers default_seed source db live_slate t =
    seed_eventless_rows default_seed source db live_slate db.matches t
