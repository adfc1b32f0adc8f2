-- ===== src/Engine/Tracking/Durable.antt =====
-- _on_durable_snapshot of gamecollect/engine.py and what it calls.
pub mod Resolved
use gamealerts_collector.Prelude.{
  String, Bool, true, false, not, ◌||◌, List, Option, none, some, if◌then◌else◌, is_some,
}
use gamealerts_collector.Dict.{get, insert, remove}
use gamealerts_collector.Provider.{is_live, NormalizedMatch}
use gamealerts_collector.FallbackMerge.{
  live_supersedes_cooldown_fallback, live_supersedes_fallback, fallback_worth_retaining,
}
use gamealerts_collector.Engine.Tracking.{
  Cooldown, Tracker, new_tracker, Tracking, listed, evict_match_tracking,
}

-- The cooldown fallback that a live state leaves: none where that state supersedes it.
abbrev pub unsuperseded : NormalizedMatch → Option NormalizedMatch → Option NormalizedMatch
unsuperseded applied none = none
unsuperseded applied (some f) = if live_supersedes_cooldown_fallback applied f then none else some f

-- _clear_cooling_gate
unfoldable pub clear_cooling_gate : String → NormalizedMatch → Tracking → Tracking
clear_cooling_gate id applied t = elim (get id t.cooldowns) [
  | none ↦ t
  | some c ↦ record t {
    cooldowns =
        insert id (record c { remaining = 0; fallback = unsuperseded applied c.fallback })
          t.cooldowns;
  }
]

-- _reset_resumption_budget
unfoldable pub reset_resumption_budget : String → Tracking → Tracking
reset_resumption_budget id t = elim (get id t.transitions) [
  | none ↦ t
  | some found ↦ record t { transitions = insert id (new_tracker found.fallback) t.transitions }
]

-- `fallback is None or not worth retaining or superseded`
abbrev is_stale : NormalizedMatch → Option NormalizedMatch → Bool
is_stale applied none = true
is_stale applied (some f) = not (fallback_worth_retaining f) || live_supersedes_fallback applied f

-- _reconcile_live_apply
unfoldable pub reconcile_live_apply : String → NormalizedMatch → Tracking → Tracking
reconcile_live_apply id applied t = elim (get id t.transitions) [
  | none ↦ t
  | some found ↦
      if is_stale applied found.fallback
      then record t { transitions = remove id t.transitions }
      else t
]

-- _resolve_tracker, but for its log
unfoldable pub resolve_tracker : String → Tracking → Tracking
unfolding evict_match_tracking
resolve_tracker id t =
    let t' = evict_match_tracking id false t in record t' { transitions = remove id t'.transitions }

-- _resolve_backfill_tracker, but for its log
unfoldable pub resolve_backfill_tracker : String → Tracking → Tracking
unfolding evict_match_tracking
resolve_backfill_tracker id t =
    let t' = record t { backfill = remove id t.backfill } in
    if is_some (get id t.backfill) then evict_match_tracking id false t' else t'

-- _on_durable_snapshot
unfoldable pub on_durable_snapshot :
    String → NormalizedMatch → List String → Bool → Tracking → Tracking
unfolding clear_cooling_gate reconcile_live_apply resolve_tracker resolve_backfill_tracker
on_durable_snapshot id snapshot live_resumptions state_advanced t =
    let t1 = resolve_backfill_tracker id t in
    if is_live snapshot.status
    then (if state_advanced
        then (let t2 = clear_cooling_gate id snapshot t1 in
            if listed id live_resumptions then reconcile_live_apply id snapshot t2 else t2)
        else t1)
    else resolve_tracker id t1
