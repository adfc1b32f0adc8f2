-- ===== src/Engine/Poll/Slate.antt =====
-- _fetch_poll_snapshots of gamecollect/engine.py over a whole slate.
use gamealerts_collector.Prelude.{◌-◌, String, Bool, List, [], ◌∷◌, if◌then◌else◌}
use gamealerts_collector.Provider.{is_live, NormalizedMatch}
use gamealerts_collector.Engine.Tracking.{Tracking, age_cooldowns}
use gamealerts_collector.Engine.Poll.State.{backfill_max_fetches_per_poll, View, Poll}
use gamealerts_collector.Engine.Poll.Board.{step_board}
use gamealerts_collector.Engine.Poll.Vanished.{hydrate_vanished_matches}
use gamealerts_collector.Engine.Poll.Restart.{seed_restart_trackers, seed_restart_backfill_trackers}

unfoldable pub run_slate : View → List NormalizedMatch → Poll → Poll
unfolding step_board
run_slate v [] p = p
run_slate v (match ∷ matches) p = run_slate v matches (step_board v match p)

unfoldable pub slate_ids : List NormalizedMatch → List String
slate_ids [] = []
slate_ids (match ∷ matches) = match.match_id ∷ slate_ids matches

unfoldable pub live_slate_ids : List NormalizedMatch → List String
live_slate_ids [] = []
live_slate_ids (match ∷ matches) =
    let rest = live_slate_ids matches in
    if is_live match.status then match.match_id ∷ rest else rest

-- the scans of the first poll
unfoldable pub restart_scan : View → Bool → List NormalizedMatch → Tracking → Tracking
unfolding seed_restart_trackers seed_restart_backfill_trackers slate_ids live_slate_ids
restart_scan v done slate t =
    let t' = seed_restart_trackers v.default_seed v.source v.db (slate_ids slate) t in
    if done
    then t
    else if v.backfill_finished_matches
    then seed_restart_backfill_trackers v.default_seed v.source v.db (live_slate_ids slate) t'
    else t'

-- the poll before the first board
abbrev pub begin : Tracking → Poll
begin t = record {
  tracking = t;
  apply_pending = [];
  live_resumptions = [];
  backfill_fetches = 0;
  hydrated = [];
  requests = [];
}

-- _fetch_poll_snapshots, from a slate that was fetched
unfoldable pub fetch_poll_snapshots : View → Bool → List NormalizedMatch → Tracking → Poll
unfolding run_slate slate_ids restart_scan age_cooldowns hydrate_vanished_matches
fetch_poll_snapshots v restart_scan_done slate t =
    let ids = slate_ids slate in
    let p =
      run_slate v slate (begin (restart_scan v restart_scan_done slate (age_cooldowns ids t))) in
    hydrate_vanished_matches v ids (backfill_max_fetches_per_poll - p.backfill_fetches) p
