-- ===== src/Merge.antt =====
-- _merge_detail and _merge_over_base of gamecollect/engine.py: one snapshot of a match over
-- another. The ranks of _STATUS_RANK are only compared; they are shifted by one to start at 0.
pub mod Laws
mod Tests
use gamealerts_collector.Prelude.{ℕ, Bool, true, false, ltb, Option, none, some, if◌then◌else◌}
use gamealerts_collector.Json.{merge_payload_preserving_richer}
use gamealerts_collector.Provider.{
  MatchStatus, scheduled, in_play, paused, finished, unknown, NormalizedMatch,
}
use gamealerts_collector.FallbackMerge.{or_else}

abbrev pub status_rank : MatchStatus → ℕ
status_rank unknown = 0
status_rank scheduled = 1
status_rank in_play = 2
status_rank paused = 2
status_rank finished = 3

-- `_merge_payload_preserving_richer` and the fills of `_MERGE_FILL_FIELDS`
unfoldable pub merge_over_base : NormalizedMatch → NormalizedMatch → NormalizedMatch
merge_over_base base snapshot = record snapshot {
  payload = merge_payload_preserving_richer base.payload snapshot.payload;
  home_team = or_else snapshot.home_team base.home_team;
  away_team = or_else snapshot.away_team base.away_team;
  kickoff_utc = or_else snapshot.kickoff_utc base.kickoff_utc;
  score_home = or_else snapshot.score_home base.score_home;
  score_away = or_else snapshot.score_away base.score_away;
}

unfoldable pub lags : NormalizedMatch → NormalizedMatch → Bool
lags scoreboard detail = ltb (status_rank detail.status) (status_rank scoreboard.status)

unfoldable pub merge_detail : NormalizedMatch → NormalizedMatch → NormalizedMatch
unfolding lags
merge_detail scoreboard detail =
    let merged : NormalizedMatch = record detail {
      payload = merge_payload_preserving_richer scoreboard.payload detail.payload;
      home_team = or_else detail.home_team scoreboard.home_team;
      away_team = or_else detail.away_team scoreboard.away_team;
      kickoff_utc = or_else detail.kickoff_utc scoreboard.kickoff_utc;
      score_home = or_else detail.score_home scoreboard.score_home;
      score_away = or_else detail.score_away scoreboard.score_away;
    } in
    if lags scoreboard detail
    then record merged {
      status = scoreboard.status;
      minute = scoreboard.minute;
      display_clock = scoreboard.display_clock;
      score_home = or_else scoreboard.score_home merged.score_home;
      score_away = or_else scoreboard.score_away merged.score_away;
    }
    else merged
