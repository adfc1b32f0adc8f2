-- ===== src/Engine/Poll/Once.antt =====
-- poll_once, _poll_and_next_delay and _next_backoff_delay of gamecollect/engine.py. The admission
-- lock and the jitter are left out: a delay is counted in poll intervals.
pub mod Laws
pub mod Baselines
pub mod Backoff
use gamealerts_collector.Prelude.{
  ℕ, ◌*◌, min, String, Bool, true, false, List, [], ◌∷◌, Option, none, some, if◌then◌else◌,
}
use gamealerts_collector.Dict.{Dict, insert}
use gamealerts_collector.Provider.{NormalizedMatch}
use gamealerts_collector.Diffing.{MatchDiff, has_changes, diff_matches}
use gamealerts_collector.Writer.Table.{Db}
use gamealerts_collector.Writer.Action.{
  Error, sequence_error, taxonomy_error, unseeded_match_error, cross_partition_error, value_error,
  type_error, interface_error, Result, ok, err,
}
use gamealerts_collector.Writer.Rows.{PartitionWriter}
use gamealerts_collector.Engine.Tracking.{Tracking, listed, register_backfill_apply_failure}
use gamealerts_collector.Engine.Tracking.Durable.{on_durable_snapshot}
use gamealerts_collector.Engine.Apply.{Pack, Applied, apply_diff}
use gamealerts_collector.Record.{RecordWriter, accumulate}
use gamealerts_collector.Engine.Poll.State.{Fetched, View, Poll}
use gamealerts_collector.Engine.Poll.Slate.{fetch_poll_snapshots}

-- what the engine is made with
pub record Config : Type 0 where
  pub pack : Pack
  pub writer : PartitionWriter
  pub default_seed : Bool
  pub backfill_finished_matches : Bool

-- what it keeps between two polls
pub record Engine : Type 0 where
  pub tracking : Tracking
  pub last : Dict NormalizedMatch
  pub db : Db
  pub restart_scan_done : Bool
  pub backoff_multiplier : ℕ
  pub recorder : Option RecordWriter

-- what the provider answers to a poll
pub data Slate : Type 0 where
  slate : List NormalizedMatch → Slate
  slate_unavailable slate_shape_drift : Slate

-- _register_backfill_apply_failure, for a match whose backfill fetch succeeded in this poll
abbrev pub register_if_pending : List String → NormalizedMatch → Engine → Engine
register_if_pending pending match e =
    if listed match.match_id pending
    then record e { tracking = (register_backfill_apply_failure match e.tracking).1 }
    else e

-- the errors that poll_once catches
abbrev pub is_caught : Error → Bool
is_caught sequence_error = true
is_caught taxonomy_error = true
is_caught unseeded_match_error = true
is_caught cross_partition_error = true
is_caught value_error = false
is_caught type_error = false
is_caught interface_error = false

-- the database and the memory after _apply
abbrev pub settled : Applied → Engine → Engine
settled (r, (db, memory)) e = record e { db = db; tracking = record e.tracking { memory = memory } }

-- what poll_once makes of the result of _apply
abbrev pub conclude :
    List String
    → List String
    → NormalizedMatch
    → Result (Option NormalizedMatch)
    → Engine
    → Result (Unit {0}) × Engine
conclude pending resumptions match (err x) e =
    if is_caught x then (ok tt, register_if_pending pending match e) else (err x, e)
conclude pending resumptions match (ok none) e = (ok tt, register_if_pending pending match e)
conclude pending resumptions match (ok (some baseline)) e = (
  ok tt,
  record e {
    last = insert match.match_id baseline e.last;
    tracking = on_durable_snapshot match.match_id baseline resumptions true e.tracking;
  },
)

-- the body of the loop over the diffs
unfoldable pub step_diff :
    Config → List String → List String → MatchDiff → Engine → Result (Unit {0}) × Engine
unfolding on_durable_snapshot apply_diff listed register_backfill_apply_failure has_changes
step_diff config pending resumptions diff e =
    let applied = apply_diff config.pack config.writer diff false e.db e.tracking.memory in
    if has_changes diff
    then conclude pending resumptions diff.match applied.0 (settled applied e)
    else (
      ok tt,
      record e {
        tracking = on_durable_snapshot diff.match.match_id diff.match resumptions false e.tracking;
      },
    )

unfoldable pub apply_diffs :
    Config → List String → List String → List MatchDiff → Engine → Result (Unit {0}) × Engine
unfolding step_diff
apply_diffs config pending resumptions [] e = (ok tt, e)
apply_diffs config pending resumptions (diff ∷ diffs) e =
    let (r, e') = step_diff config pending resumptions diff e in
    elim r [ err x ↦ (err x, e') | ok _ ↦ apply_diffs config pending resumptions diffs e' ]

abbrev pub view : Config → (String → Fetched) → Engine → View
view config fetch e = record {
  source = config.writer.source;
  default_seed = config.default_seed;
  backfill_finished_matches = config.backfill_finished_matches;
  last = e.last;
  db = e.db;
  fetch_match_detail = fetch;
}

-- `_drifted_this_poll.clear()`
abbrev pub clear_drifted : Tracking → Tracking
clear_drifted t = record t { memory = record t.memory { drifted = [] } }

abbrev pub poll_slate : Config → (String → Fetched) → List NormalizedMatch → Engine → Poll
poll_slate config fetch matches e =
    fetch_poll_snapshots (view config fetch e) e.restart_scan_done matches
      (clear_drifted e.tracking)

-- `self._recorder.accumulate(matches)`, if there is a recorder
abbrev pub recorded : List NormalizedMatch → Option RecordWriter → Option RecordWriter
recorded matches none = none
recorded matches (some w) = some (accumulate matches w)

-- how a poll ends: with the slate applied, with an error of the provider, or with another one
pub data Outcome : Type 0 where
  polled provider_error : Outcome
  crashed : Error → Outcome

abbrev pub outcome_of : Result (Unit {0}) → Outcome
outcome_of (ok _) = polled
outcome_of (err x) = crashed x

-- poll_once
unfoldable pub poll_once : Config → (String → Fetched) → Slate → Engine → Outcome × Engine
unfolding fetch_poll_snapshots diff_matches apply_diffs accumulate
poll_once config fetch (slate matches) e =
    let p = poll_slate config fetch matches e in
    let (r, e') =
      apply_diffs config p.apply_pending p.live_resumptions (diff_matches p.hydrated e.last)
        (record e {
          tracking = p.tracking;
          restart_scan_done = true;
          recorder = recorded p.hydrated e.recorder;
        }) in
    (outcome_of r, e')
poll_once config fetch slate_unavailable e =
    (provider_error, record e { tracking = clear_drifted e.tracking })
poll_once config fetch slate_shape_drift e =
    (provider_error, record e { tracking = clear_drifted e.tracking })

-- _MAX_BACKOFF_MULTIPLIER
abbrev pub max_backoff_multiplier : ℕ
max_backoff_multiplier = 8

-- a delay before the next poll: the healthy interval, jittered, or a number of intervals
pub data Delay : Type 0 where
  jittered : Delay
  backoff : ℕ → Delay

-- _next_backoff_delay
unfoldable pub next_backoff_delay : Engine → Delay × Engine
next_backoff_delay e = (
  backoff e.backoff_multiplier,
  record e { backoff_multiplier = min (e.backoff_multiplier * 2) max_backoff_multiplier },
)

-- the delay, or the error that ends the loop
abbrev pub delay_after : Outcome → Engine → Result Delay × Engine
delay_after polled e = (ok jittered, record e { backoff_multiplier = 1 })
delay_after provider_error e = let (d, e') = next_backoff_delay e in (ok d, e')
delay_after (crashed x) e = (err x, e)

-- _poll_and_next_delay
unfoldable pub poll_and_next_delay :
    Config → (String → Fetched) → Slate → Engine → Result Delay × Engine
unfolding poll_once next_backoff_delay
poll_and_next_delay config fetch s e =
    let (outcome, e') = poll_once config fetch s e in delay_after outcome e'
