-- ===== src/Backfill.antt =====
-- gamecollect/backfill.py, and stored_source_and_has_events of gamecollect/engine.py. A date is its
-- day number, and a chunk is the day that it names. The provider is a parameter. The pauses, and
-- an error of the database while the skip check reads, are left out.
pub mod Chunks
pub mod Skip
pub mod Runs
pub mod Report
pub mod Sound
mod Tests
use gamealerts_collector.Prelude.{
  ℕ, zero, suc, ◌+◌, ◌-◌, String, Bool, true, false, ◌&&◌, ◌||◌, List, [], ◌∷◌, ◌++◌, Option, none,
  some, ltb, leb, if◌then◌else◌, filter, ◌==◌, string_eq, option_eq,
}
use gamealerts_collector.Dict.{Dict, insert, remove}
use gamealerts_collector.Provider.{NormalizedMatch}
use gamealerts_collector.FallbackMerge.{is_terminal}
use gamealerts_collector.Writer.Table.{EventRow, Db, owner}
use gamealerts_collector.Writer.Action.{
  Error, cross_partition_error, value_error, type_error, interface_error, unseeded_match_error,
  taxonomy_error, sequence_error, Result, ok, err,
}
use gamealerts_collector.Writer.Rows.{PartitionWriter}
use gamealerts_collector.Engine.Reconcile.{Memory}
use gamealerts_collector.Engine.Tracking.{listed}
use gamealerts_collector.Engine.Stored.{Candidate, stored_row}
use gamealerts_collector.Engine.Apply.{Pack, apply_one_off_match}

-- `while day <= last_day: yield day; day += 1`, with a bound on its rounds
unfoldable pub walk : ℕ → ℕ → ℕ → List ℕ
walk zero day last_day = []
walk (suc fuel) day last_day =
    let rest = walk fuel (day + 1) last_day in if leb day last_day then day ∷ rest else []

-- chunk_date_range
unfoldable pub chunk_date_range : ℕ → ℕ → ℕ → List ℕ
unfolding walk
chunk_date_range start end overlap_days =
    if ltb end start
    then []
    else walk (suc (end + overlap_days)) (start - overlap_days) (end + overlap_days)

-- what fetch_schedule gives for a day
pub data Schedule : Type 0 where
  schedule : List NormalizedMatch → Schedule
  schedule_unsupported schedule_failed : Schedule

pub record HistoryProvider : Type 0 where
  pub fetch_schedule : ℕ → Schedule
  pub fetch_match_detail : String → Option NormalizedMatch

-- why a match is in `failed`
pub data Failure : Type 0 where
  fetch_failed not_written : Failure
  apply_failed : Error → Failure

-- the counts and sets of a run, and what it writes to
pub record Run : Type 0 where
  pub db : Db
  pub memory : Memory
  pub enumerated : ℕ
  pub already_stored_skipped : ℕ
  pub applied : ℕ
  pub applied_ids : List String
  pub failed : Dict Failure
  pub failed_chunks : List ℕ

-- what a run works with
pub record Job : Type 0 where
  pub pack : Pack
  pub writer : PartitionWriter
  pub default_seed : Bool
  pub provider : HistoryProvider

-- how a run ends early
pub data Abort : Type 0 where
  source_mismatch missing_schedule_support cross_partition : Abort

-- _resolve_stored_match_id
unfoldable pub resolve_stored_match_id : Job → Db → String → Option String
resolve_stored_match_id job db id = elim (stored_row job.default_seed job.writer.source db id) [
  | none ↦ none
  | some c ↦ some c.match_id
]

-- reader.has_any_event
unfoldable pub has_any_event : String → List EventRow → Bool
has_any_event id [] = false
has_any_event id (e ∷ es) = e.match_id == id || has_any_event id es

-- stored_source
unfoldable pub stored_source : Job → Db → String → Option String
unfolding resolve_stored_match_id owner
stored_source job db id = elim (resolve_stored_match_id job db id) [
  | none ↦ none
  | some resolved ↦ owner db resolved
]

-- has_events
unfoldable pub has_events : Job → Db → String → Bool
unfolding resolve_stored_match_id has_any_event
has_events job db id = elim (resolve_stored_match_id job db id) [
  | none ↦ false
  | some resolved ↦ has_any_event resolved db.events
]

-- stored_source_and_has_events
unfoldable pub stored_source_and_has_events : Job → Db → String → Option String × Bool
unfolding resolve_stored_match_id has_any_event owner
stored_source_and_has_events job db id = elim (resolve_stored_match_id job db id) [
  | none ↦ (none, false)
  | some resolved ↦ (owner db resolved, has_any_event resolved db.events)
]

-- the match was applied in this run, or its row and its events are stored
unfoldable pub is_stored : Job → Run → String → Bool
unfolding listed stored_source_and_has_events
is_stored job run id =
    let (source, has_events) = stored_source_and_has_events job run.db id in
    listed id run.applied_ids || (source == some job.writer.source && has_events)

abbrev pub fail : String → Failure → Run → Run
fail id why run = record run { failed = insert id why run.failed }

abbrev pub succeed : String → Run → Run
succeed id run = record run {
  failed = remove id run.failed;
  applied_ids = id ∷ run.applied_ids;
  applied = suc run.applied;
}

-- `except CrossPartitionError: raise`, and the other errors
abbrev pub after_error : String → Error → Run → Option Abort × Run
after_error id cross_partition_error run = (some cross_partition, run)
after_error id e run = (none, fail id (apply_failed e) run)

-- what becomes of the result of apply_one_off_match
abbrev pub after_apply : String → Result (Option NormalizedMatch) → Run → Option Abort × Run
after_apply id (err e) run = after_error id e run
after_apply id (ok none) run = (none, fail id not_written run)
after_apply id (ok (some baseline)) run = (none, succeed id run)

unfoldable pub apply_detail : Job → NormalizedMatch → NormalizedMatch → Run → Option Abort × Run
apply_detail job match detail run =
    let (r, (db, memory)) =
      apply_one_off_match job.pack job.writer match detail run.db run.memory in
    after_apply match.match_id r (record run { db = db; memory = memory })

-- the body of the loop over the matches of a chunk
unfoldable pub step_match : Job → NormalizedMatch → Run → Option Abort × Run
unfolding is_stored apply_detail
step_match job match run =
    let counted = record run { enumerated = suc run.enumerated } in
    if is_stored job run match.match_id
    then (none, record counted { already_stored_skipped = suc counted.already_stored_skipped })
    else elim (job.provider.fetch_match_detail match.match_id) [
      | none ↦ (none, fail match.match_id fetch_failed counted)
      | some detail ↦ apply_detail job match detail counted
    ]

unfoldable pub run_matches : Job → List NormalizedMatch → Run → Option Abort × Run
unfolding step_match
run_matches job [] run = (none, run)
run_matches job (match ∷ matches) run =
    let (abort, next) = step_match job match run in
    elim abort [ some a ↦ (some a, next) | none ↦ run_matches job matches next ]

-- _fetch_terminal_matches
abbrev pub terminal_matches : List NormalizedMatch → List NormalizedMatch
terminal_matches matches = filter (λ (m : NormalizedMatch). is_terminal m.status) matches

-- the body of the loop over the chunks
unfoldable pub step_chunk : Job → ℕ → Run → Option Abort × Run
unfolding run_matches
step_chunk job chunk run = elim (job.provider.fetch_schedule chunk) [
  | schedule matches ↦ run_matches job (terminal_matches matches) run
  | schedule_unsupported ↦ (some missing_schedule_support, run)
  | schedule_failed ↦ (none, record run { failed_chunks = run.failed_chunks ++ chunk ∷ [] })
]

unfoldable pub run_chunks : Job → List ℕ → Run → Option Abort × Run
unfolding step_chunk
run_chunks job [] run = (none, run)
run_chunks job (chunk ∷ chunks) run =
    let (abort, next) = step_chunk job chunk run in
    elim abort [ some a ↦ (some a, next) | none ↦ run_chunks job chunks next ]

abbrev pub start_run : Db → Memory → Run
start_run db memory = record {
  db = db;
  memory = memory;
  enumerated = 0;
  already_stored_skipped = 0;
  applied = 0;
  applied_ids = [];
  failed = [];
  failed_chunks = [];
}

-- run_backfill
unfoldable pub run_backfill : Job → String → List ℕ → Db → Memory → Option Abort × Run
unfolding run_chunks
run_backfill job source chunks db memory =
    if source == job.writer.source
    then run_chunks job chunks (start_run db memory)
    else (some source_mismatch, start_run db memory)
