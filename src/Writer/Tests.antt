-- ===== src/Writer/Tests.antt =====
-- Runs of the writer, and its theorems at concrete calls.
use gamealerts_collector.Prelude.{
  ℕ, String, ◌≡◌, ◌≢◌, refl, ==_iff, string_eq, false≢true, List, [], ◌∷◌, none,
}
use gamealerts_collector.Json.{int, str}
use gamealerts_collector.Samples.{plain_text, world_cup, seeded}
use gamealerts_collector.Writer.Table.{Db, empty, owner, find_event}
use gamealerts_collector.Writer.Action.{
  ok, err, sequence_error, cross_partition_error, unseeded_match_error, taxonomy_error, ◌>>=◌,
  transaction,
}
use gamealerts_collector.Writer.Action.Returns.{Returns}
use gamealerts_collector.Writer.Rows.{PartitionWriter, Row, pick, all_bindable}
use gamealerts_collector.Writer.Events.{
  append_events, max_seq, check_events, increasing, append_all, append_checked, store_event,
  matches_stored, insert_or_ignore, Values-discrete,
}
use gamealerts_collector.Writer.Matches.{assert_match_owned, upsert_match}
use gamealerts_collector.Writer.Upserts.{IsUpserted, upsert_match-IsUpserted}
use gamealerts_collector.Writer.Methods.{Call, match, events, provider, call, run_calls}
use gamealerts_collector.Writer.Append.Run.{with_events}
use gamealerts_collector.Writer.Append.Rows.{Extends}
use gamealerts_collector.Writer.Partition.Schedule.{partition, partition-run_calls}
use gamealerts_collector.Writer.Batches.{append_events-Extends, append_events_again}
use gamealerts_collector.Writer.Atomicity.{call_unchanged}
use gamealerts_collector.Writer.Valid.{IsValid, IsValid-empty}
use gamealerts_collector.Writer.Valid.Calls.{run_calls-IsValid}

abbrev league : PartitionWriter
league = record { source = "league"; taxonomy = none }

abbrev goal_row : ℕ → ℕ → Row
goal_row seq minute = ("seq", int seq) ∷ ("type", str "goal") ∷ ("minute", int minute) ∷ []

abbrev card_row : ℕ → Row
card_row seq = ("seq", int seq) ∷ ("type", str "red") ∷ []

abbrev match_row : Row
match_row = ("match_id", str "1") ∷ ("status", str "live") ∷ []

abbrev stored : Db
stored = (append_events world_cup "1" (goal_row 0 12 ∷ goal_row 2 40 ∷ []) seeded).1

-- A batch that is stored; a seq below the largest that is not stored; a stored seq with another
-- fingerprint; an undeclared type; a match of another source; a match that nobody seeded.
outcomes :
    ((append_events world_cup "1" (goal_row 0 12 ∷ goal_row 2 40 ∷ []) seeded).0 ≡ ok 2)
    × ((append_events world_cup "1" (goal_row 1 30 ∷ []) stored).0 ≡ err sequence_error)
    × ((append_events world_cup "1" (goal_row 2 41 ∷ []) stored).0 ≡ err sequence_error)
    × ((append_events world_cup "1" (card_row 3 ∷ []) stored).0 ≡ err taxonomy_error)
    × ((append_events league "1" (card_row 3 ∷ []) stored).0 ≡ err cross_partition_error)
    × ((append_events league "2" (card_row 3 ∷ []) stored).0 ≡ err unseeded_match_error)
unfolding append_events check_events increasing append_all append_checked store_event matches_stored
    find_event max_seq insert_or_ignore assert_match_owned owner pick transaction ◌>>=◌
    Values-discrete all_bindable
outcomes = (refl, refl, refl, refl, refl, refl)

stored-Returns :
    Returns (append_events world_cup "1" (goal_row 0 12 ∷ goal_row 2 40 ∷ [])) seeded 2 stored
unfolding append_events check_events increasing append_all append_checked store_event matches_stored
    find_event max_seq insert_or_ignore assert_match_owned owner pick transaction ◌>>=◌
    Values-discrete all_bindable
stored-Returns = refl

append_events-Extends_example :
    Extends world_cup "1" (max_seq [] "wc" "1") [] 2 stored.events
    × (stored ≡ with_events seeded stored.events)
append_events-Extends_example =
    append_events-Extends world_cup "1" (goal_row 0 12 ∷ goal_row 2 40 ∷ []) 2 seeded stored
      stored-Returns

append_events_again_example :
    Returns (append_events world_cup "1" (goal_row 0 12 ∷ goal_row 2 40 ∷ [])) stored 0 stored
append_events_again_example =
    append_events_again world_cup "1" (goal_row 0 12 ∷ goal_row 2 40 ∷ []) 2 seeded stored
      stored-Returns

refused :
    (call plain_text world_cup (events "1" (goal_row 1 30 ∷ [])) stored).0 ≡ err sequence_error
unfolding call append_events check_events increasing append_all append_checked store_event
    matches_stored find_event max_seq insert_or_ignore assert_match_owned owner pick transaction
    ◌>>=◌ Values-discrete all_bindable
refused = refl

call_unchanged_example :
    (call plain_text world_cup (events "1" (goal_row 1 30 ∷ [])) stored).1 ≡ stored
call_unchanged_example =
    call_unchanged plain_text world_cup (events "1" (goal_row 1 30 ∷ [])) stored sequence_error
      refused

-- Calls of two writers.
abbrev schedule : List (PartitionWriter × Call)
schedule =
    (world_cup, match "now" match_row)
    ∷ (world_cup, events "1" (goal_row 0 12 ∷ []))
    ∷ (league, events "1" (goal_row 1 13 ∷ []))
    ∷ (world_cup, provider "espn" "760440" "1")
    ∷ []

run_calls-IsValid_example : IsValid (run_calls plain_text schedule empty)
run_calls-IsValid_example = run_calls-IsValid plain_text schedule empty IsValid-empty

abbrev foreign_calls : List (PartitionWriter × Call)
foreign_calls = (league, match "now" match_row) ∷ (league, events "1" (goal_row 1 13 ∷ [])) ∷ []

foreign_source : ◌≢◌ {A = String} "wc" "league"
foreign_source = λ p. false≢true ((==_iff "wc" "league").1 p)

partition-run_calls_example :
    partition "wc" (run_calls plain_text foreign_calls stored) ≡ partition "wc" stored
partition-run_calls_example =
    partition-run_calls plain_text "wc" foreign_calls stored (foreign_source, (foreign_source, tt))

-- A later snapshot of a match, in which only its score has changed.
abbrev scored : Row
scored = ("match_id", str "1") ∷ ("score_home", int 1) ∷ []

abbrev played : Db
played = (upsert_match world_cup "2026-06-12T20:00Z" match_row seeded).1

abbrev rescored : Db
rescored = (upsert_match world_cup "2026-06-12T21:00Z" scored played).1

rescored-Returns : Returns (upsert_match world_cup "2026-06-12T21:00Z" scored) played tt rescored
unfolding upsert_match ◌>>=◌ gamealerts_collector.Json.Value-discrete all_bindable
    gamealerts_collector.Dict.insert
rescored-Returns = refl

upsert_match-IsUpserted_example :
    IsUpserted world_cup "2026-06-12T21:00Z" "1" scored played rescored
upsert_match-IsUpserted_example =
    upsert_match-IsUpserted world_cup "2026-06-12T21:00Z" "1" scored played rescored tt refl
      rescored-Returns
