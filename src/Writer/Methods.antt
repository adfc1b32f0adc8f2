-- ===== src/Writer/Methods.antt =====
-- One call of a method of PartitionWriter, and a schedule of calls by several writers.
use gamealerts_collector.Prelude.{ℕ, String, List, [], ◌∷◌}
use gamealerts_collector.Fold.{Unicode}
use gamealerts_collector.Writer.Table.{Db}
use gamealerts_collector.Writer.Action.{Action, ◌>>◌, pure}
use gamealerts_collector.Writer.Rows.{PartitionWriter, Row}
use gamealerts_collector.Writer.Matches.{upsert_match, map_provider_match}
use gamealerts_collector.Writer.Events.{append_event, append_events}
use gamealerts_collector.Writer.Entities.{upsert_entity, upsert_entities, upsert_standing}

pub data Call : Type 0 where
  match : String → Row → Call
  event : Row → Call
  events : String → List Row → Call
  entity : Row → Call
  entities : List Row → Call
  standing : Row → Call
  provider : String → String → String → Call

unfoldable pub call : Unicode → PartitionWriter → Call → Action ℕ
call u w (match now row) = upsert_match w now row >> pure 0
call u w (event row) = append_event w row
call u w (events match_id rows) = append_events w match_id rows
call u w (entity row) = upsert_entity u w row >> pure 0
call u w (entities rows) = upsert_entities u w rows >> pure 0
call u w (standing row) = upsert_standing w row >> pure 0
call u w (provider p id match_id) = map_provider_match w p id match_id >> pure 0

-- Calls that end in an error leave their caller to go on.
unfoldable pub run_calls : Unicode → List (PartitionWriter × Call) → Db → Db
unfolding call
run_calls u [] db = db
run_calls u ((w, c) ∷ calls) db = run_calls u calls (call u w c db).1
