-- ===== src/Writer/Valid/Calls.antt =====
-- The invariant under each method of gamecollect/db/writer.py and under schedules of them.
use gamealerts_collector.Prelude.{String, List, [], ◌∷◌, string_eq}
use gamealerts_collector.Fold.{Unicode}
use gamealerts_collector.Writer.Table.{Db}
use gamealerts_collector.Writer.Action.Preserves.{Preserves, Preserves-bind, preserves_rules}
use gamealerts_collector.Writer.Rows.{PartitionWriter, Row}
use gamealerts_collector.Writer.Matches.{upsert_match}
use gamealerts_collector.Writer.Events.{append_event}
use gamealerts_collector.Writer.Entities.{
  execute_entity_upsert, upsert_entity, execute_entity_upserts, upsert_entities, upsert_standing,
}
use gamealerts_collector.Writer.Methods.{
  Call, match, event, events, entity, entities, standing, provider, call, run_calls,
}
use gamealerts_collector.Writer.Valid.{
  IsValid, execute_match_upsert-IsValid, assert_match_owned-IsValid, put_entity-IsValid,
  put_standing-IsValid,
}
use gamealerts_collector.Writer.Valid.Appends.{append_events-IsValid, map_provider_match-IsValid}

ruleset valid_rules = (preserves_rules, assert_match_owned-IsValid, execute_match_upsert-IsValid)

pub upsert_match-IsValid :
    (w : PartitionWriter) (now : String) (row : Row) → Preserves IsValid (upsert_match w now row)
unfolding upsert_match
upsert_match-IsValid w now row = search valid_rules depth 12

append_event-IsValid : (w : PartitionWriter) (row : Row) → Preserves IsValid (append_event w row)
unfolding append_event
append_event-IsValid w row = search (preserves_rules, append_events-IsValid) depth 12

execute_entity_upsert-IsValid :
    (u : Unicode) (w : PartitionWriter) (row : Row)
    → Preserves IsValid (execute_entity_upsert u w row)
unfolding execute_entity_upsert
execute_entity_upsert-IsValid u w row =
    search (preserves_rules, put_entity-IsValid w.source) depth 14

execute_entity_upserts-IsValid :
    (u : Unicode) (w : PartitionWriter) (rows : List Row)
    → Preserves IsValid (execute_entity_upserts u w rows)
unfolding execute_entity_upserts
execute_entity_upserts-IsValid u w [] = search preserves_rules
execute_entity_upserts-IsValid u w (row ∷ rows) =
    Preserves-bind _ _ (execute_entity_upsert-IsValid u w row)
      (λ _. execute_entity_upserts-IsValid u w rows)

upsert_standing-IsValid :
    (w : PartitionWriter) (row : Row) → Preserves IsValid (upsert_standing w row)
unfolding upsert_standing
upsert_standing-IsValid w row = search (preserves_rules, put_standing-IsValid w.source) depth 14

ruleset method_rules = (
  preserves_rules, upsert_match-IsValid, append_event-IsValid, append_events-IsValid,
  execute_entity_upsert-IsValid, execute_entity_upserts-IsValid, upsert_standing-IsValid,
  map_provider_match-IsValid,
)

call-IsValid : (u : Unicode) (w : PartitionWriter) (c : Call) → Preserves IsValid (call u w c)
unfolding call upsert_entity upsert_entities
call-IsValid u w (match now row) = search method_rules
call-IsValid u w (event row) = search method_rules
call-IsValid u w (events m rows) = search method_rules
call-IsValid u w (entity row) = search method_rules
call-IsValid u w (entities rows) = search method_rules
call-IsValid u w (standing row) = search method_rules
call-IsValid u w (provider p id m) = search method_rules

-- Any schedule of calls of PartitionWriter methods, by any number of writers of any sources
-- and with refused calls among them, keeps the database valid: within each (source, match)
-- partition the seqs of the events grow from row to row, and every event and every provider
-- mapping belongs to a match that its own source has seeded.
pub run_calls-IsValid :
    (u : Unicode) (calls : List (PartitionWriter × Call)) (db : Db)
    → IsValid db
    → IsValid (run_calls u calls db)
unfolding run_calls
run_calls-IsValid u [] db v = v
run_calls-IsValid u ((w, c) ∷ calls) db v =
    run_calls-IsValid u calls (call u w c db).1 ((call-IsValid u w c).at db v)
