-- ===== src/Writer/Partition.antt =====
-- The methods of PartitionWriter of gamecollect/db/writer.py and the rows of other sources.
pub mod Others
pub mod Schedule
use gamealerts_collector.Prelude.{
  ℕ, String, ◌≡◌, refl, sym, ◌∙◌, Bool, true, false, not, ◌&&◌, List, [], ◌∷◌, ◌++◌, Option, none,
  some, arith, filter, ◌==◌, ==_iff, string_eq, nat_eq, if◌then◌else◌, Bool-cases, Option-cases,
  inl, inr,
}
use gamealerts_collector.Dict.{Dict, get, insert}
use gamealerts_collector.Json.{Value, value_eq}
use gamealerts_collector.Fold.{Unicode}
use gamealerts_collector.Writer.Table.{
  MatchRow, EventRow, EntityRow, StandingRow, ProviderRow, Db, owner, find_event,
}
use gamealerts_collector.Writer.Action.{
  Result, sequence_error, interface_error, ok, err, Action, ◌>>=◌, pure, lift, gets, modify,
  transaction,
}
use gamealerts_collector.Writer.Action.Keeps.{
  Keeps, Keeps-bind, Keeps-transaction, Keeps-if, Keeps-lift, Keeps-pure, keeps_rules,
}
use gamealerts_collector.Writer.Rows.{PartitionWriter, Row, bindable, all_bindable}
use gamealerts_collector.Writer.Matches.{
  assert_match_owned, execute_match_upsert, upsert_match, put_provider, map_provider_match,
  update_columns,
}
use gamealerts_collector.Writer.Events.{
  Checked, insert_or_ignore, store_event, append_checked, append_all, append_events, append_event,
  new_row, at_or_below, matches_stored, check_event, check_events,
}
use gamealerts_collector.Writer.Entities.{
  put_entity, put_standing, execute_entity_upsert, upsert_entity, execute_entity_upserts,
  upsert_entities, execute_standing_upsert, upsert_standing,
}
use gamealerts_collector.Writer.Methods.{
  Call, match, event, events, entity, entities, standing, provider, call, run_calls,
}
use gamealerts_collector.Writer.Partition.Others.{
  others, filter-snoc, filter-put_provider, filter-put_entity, filter-put_standing, filter-insert,
  insert_or_ignore-Keeps, execute_match_upsert-Keeps,
}

assert_match_owned-Keeps :
    {X : Type 0} {view : Db → X} (w : PartitionWriter) (k : String) (b : Bool)
    → Keeps view (assert_match_owned w k b)
unfolding assert_match_owned
assert_match_owned-Keeps w k b = record { at = λ db. refl }

ruleset partition_rules = (keeps_rules, assert_match_owned-Keeps, execute_match_upsert-Keeps)

upsert_match-Keeps :
    (w : PartitionWriter) (now : String) (row : Row)
    → Keeps (others w.source) (upsert_match w now row)
unfolding upsert_match
upsert_match-Keeps w now row = search partition_rules depth 12

put_provider-Keeps :
    (r : ProviderRow)
    → Keeps
        (others r.source)
        (modify (λ db. record db { provider_match_map = put_provider r db.provider_match_map }))
unfolding modify others
put_provider-Keeps r = record {
  at = λ db. ground (arith, filter-put_provider r.source r db.provider_match_map refl);
}

put_entity-Keeps :
    (s : String) (id : Value) (provided : Row)
    → Keeps
        (others s)
        (modify (λ db. record db { entities = put_entity s id provided db.entities }))
unfolding modify others
put_entity-Keeps s id provided = record {
  at = λ db. ground (arith, filter-put_entity s id provided db.entities);
}

put_standing-Keeps :
    (s : String) (g id : Value) (provided : Row)
    → Keeps
        (others s)
        (modify (λ db. record db { standings = put_standing s g id provided db.standings }))
unfolding modify others
put_standing-Keeps s g id provided = record {
  at = λ db. ground (arith, filter-put_standing s g id provided db.standings);
}

insert_new-Keeps :
    (w : PartitionWriter) (match_id : String) (c : Checked) (extras : Row)
    → Keeps (others w.source) (insert_or_ignore (new_row w match_id c extras))
insert_new-Keeps w match_id c extras = insert_or_ignore-Keeps (new_row w match_id c extras)

store_event-Keeps :
    (w : PartitionWriter) (match_id : String) (highest : Option ℕ) (c : Checked) (extras : Row)
    (o : Option EventRow)
    → Keeps (others w.source) (store_event w match_id highest c extras o)
unfolding store_event
store_event-Keeps w match_id highest c extras none =
    Keeps-if (at_or_below c.seq highest) (lift (err sequence_error)) _
      (Keeps-lift (err sequence_error))
      (Keeps-if (not (bindable c.type && all_bindable extras)) (lift (err interface_error)) _
        (Keeps-lift (err interface_error)) (insert_new-Keeps w match_id c extras))
store_event-Keeps w match_id highest c extras (some stored) = search keeps_rules

append_checked-Keeps :
    (w : PartitionWriter) (match_id : String) (before : List EventRow) (c : Checked)
    → Keeps (others w.source) (append_checked w match_id before c)
unfolding append_checked
append_checked-Keeps w match_id before c = search (keeps_rules, store_event-Keeps)

append_all-Keeps :
    (w : PartitionWriter) (match_id : String) (before : List EventRow) (cs : List Checked)
    → Keeps (others w.source) (append_all w match_id before cs)
unfolding append_all
append_all-Keeps w match_id before [] = search keeps_rules
append_all-Keeps w match_id before (c ∷ cs) =
    Keeps-bind _ _ (append_checked-Keeps w match_id before c)
      (λ _. Keeps-bind _ _ (append_all-Keeps w match_id before cs) (λ _. Keeps-pure _))

append_events-Keeps :
    (w : PartitionWriter) (match_id : String) (rows : List Row)
    → Keeps (others w.source) (append_events w match_id rows)
unfolding append_events
append_events-Keeps w match_id [] = search keeps_rules
append_events-Keeps w match_id (row ∷ rows) =
    search (keeps_rules, assert_match_owned-Keeps, append_all-Keeps) depth 12

append_event-Keeps :
    (w : PartitionWriter) (row : Row) → Keeps (others w.source) (append_event w row)
unfolding append_event
append_event-Keeps w row = search (keeps_rules, append_events-Keeps) depth 12

map_provider_match-Keeps :
    (w : PartitionWriter) (p id match_id : String)
    → Keeps (others w.source) (map_provider_match w p id match_id)
unfolding map_provider_match
map_provider_match-Keeps w p id match_id =
    Keeps-bind _ _ (assert_match_owned-Keeps w match_id true) (λ _. Keeps-transaction _ (
      put_provider-Keeps
        (record { source = w.source; provider = p; provider_match_id = id; match_id = match_id })))

execute_entity_upsert-Keeps :
    (u : Unicode) (w : PartitionWriter) (row : Row)
    → Keeps (others w.source) (execute_entity_upsert u w row)
unfolding execute_entity_upsert
execute_entity_upsert-Keeps u w row = search (keeps_rules, put_entity-Keeps w.source) depth 14

execute_entity_upserts-Keeps :
    (u : Unicode) (w : PartitionWriter) (rows : List Row)
    → Keeps (others w.source) (execute_entity_upserts u w rows)
unfolding execute_entity_upserts
execute_entity_upserts-Keeps u w [] = search keeps_rules
execute_entity_upserts-Keeps u w (row ∷ rows) =
    Keeps-bind _ _ (execute_entity_upsert-Keeps u w row)
      (λ _. execute_entity_upserts-Keeps u w rows)

upsert_standing-Keeps :
    (w : PartitionWriter) (row : Row) → Keeps (others w.source) (upsert_standing w row)
unfolding upsert_standing
upsert_standing-Keeps w row = search (keeps_rules, put_standing-Keeps w.source) depth 14

ruleset method_rules = (
  keeps_rules, upsert_match-Keeps, append_event-Keeps, append_events-Keeps,
  execute_entity_upsert-Keeps, execute_entity_upserts-Keeps, upsert_standing-Keeps,
  map_provider_match-Keeps,
)

pub call-Keeps :
    (u : Unicode) (w : PartitionWriter) (c : Call) → Keeps (others w.source) (call u w c)
unfolding call upsert_entity upsert_entities
call-Keeps u w (match now row) = search method_rules
call-Keeps u w (event row) = search method_rules
call-Keeps u w (events match_id rows) = search method_rules
call-Keeps u w (entity row) = search method_rules
call-Keeps u w (entities rows) = search method_rules
call-Keeps u w (standing row) = search method_rules
call-Keeps u w (provider p id match_id) = search method_rules
