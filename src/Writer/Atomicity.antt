-- ===== src/Writer/Atomicity.antt =====
-- The methods of PartitionWriter of gamecollect/db/writer.py where they raise.
use gamealerts_collector.Prelude.{String, ◌≡◌, refl, Bool, List, [], ◌∷◌, string_eq}
use gamealerts_collector.Fold.{Unicode}
use gamealerts_collector.Writer.Table.{Db}
use gamealerts_collector.Writer.Action.{Error, err}
use gamealerts_collector.Writer.Action.Atomic.{
  IsAtomic, IsReading, IsAtomic-bind_pure, atomic_rules,
}
use gamealerts_collector.Writer.Rows.{PartitionWriter, Row}
use gamealerts_collector.Writer.Matches.{assert_match_owned, upsert_match, map_provider_match}
use gamealerts_collector.Writer.Events.{append_events, append_event}
use gamealerts_collector.Writer.Entities.{upsert_entity, upsert_entities, upsert_standing}
use gamealerts_collector.Writer.Methods.{
  Call, match, event, events, entity, entities, standing, provider, call,
}

assert_match_owned-IsReading :
    (w : PartitionWriter) (m : String) (b : Bool) → IsReading (assert_match_owned w m b)
unfolding assert_match_owned
assert_match_owned-IsReading w m b = record { at = λ db. refl }

ruleset method_atomic = (atomic_rules, assert_match_owned-IsReading)

upsert_match-IsAtomic :
    (w : PartitionWriter) (now : String) (row : Row) → IsAtomic (upsert_match w now row)
unfolding upsert_match
upsert_match-IsAtomic w now row = search method_atomic depth 12

pub map_provider_match-IsAtomic :
    (w : PartitionWriter) (p id m : String) → IsAtomic (map_provider_match w p id m)
unfolding map_provider_match
map_provider_match-IsAtomic w p id m = search method_atomic depth 12

pub append_events-IsAtomic :
    (w : PartitionWriter) (m : String) (rows : List Row) → IsAtomic (append_events w m rows)
unfolding append_events
append_events-IsAtomic w m [] = search method_atomic
append_events-IsAtomic w m (row ∷ rows) = search method_atomic depth 12

append_event-IsAtomic : (w : PartitionWriter) (row : Row) → IsAtomic (append_event w row)
unfolding append_event
append_event-IsAtomic w row = search (method_atomic, append_events-IsAtomic) depth 12

upsert_entity-IsAtomic :
    (u : Unicode) (w : PartitionWriter) (row : Row) → IsAtomic (upsert_entity u w row)
unfolding upsert_entity
upsert_entity-IsAtomic u w row = search method_atomic

upsert_entities-IsAtomic :
    (u : Unicode) (w : PartitionWriter) (rows : List Row) → IsAtomic (upsert_entities u w rows)
unfolding upsert_entities
upsert_entities-IsAtomic u w rows = search method_atomic

upsert_standing-IsAtomic : (w : PartitionWriter) (row : Row) → IsAtomic (upsert_standing w row)
unfolding upsert_standing
upsert_standing-IsAtomic w row = search method_atomic depth 12

ruleset all_atomic = (
  upsert_match-IsAtomic, append_event-IsAtomic, append_events-IsAtomic, upsert_entity-IsAtomic,
  upsert_entities-IsAtomic, upsert_standing-IsAtomic, map_provider_match-IsAtomic,
  IsAtomic-bind_pure,
)

pub call-IsAtomic : (u : Unicode) (w : PartitionWriter) (c : Call) → IsAtomic (call u w c)
unfolding call
call-IsAtomic u w (match now row) = search all_atomic
call-IsAtomic u w (event row) = search all_atomic
call-IsAtomic u w (events m rows) = search all_atomic
call-IsAtomic u w (entity row) = search all_atomic
call-IsAtomic u w (entities rows) = search all_atomic
call-IsAtomic u w (standing row) = search all_atomic
call-IsAtomic u w (provider p id m) = search all_atomic

-- If a call of any PartitionWriter method raises, the database is the one before the call:
-- no part of a batch stays written.
pub call_unchanged :
    (u : Unicode) (w : PartitionWriter) (c : Call) (db : Db) (e : Error)
    → (call u w c db).0 ≡ err e
    → (call u w c db).1 ≡ db
call_unchanged u w c db e h = (call-IsAtomic u w c).at db e h
