-- ===== src/Writer/Valid.antt =====
-- An invariant of the database that the methods of gamecollect/db/writer.py share.
pub mod Appends
pub mod Calls
use gamealerts_collector.Prelude.{
  ℕ, ◌<◌, String, ◌≡◌, refl, sym, subst, ◌∙◌, ap, inl, inr, Bool, true, false, not, List, [], ◌∷◌,
  ◌++◌, Option, none, some, arith, All, All-map, All-append, ◌==◌, ==_iff, string_eq, if◌then◌else◌,
  Bool-cases, ◌&&◌,
}
use gamealerts_collector.Dict.{get, insert, get-insert}
use gamealerts_collector.Json.{Value}
use gamealerts_collector.Fold.{Unicode}
use gamealerts_collector.Writer.Table.{MatchRow, EventRow, ProviderRow, Db, empty, owner}
use gamealerts_collector.Writer.Action.{
  Error, Result, ok, err, Action, ◌>>=◌, ◌>>◌, pure, lift, gets, modify, transaction,
}
use gamealerts_collector.Writer.Action.Returns.{Returns, Returns-bind, ok_pair}
use gamealerts_collector.Writer.Action.Preserves.{
  Preserves, Preserves-bind, Preserves-transaction, preserves_rules,
}
use gamealerts_collector.Writer.Action.Atomic.{IsAtomic}
use gamealerts_collector.Writer.Rows.{PartitionWriter, Row}
use gamealerts_collector.Writer.Matches.{
  assert_match_owned, execute_match_upsert, upsert_match, put_provider, map_provider_match,
  update_columns,
}
use gamealerts_collector.Writer.Events.{append_events, append_event, max_seq}
use gamealerts_collector.Writer.Entities.{
  execute_entity_upsert, upsert_entity, execute_entity_upserts, upsert_entities,
  execute_standing_upsert, upsert_standing, put_entity, put_standing,
}
use gamealerts_collector.Writer.Methods.{
  Call, match, event, events, entity, entities, standing, provider, call, run_calls,
}
use gamealerts_collector.Writer.Append.Run.{with_events}
use gamealerts_collector.Writer.Append.Rows.{IsOrdered, IsOwn}
use gamealerts_collector.Writer.Batches.{
  append_events-Accepted, append_events-Extends, append_events-IsOrdered, owner-with_events,
  assert_match_owned-Returns,
}
use gamealerts_collector.Writer.Atomicity.{append_events-IsAtomic}

-- The row's match is seeded, by the row's source.
abbrev pub IsOwned : Db → EventRow → Type 0
IsOwned db e = owner db e.match_id ≡ some e.source

abbrev pub IsMapped : Db → ProviderRow → Type 0
IsMapped db r = owner db r.match_id ≡ some r.source

-- Seqs grow within each partition, and every event and every provider mapping belongs to a match
-- that its own source has seeded.
pub record IsValid (db : Db) : Type 0 where
  pub ordered : IsOrdered db.events
  pub owned : All (IsOwned db) db.events
  pub mapped : All (IsMapped db) db.provider_match_map

pub IsValid-empty : IsValid empty
IsValid-empty = record { ordered = tt; owned = tt; mapped = tt }

owner-execute_match_upsert :
    (w : PartitionWriter) (k j s : String) (provided : Row) (db : Db)
    → owner db j ≡ some s
    → owner (execute_match_upsert w k provided db).1 j ≡ some s
unfolding owner execute_match_upsert
owner-execute_match_upsert w k j s provided db h = by_row (get k db.matches) refl
  where
    by_row :
        (o : Option MatchRow)
        → get k db.matches ≡ o
        → owner (execute_match_upsert w k provided db).1 j ≡ some s
    by_row none e = ground (
      arith,
      ==_iff k j,
      get-insert k j (record { source = w.source; columns = provided }) db.matches,
    )
    by_row (some row) e = ground (
      arith,
      ==_iff k j,
      get-insert k j (record row { columns = update_columns row.columns provided }) db.matches,
    )

events-execute_match_upsert :
    (w : PartitionWriter) (k : String) (provided : Row) (db : Db)
    → let after = (execute_match_upsert w k provided db).1 in
      (after.events ≡ db.events) × (after.provider_match_map ≡ db.provider_match_map)
unfolding execute_match_upsert
events-execute_match_upsert w k provided db = (ground arith, ground arith)

-- A state that keeps the owners, and the events and the mappings that are there.
IsValid-of_owners :
    (db db' : Db)
    → ((j s : String) → owner db j ≡ some s → owner db' j ≡ some s)
    → db'.events ≡ db.events
    → db'.provider_match_map ≡ db.provider_match_map
    → IsValid db
    → IsValid db'
IsValid-of_owners db db' keep es ps v = record {
  ordered = subst IsOrdered (sym es) v.ordered;
  owned =
      subst (All (IsOwned db')) (sym es)
        (All-map (IsOwned db) (IsOwned db') db.events (λ e h. keep e.match_id e.source h) v.owned);
  mapped = subst (All (IsMapped db')) (sym ps) (
      All-map (IsMapped db) (IsMapped db') db.provider_match_map (λ r h. keep r.match_id r.source h)
        v.mapped);
}

pub execute_match_upsert-IsValid :
    (w : PartitionWriter) (k : String) (provided : Row)
    → Preserves IsValid (execute_match_upsert w k provided)
execute_match_upsert-IsValid w k provided = record {
  at = λ db v.
      let (es, ps) = events-execute_match_upsert w k provided db in
      IsValid-of_owners db (execute_match_upsert w k provided db).1
        (λ j s h. owner-execute_match_upsert w k j s provided db h) es ps v;
}

pub assert_match_owned-IsValid :
    (w : PartitionWriter) (m : String) (b : Bool) → Preserves IsValid (assert_match_owned w m b)
unfolding assert_match_owned
assert_match_owned-IsValid w m b = record { at = λ db v. v }

pub put_entity-IsValid :
    (s : String) (id : Value) (provided : Row)
    → Preserves IsValid
        (modify (λ db. record db { entities = put_entity s id provided db.entities }))
unfolding modify
put_entity-IsValid s id provided = record {
  at = λ db v.
      IsValid-of_owners db (record db { entities = put_entity s id provided db.entities })
        (λ j x h. unfold owner in h) refl refl v;
}

pub put_standing-IsValid :
    (s : String) (g id : Value) (provided : Row)
    → Preserves IsValid
        (modify (λ db. record db { standings = put_standing s g id provided db.standings }))
unfolding modify
put_standing-IsValid s g id provided = record {
  at = λ db v.
      IsValid-of_owners db (record db { standings = put_standing s g id provided db.standings })
        (λ j x h. unfold owner in h) refl refl v;
}
