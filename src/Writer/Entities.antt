-- ===== src/Writer/Entities.antt =====
-- The entities and standings methods of PartitionWriter (gamecollect/db/writer.py).
use gamealerts_collector.Prelude.{
  String, Bool, not, ◌&&◌, ◌||◌, List, [], ◌∷◌, ◌==◌, string_eq, if◌then◌else◌, nat_eq,
}
use gamealerts_collector.Dict.{insert}
use gamealerts_collector.Json.{Value, null, bool, int, float, str, value_eq, is_empty_payload_value}
use gamealerts_collector.Fold.{Unicode, fold}
use gamealerts_collector.Writer.Table.{EntityRow, StandingRow}
use gamealerts_collector.Writer.Action.{
  value_error, interface_error, Result, ok, err, Action, ◌>>=◌, ◌>>◌, pure, lift, modify, raise_if,
  transaction,
}
use gamealerts_collector.Writer.Rows.{
  PartitionWriter, Row, get_value, check_source, require, pick, entity_columns, entity_keys,
  standing_columns, standing_keys, bindable, all_bindable,
}
use gamealerts_collector.Writer.Matches.{update_columns, as_text}

-- `not value`
unfoldable pub falsy : Value → Bool
unfolding is_empty_payload_value
falsy (bool b) = not b
falsy (int n) = n == 0
falsy (float s) = s == "0.0"
falsy v = is_empty_payload_value v

-- `ON CONFLICT (source, entity_id) DO UPDATE SET …`
unfoldable pub put_entity : String → Value → Row → List EntityRow → List EntityRow
unfolding update_columns
put_entity source entity_id provided [] =
    record { source = source; entity_id = entity_id; columns = provided } ∷ []
put_entity source entity_id provided (x ∷ xs) =
    if x.source == source && x.entity_id == entity_id
    then record x { columns = update_columns x.columns provided } ∷ xs
    else x ∷ put_entity source entity_id provided xs

-- `ON CONFLICT (source, group_key, entity_id) DO UPDATE SET …`
unfoldable pub put_standing : String → Value → Value → Row → List StandingRow → List StandingRow
unfolding update_columns
put_standing source group_key entity_id provided [] =
    record { source = source; group_key = group_key; entity_id = entity_id; columns = provided }
    ∷ []
put_standing source group_key entity_id provided (x ∷ xs) =
    if x.source == source && (x.group_key == group_key && x.entity_id == entity_id)
    then record x { columns = update_columns x.columns provided } ∷ xs
    else x ∷ put_standing source group_key entity_id provided xs

-- A supplied name_folded must be the fold of display_name, which is stamped.
unfoldable pub stamp_folded : Unicode → Row → Result Row
unfolding fold falsy
stamp_folded u provided =
    let display_name = get_value "display_name" provided in
    let supplied = get_value "name_folded" provided in
    if falsy (get_value "kind" provided) || falsy display_name
    then err value_error
    else elim (as_text display_name) [
      | err e ↦ err e
      | ok name ↦
          let folded = fold u name in
          if not (supplied == null) && not (supplied == str folded)
          then err value_error
          else ok (insert "name_folded" (str folded) provided)
    ]

unfoldable pub execute_entity_upsert : Unicode → PartitionWriter → Row → Action (Unit {0})
unfolding check_source require pick stamp_folded
execute_entity_upsert u w entity = do
  lift (check_source w entity)
  entity_id ← lift (require entity "entity_id")
  provided ← lift (pick entity entity_columns entity_keys)
  provided ← lift (stamp_folded u provided)
  lift (raise_if (not (bindable entity_id && all_bindable provided)) interface_error)
  modify (λ db. record db { entities = put_entity w.source entity_id provided db.entities })

unfoldable pub upsert_entity : Unicode → PartitionWriter → Row → Action (Unit {0})
unfolding transaction execute_entity_upsert
upsert_entity u w entity = transaction (execute_entity_upsert u w entity)

unfoldable pub execute_entity_upserts : Unicode → PartitionWriter → List Row → Action (Unit {0})
unfolding execute_entity_upsert
execute_entity_upserts u w [] = pure tt
execute_entity_upserts u w (entity ∷ entities) = do
  execute_entity_upsert u w entity
  execute_entity_upserts u w entities

unfoldable pub upsert_entities : Unicode → PartitionWriter → List Row → Action (Unit {0})
unfolding transaction execute_entity_upserts
upsert_entities u w entities = transaction (execute_entity_upserts u w entities)

unfoldable pub execute_standing_upsert : PartitionWriter → Value → Value → Row → Action (Unit {0})
execute_standing_upsert w group_key entity_id provided = do
  lift (
      raise_if (not (bindable group_key && (bindable entity_id && all_bindable provided)))
        interface_error)
  modify (λ db. record db {
    standings = put_standing w.source group_key entity_id provided db.standings;
  })

unfoldable pub upsert_standing : PartitionWriter → Row → Action (Unit {0})
unfolding check_source require pick transaction execute_standing_upsert
upsert_standing w standing = do
  lift (check_source w standing)
  group_key ← lift (require standing "group_key")
  entity_id ← lift (require standing "entity_id")
  provided ← lift (pick standing standing_columns standing_keys)
  transaction (execute_standing_upsert w group_key entity_id provided)
