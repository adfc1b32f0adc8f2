-- ===== src/Football/Adoption.antt =====
-- _adopt_stub_rows of gamecollect_football/reconcile.py, over the core tables. The side tables of
-- the pack are left out.
pub mod Moved
use gamealerts_collector.Prelude.{
  String, Bool, true, false, ◌&&◌, ◌||◌, not, List, [], ◌∷◌, map, Option, none, some, if◌then◌else◌,
  ◌==◌, string_eq, option_eq,
}
use gamealerts_collector.Dict.{get, insert, remove}
use gamealerts_collector.Json.{object, Payload, fields_of, merge_payload_preserving_richer}
use gamealerts_collector.Writer.Table.{MatchRow, EventRow, ProviderRow, Db, owner, in_partition}
use gamealerts_collector.Writer.Rows.{encode_payload}
use gamealerts_collector.Seed.{get_stored_payload}
use gamealerts_collector.Football.Orientation.{flip_home_away_payload}

-- the match has events
unfoldable pub has_rows : String → String → List EventRow → Bool
has_rows source match_id [] = false
has_rows source match_id (e ∷ es) = in_partition source match_id e || has_rows source match_id es

-- `UPDATE events SET match_id = ? WHERE source = ? AND match_id = ?`
abbrev pub move_event : String → String → String → EventRow → EventRow
move_event source stub canonical e =
    if in_partition source stub e then record e { match_id = canonical } else e

-- the same of provider_match_map
abbrev pub move_mapping : String → String → String → ProviderRow → ProviderRow
move_mapping source stub canonical p =
    if p.source == source && p.match_id == stub then record p { match_id = canonical } else p

-- the stub's payload, and the canonical one merged on top
unfoldable pub adopted_payload : Bool → String → String → Db → Payload
unfolding flip_home_away_payload merge_payload_preserving_richer get_stored_payload
adopted_payload reverse_oriented stub canonical db =
    let kept = get_stored_payload stub db in
    merge_payload_preserving_richer (if reverse_oriented then flip_home_away_payload kept else kept)
      (get_stored_payload canonical db)

-- `UPDATE matches SET payload = ? WHERE source = ? AND match_id = ?`
unfoldable pub put_payload : String → String → Payload → Db → Db
unfolding encode_payload fields_of insert
put_payload source match_id payload db = elim (get match_id db.matches) [
  | none ↦ db
  | some row ↦
      if row.source == source
      then record db {
        matches =
            insert match_id
              (record row {
                columns =
                    insert "payload" (encode_payload (object (fields_of payload))) row.columns;
              })
              db.matches;
      }
      else db
]

-- the transaction
unfoldable pub move_rows : Bool → String → String → String → Db → Db
unfolding adopted_payload put_payload remove
move_rows reverse_oriented source stub canonical db =
    let merged =
      put_payload source canonical (adopted_payload reverse_oriented stub canonical db) db in
    record merged {
      events = map (move_event source stub canonical) db.events;
      provider_match_map = map (move_mapping source stub canonical) db.provider_match_map;
      matches = remove stub merged.matches;
    }

-- _adopt_stub_rows: whether the stub is gone
unfoldable pub adopt_stub_rows : Bool → String → String → String → Db → Bool × Db
unfolding owner has_rows move_rows
adopt_stub_rows reverse_oriented source stub canonical db =
    if not (owner db stub == some source)
    then (true, db)
    else if has_rows source stub db.events && has_rows source canonical db.events
    then (false, db)
    else (true, move_rows reverse_oriented source stub canonical db)
