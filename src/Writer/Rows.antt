-- ===== src/Writer/Rows.antt =====
-- PartitionWriter of gamecollect/db/writer.py, and how it reads the mapping that a caller hands it.
use gamealerts_collector.Prelude.{
  String, Bool, true, false, not, ◌&&◌, ◌||◌, List, [], ◌∷◌, ◌++◌, Option, none, some, ◌==◌,
  string_eq, option_eq, if◌then◌else◌,
}
use gamealerts_collector.Dict.{Dict, get}
use gamealerts_collector.Json.{Value, null, str, array, object, value_eq, sort_value}
use gamealerts_collector.Writer.Action.{
  value_error, cross_partition_error, Result, ok, err, raise_if,
}

pub record PartitionWriter : Type 0 where
  pub source : String
  pub taxonomy : Option (List String)

-- the constructor
unfoldable pub new_writer : String → Option (List String) → Result PartitionWriter
new_writer source taxonomy =
    if source == "" then err value_error else ok (record { source = source; taxonomy = taxonomy })

abbrev pub Row : Type 0
Row = Dict Value

abbrev pub match_columns : List String
match_columns =
    "kickoff_utc" ∷ "home_entity" ∷ "away_entity" ∷ "status" ∷ "minute" ∷ "period" ∷ "score_home"
    ∷ "score_away" ∷ "display_clock" ∷ "payload" ∷ "updated_at" ∷ []

abbrev pub event_columns : List String
event_columns =
    "minute" ∷ "period" ∷ "importance" ∷ "actor_entity" ∷ "target_entity" ∷ "detail" ∷ "payload"
    ∷ []

abbrev pub entity_columns : List String
entity_columns = "kind" ∷ "display_name" ∷ "name_folded" ∷ "parent_entity" ∷ "payload" ∷ []

abbrev pub standing_columns : List String
standing_columns = "points" ∷ "rank" ∷ "payload" ∷ []

abbrev pub match_keys : List String
match_keys = "match_id" ∷ "source" ∷ []

abbrev pub event_keys : List String
event_keys = "source" ∷ "match_id" ∷ "seq" ∷ "type" ∷ []

abbrev pub entity_keys : List String
entity_keys = "source" ∷ "entity_id" ∷ []

abbrev pub standing_keys : List String
standing_keys = "source" ∷ "group_key" ∷ "entity_id" ∷ []

-- `row.get(key)`, where a missing key gives None
abbrev pub get_value : String → Row → Value
get_value key row = elim (get key row) [ none ↦ null | some v ↦ v ]

-- _check_source
unfoldable pub check_source : PartitionWriter → Row → Result (Unit {0})
check_source w row =
    let declared = get_value "source" row in
    raise_if (not (declared == null) && not (declared == str w.source)) cross_partition_error

-- _require
unfoldable pub require : Row → String → Result Value
require row key =
    let value = get_value key row in if value == null then err value_error else ok value

-- a dict or a list becomes the text of json.dumps(…, sort_keys=True)
unfoldable pub encode_payload : Value → Value
encode_payload value = sort_value value

-- `key in names`
unfoldable pub one_of : List String → String → Bool
one_of [] key = false
one_of (n ∷ names) key = n == key || one_of names key

-- `set(row) - set(allowed) - key_columns` is empty
unfoldable pub all_known : List String → Row → Bool
unfolding one_of
all_known names [] = true
all_known names ((key, value) ∷ row) = one_of names key && all_known names row

-- `{col: row[col] for col in allowed if col in row}`, the payload encoded
unfoldable pub picked : List String → Row → Row
unfolding encode_payload
picked [] row = []
picked (col ∷ allowed) row =
    let rest = picked allowed row in
    elim (get col row) [
      | none ↦ rest
      | some v ↦ (col, if col == "payload" then encode_payload v else v) ∷ rest
    ]

-- _pick
unfoldable pub pick : Row → List String → List String → Result Row
unfolding all_known picked
pick row allowed key_columns =
    if all_known (allowed ++ key_columns) row then ok (picked allowed row) else err value_error

-- sqlite3 binds no dict and no list; an encoded payload is a text
abbrev pub bindable : Value → Bool
bindable (array xs) = false
bindable (object fs) = false
bindable _ = true

unfoldable pub all_bindable : Row → Bool
all_bindable [] = true
all_bindable ((col, v) ∷ row) = (col == "payload" || bindable v) && all_bindable row
