-- ===== src/Engine/Rows.antt =====
-- _participant_key, _event_to_row and _stored_events of gamecollect/engine.py. A stored column
-- of another type than the field it is read into is read as None. A stored payload is the JSON
-- value of its text; one whose JSON is itself a text is read as having no keys, where the code
-- decodes that text once more.
pub mod Columns
pub mod RoundTrip
use gamealerts_collector.Prelude.{
  ℕ, String, Bool, true, false, ◌&&◌, List, [], ◌∷◌, ◌++◌, map, Option, none, some, filter,
  non_empty, if◌then◌else◌, ◌==◌, string_eq,
}
use gamealerts_collector.Dict.{get}
use gamealerts_collector.Json.{
  Value, null, int, str, object, Fields, end, field, Payload, fields_of,
}
use gamealerts_collector.Provider.{NormalizedEvent}
use gamealerts_collector.FallbackMerge.{or_else}
use gamealerts_collector.Diffing.{sort_by_seq}
use gamealerts_collector.Writer.Table.{EventRow, Db, in_partition}
use gamealerts_collector.Writer.Rows.{PartitionWriter, Row, get_value, one_of, event_columns}

unfoldable pub goal_family : String → Bool
unfolding one_of
goal_family event_type = one_of ("goal" ∷ "own_goal" ∷ []) event_type

unfoldable pub participant_key : String → String
unfolding goal_family
participant_key event_type = if goal_family event_type then "scorer" else "player"

abbrev pub opt_int : Option ℕ → Value
opt_int none = null
opt_int (some n) = int n

abbrev pub opt_str : Option String → Value
opt_str none = null
opt_str (some s) = str s

-- `{key: value … if value is not None}`
unfoldable pub present : List (String × Option String) → Payload
present [] = []
present ((key, none) ∷ rest) = present rest
present ((key, some value) ∷ rest) = (key, str value) ∷ present rest

unfoldable pub event_payload : NormalizedEvent → Payload
unfolding participant_key present
event_payload event = present (
    ("team", event.team)
    ∷ (participant_key event.event_type, event.player)
    ∷ ("assist", event.assist)
    ∷ [])

-- `if payload: row["payload"] = payload`
abbrev pub payload_entry : Payload → Row
payload_entry payload =
    if non_empty payload then ("payload", object (fields_of payload)) ∷ [] else []

unfoldable pub event_to_row : NormalizedEvent → Row
unfolding event_payload
event_to_row event =
    ("seq", int event.seq)
    ∷ ("type", str event.event_type)
    ∷ ("minute", opt_int event.minute)
    ∷ ("importance", int event.importance)
    ∷ ("detail", opt_str event.detail)
    ∷ payload_entry (event_payload event)

abbrev pub as_int : Value → Option ℕ
as_int (int n) = some n
as_int _ = none

abbrev pub as_str : Value → Option String
as_str (str s) = some s
as_str _ = none

abbrev fields_entries : Fields → Payload
fields_entries end = []
fields_entries (field k v fs) = (k, v) ∷ fields_entries fs

-- `json.loads(payload) if payload else {}`
abbrev pub entries : Value → Payload
entries (object fs) = fields_entries fs
entries _ = []

-- a column of a stored row, by its name
abbrev column : String → List String → List Value → Value
column name [] values = null
column name (n ∷ names) [] = null
column name (n ∷ names) (v ∷ values) = if n == name then v else column name names values

abbrev pub column_of : String → EventRow → Value
column_of name row = column name event_columns row.columns

abbrev or_zero : Option ℕ → ℕ
or_zero none = 0
or_zero (some n) = n

abbrev or_empty : Option String → String
or_empty none = ""
or_empty (some s) = s

-- `if player is None and event_type in _GOAL_FAMILY_EVENT_TYPES: player = extras.get("player")`
abbrev pub read_player : Bool → Payload → Option String
read_player false extras = as_str (get_value "player" extras)
read_player true extras =
    or_else (as_str (get_value "scorer" extras)) (as_str (get_value "player" extras))

-- the body of the loop of _stored_events
unfoldable pub read_event : EventRow → NormalizedEvent
unfolding goal_family
read_event row =
    let event_type = or_empty (as_str row.type) in
    let extras = entries (column_of "payload" row) in
    record {
      seq = row.seq;
      minute = as_int (column_of "minute" row);
      event_type = event_type;
      importance = or_zero (as_int (column_of "importance" row));
      team = as_str (get_value "team" extras);
      player = read_player (goal_family event_type) extras;
      assist = as_str (get_value "assist" extras);
      detail = as_str (column_of "detail" row);
    }

-- _stored_events; the rows are read and then put in the order of their seqs
unfoldable pub stored_events : PartitionWriter → String → Db → List NormalizedEvent
unfolding read_event
stored_events w match_id db =
    sort_by_seq (map read_event (filter (in_partition w.source match_id) db.events))
