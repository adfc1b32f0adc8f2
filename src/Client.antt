-- ===== src/Client.antt =====
-- gamecollect/client.py: the typed views of the rows that db/reader.py reads. A stored payload is
-- the JSON value of its text, so decoding it is the identity. get_vocabulary, which reads no row,
-- is left out.
pub mod Views
mod Tests
use gamealerts_collector.Prelude.{
  ℕ, String, Bool, true, false, ◌&&◌, not, List, map, Option, none, some, if◌then◌else◌,
}
use gamealerts_collector.Dict.{get, contains, insert, remove}
use gamealerts_collector.Json.{Value, null, object, Payload, fields_of}
use gamealerts_collector.Writer.Table.{MatchRow, EventRow, StandingRow, Db}
use gamealerts_collector.Writer.Rows.{get_value}
use gamealerts_collector.Engine.Rows.{goal_family, as_int, as_str, entries, column_of}
use gamealerts_collector.Reader.{list_matches, get_state, get_events_since, get_standings}

-- `payload["scorer"] = payload.pop("player")`
abbrev pub rename_player : Payload → Payload
rename_player payload = elim (get "player" payload) [
  | none ↦ payload
  | some player ↦ insert "scorer" player (remove "player" payload)
]

-- normalize_legacy_payload, where the payload is a dict
unfoldable pub normalize_fields : String → Payload → Payload
unfolding goal_family contains insert remove
normalize_fields event_type payload =
    if goal_family event_type && (not (contains "scorer" payload) && contains "player" payload)
    then rename_player payload
    else payload

-- normalize_legacy_payload
unfoldable pub normalize_legacy_payload : String → Value → Value
unfolding normalize_fields fields_of
normalize_legacy_payload event_type (object fs) =
    object (fields_of (normalize_fields event_type (entries (object fs))))
normalize_legacy_payload event_type payload = payload

pub record MatchState : Type 0 where
  pub match_id : String
  pub source : String
  pub kickoff_utc : Option String
  pub home_entity : Option String
  pub away_entity : Option String
  pub status : Option String
  pub minute : Option ℕ
  pub period : Option ℕ
  pub score_home : Option ℕ
  pub score_away : Option ℕ
  pub display_clock : Option String
  pub payload : Value
  pub updated_at : Option String

-- MatchState.from_row
unfoldable pub match_from_row : String × MatchRow → MatchState
match_from_row (match_id, row) = record {
  match_id = match_id;
  source = row.source;
  kickoff_utc = as_str (get_value "kickoff_utc" row.columns);
  home_entity = as_str (get_value "home_entity" row.columns);
  away_entity = as_str (get_value "away_entity" row.columns);
  status = as_str (get_value "status" row.columns);
  minute = as_int (get_value "minute" row.columns);
  period = as_int (get_value "period" row.columns);
  score_home = as_int (get_value "score_home" row.columns);
  score_away = as_int (get_value "score_away" row.columns);
  display_clock = as_str (get_value "display_clock" row.columns);
  payload = get_value "payload" row.columns;
  updated_at = as_str (get_value "updated_at" row.columns);
}

pub record Event : Type 0 where
  pub source : String
  pub match_id : String
  pub seq : ℕ
  pub minute : Option ℕ
  pub period : Option ℕ
  pub type : String
  pub importance : Option ℕ
  pub actor_entity : Option String
  pub target_entity : Option String
  pub detail : Option String
  pub payload : Value

abbrev pub type_of : EventRow → String
type_of row = elim (as_str row.type) [ none ↦ "" | some s ↦ s ]

-- Event.from_row
unfoldable pub event_from_row : EventRow → Event
unfolding normalize_legacy_payload
event_from_row row = record {
  source = row.source;
  match_id = row.match_id;
  seq = row.seq;
  minute = as_int (column_of "minute" row);
  period = as_int (column_of "period" row);
  type = type_of row;
  importance = as_int (column_of "importance" row);
  actor_entity = as_str (column_of "actor_entity" row);
  target_entity = as_str (column_of "target_entity" row);
  detail = as_str (column_of "detail" row);
  payload = normalize_legacy_payload (type_of row) (column_of "payload" row);
}

pub record Standing : Type 0 where
  pub source : String
  pub group_key : Option String
  pub entity_id : Option String
  pub points : Option ℕ
  pub rank : Option ℕ
  pub payload : Value

-- Standing.from_row
unfoldable pub standing_from_row : StandingRow → Standing
standing_from_row row = record {
  source = row.source;
  group_key = as_str row.group_key;
  entity_id = as_str row.entity_id;
  points = as_int (get_value "points" row.columns);
  rank = as_int (get_value "rank" row.columns);
  payload = get_value "payload" row.columns;
}

-- list_matches
unfoldable pub match_states : Db → Option String → Option String → List MatchState
unfolding match_from_row
match_states db source status = map match_from_row (list_matches db source status)

-- get_state
unfoldable pub match_state : Db → String → Option MatchState
unfolding match_from_row get_state
match_state db match_id = elim (get_state db match_id) [
  | none ↦ none
  | some row ↦ some (match_from_row (match_id, row))
]

-- get_events_since
unfoldable pub events_since : Db → String → Option ℕ → List Event
unfolding event_from_row
events_since db match_id since_seq = map event_from_row (get_events_since db match_id since_seq)

-- get_standings
unfoldable pub standings_of : Db → String → Option String → List Standing
unfolding standing_from_row
standings_of db source group_key = map standing_from_row (get_standings db source group_key)
