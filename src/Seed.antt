-- ===== src/Seed.antt =====
-- default_seed_match and default_persist_side_tables of gamecollect/packs/spec.py: the hooks of a
-- pack that brings none; and what they read by gamecollect/db/reader.py. A stored payload is the
-- JSON value of its text.
pub mod Contract
mod Tests
use gamealerts_collector.Prelude.{String, true, List, [], ◌∷◌, Option, none, some}
use gamealerts_collector.Dict.{get, insert}
use gamealerts_collector.Json.{
  Value, str, object, Payload, fields_of, merge_payload_preserving_richer,
}
use gamealerts_collector.Provider.{status_value, NormalizedMatch}
use gamealerts_collector.Writer.Table.{Db}
use gamealerts_collector.Writer.Action.{Action, pure, gets, ◌>>=◌, ◌>>◌}
use gamealerts_collector.Writer.Rows.{PartitionWriter, Row, get_value}
use gamealerts_collector.Writer.Matches.{upsert_match}
use gamealerts_collector.Engine.Rows.{opt_int, opt_str, entries}
use gamealerts_collector.Engine.Apply.{Pack}

-- decode_payload: an object, or no keys
abbrev pub decode_payload : Value → Payload
decode_payload raw = entries raw

-- get_stored_payload
unfoldable pub get_stored_payload : String → Db → Payload
get_stored_payload match_id db = elim (get match_id db.matches) [
  | none ↦ []
  | some row ↦ decode_payload (get_value "payload" row.columns)
]

-- `if name is not None: payload[key] = name`
abbrev pub put_name : String → Option String → Payload → Payload
put_name key none payload = payload
put_name key (some name) payload = insert key (str name) payload

-- the stored payload, with what the snapshot adds to it
unfoldable pub seeded_payload : NormalizedMatch → Payload → Payload
unfolding merge_payload_preserving_richer
seeded_payload match stored =
    put_name "away_team" match.away_team
      (put_name "home_team" match.home_team (merge_payload_preserving_richer stored match.payload))

-- the row that is upserted
unfoldable pub seed_row : NormalizedMatch → Payload → Row
seed_row match payload =
    ("match_id", str match.match_id)
    ∷ ("status", str (status_value match.status))
    ∷ ("minute", opt_int match.minute)
    ∷ ("score_home", opt_int match.score_home)
    ∷ ("score_away", opt_int match.score_away)
    ∷ ("display_clock", opt_str match.display_clock)
    ∷ ("kickoff_utc", opt_str match.kickoff_utc)
    ∷ ("payload", object (fields_of payload))
    ∷ []

-- default_seed_match
unfoldable pub default_seed_match :
    PartitionWriter → String → NormalizedMatch → Action (Option String)
unfolding get_stored_payload seeded_payload seed_row upsert_match
default_seed_match w now match = do
  stored ← gets (get_stored_payload match.match_id)
  upsert_match w now (seed_row match (seeded_payload match stored))
  pure (some match.match_id)

-- a pack with both of the default hooks; default_persist_side_tables does nothing
abbrev pub default_pack : PartitionWriter → String → Pack
default_pack w now = record {
  seed_match = λ match db. default_seed_match w now match db;
  persist_side_tables = λ match seeded_id db. (true, db);
}
