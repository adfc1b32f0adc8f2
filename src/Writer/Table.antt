-- ===== src/Writer/Table.antt =====
-- The tables of gamecollect/db/schema.sql that PartitionWriter writes. A column that a row does
-- not carry is NULL. SQLite's conversions between column types are not modelled.
use gamealerts_collector.Prelude.{
  ℕ, String, Bool, ◌&&◌, List, [], ◌∷◌, Option, none, some, ◌==◌, string_eq, nat_eq, if◌then◌else◌,
}
use gamealerts_collector.Dict.{Dict, get}
use gamealerts_collector.Json.{Value}

pub record MatchRow : Type 0 where
  pub source : String
  pub columns : Dict Value

pub record EventRow : Type 0 where
  pub source : String
  pub match_id : String
  pub seq : ℕ
  pub type : Value
  pub columns : List Value

pub record EntityRow : Type 0 where
  pub source : String
  pub entity_id : Value
  pub columns : Dict Value

pub record StandingRow : Type 0 where
  pub source : String
  pub group_key : Value
  pub entity_id : Value
  pub columns : Dict Value

pub record ProviderRow : Type 0 where
  pub source : String
  pub provider : String
  pub provider_match_id : String
  pub match_id : String

-- `matches` is keyed by match_id, its primary key.
pub record Db : Type 0 where
  pub matches : Dict MatchRow
  pub events : List EventRow
  pub entities : List EntityRow
  pub standings : List StandingRow
  pub provider_match_map : List ProviderRow

abbrev pub empty : Db
empty = record { matches = []; events = []; entities = []; standings = []; provider_match_map = [] }

-- `SELECT source FROM matches WHERE match_id = ?`
unfoldable pub owner : Db → String → Option String
owner db match_id = elim (get match_id db.matches) [ none ↦ none | some row ↦ some row.source ]

-- the row is in the partition of one source and match
abbrev pub in_partition : String → String → EventRow → Bool
in_partition source match_id e = e.source == source && e.match_id == match_id

-- the event of a primary key
unfoldable pub find_event : List EventRow → String → String → ℕ → Option EventRow
find_event [] source match_id seq = none
find_event (e ∷ es) source match_id seq =
    if in_partition source match_id e && e.seq == seq
    then some e
    else find_event es source match_id seq
