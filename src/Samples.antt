-- ===== src/Samples.antt =====
-- Snapshots and events that the tests share.
use gamealerts_collector.Prelude.{ℕ, false, [], ◌∷◌, none, some}
use gamealerts_collector.Json.{str, int}
use gamealerts_collector.Fold.{Unicode}
use gamealerts_collector.Writer.Table.{Db, empty}
use gamealerts_collector.Writer.Rows.{PartitionWriter}
use gamealerts_collector.Provider.{in_play, finished, NormalizedEvent, NormalizedMatch}

abbrev pub goal : ℕ → ℕ → NormalizedEvent
goal seq minute = record {
  seq = seq;
  minute = some minute;
  event_type = "goal";
  importance = 1;
  team = some "Canada";
  player = some "David";
  assist = some "Davies";
  detail = none;
}

abbrev pub yellow : ℕ → ℕ → NormalizedEvent
yellow seq minute = record {
  seq = seq;
  minute = some minute;
  event_type = "yellow";
  importance = 3;
  team = some "Qatar";
  player = some "Afif";
  assist = none;
  detail = some "late";
}

-- A live board, with what a scoreboard tells.
abbrev pub live_board : ℕ → ℕ → ℕ → NormalizedMatch
live_board minute home away = record {
  match_id = "760440";
  status = in_play;
  minute = some minute;
  score_home = some home;
  score_away = some away;
  display_clock = none;
  events = [];
  home_team = some "Canada";
  away_team = some "Qatar";
  kickoff_utc = none;
  payload = ("venue", str "Toronto") ∷ [];
}

abbrev pub final_board : ℕ → ℕ → NormalizedMatch
final_board home away = record {
  match_id = "760440";
  status = finished;
  minute = none;
  score_home = some home;
  score_away = some away;
  display_clock = some "FT";
  events = goal 0 12 ∷ yellow 1 40 ∷ [];
  home_team = some "Canada";
  away_team = none;
  kickoff_utc = some "2026-06-12T19:00Z";
  payload = ("venue", str "") ∷ ("round", int 1) ∷ [];
}

-- A stand-in for the Unicode tables, under which every name has one key.
abbrev pub plain_text : Unicode
plain_text = record {
  nfkd = λ s. [];
  combining = λ c. false;
  casefold = λ cs. "plain";
  strip = λ s. s;
}

abbrev pub world_cup : PartitionWriter
world_cup = record { source = "wc"; taxonomy = some ("goal" ∷ "yellow" ∷ []) }

-- A database that knows one match, with no events.
abbrev pub seeded : Db
seeded = record empty { matches = ("1", record { source = "wc"; columns = [] }) ∷ [] }
