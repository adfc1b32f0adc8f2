-- ===== src/Engine/Stored.antt =====
-- _stored_rows_for_provider, _stored_match_snapshot, _stored_liveness_rows, _rows_report_live and
-- _resolve_stored_provider_id of gamecollect/engine.py: the row that a source holds for a
-- provider's match. A stored column of another type than the field it is read into is read as
-- None. `default_seed` is the test that the pack's hook is default_seed_match.
pub mod Authority
use Prim.Native.String.{◌++◌ as concat}
use Prim.Native.String.String.{◌∷◌ as char, [] as no_text}
use Prim.Native.Char.{Char}
use gamealerts_collector.Prelude.{
  ℕ, String, Bool, true, false, not, ◌&&◌, ◌||◌, List, [], ◌∷◌, ◌++◌, Option, none, some, ltb,
  if◌then◌else◌, ◌==◌, string_eq, option_eq, nat_eq,
}
use gamealerts_collector.Dict.{get}
use gamealerts_collector.Json.{text_le}
use gamealerts_collector.Provider.{
  MatchStatus, scheduled, in_play, paused, finished, unknown, NormalizedMatch, status_value,
}
use gamealerts_collector.Writer.Table.{MatchRow, ProviderRow, Db}
use gamealerts_collector.Writer.Rows.{Row, get_value}
use gamealerts_collector.Engine.Rows.{as_int, as_str, entries}

-- a row of the query: its rank, its key and its columns
pub record Candidate : Type 0 where
  pub rank : ℕ
  pub match_id : String
  pub columns : Row

-- f"{source}:{id}"
abbrev pub qualified : String → String → String
qualified source id = concat source (concat ":" id)

-- the row of a match id, if it is there and the source's
unfoldable pub candidate : Db → String → ℕ → String → List Candidate
candidate db source rank id = elim (get id db.matches) [
  | none ↦ []
  | some row ↦
      if row.source == source
      then record { rank = rank; match_id = id; columns = row.columns } ∷ []
      else []
]

-- the join of provider_match_map and matches
unfoldable pub mapped : Db → String → String → List ProviderRow → List Candidate
unfolding candidate
mapped db source id [] = []
mapped db source id (p ∷ rows) =
    let rest = mapped db source id rows in
    if p.source == source && p.provider_match_id == id
    then candidate db source 0 p.match_id ++ rest
    else rest

-- the candidates of either query
unfoldable pub candidates : Bool → String → Db → String → List Candidate
unfolding mapped
candidates true source db id =
    candidate db source 0 id ++ candidate db source 1 (qualified source id)
candidates false source db id =
    candidate db source 2 id
    ++ (candidate db source 1 (qualified source id) ++ mapped db source id db.provider_match_map)

-- `updated_at DESC, match_id ASC`, where NULL is below every text
abbrev pub fresher : Option String → Option String → Bool → Bool
fresher none none tie = tie
fresher none (some b) tie = false
fresher (some a) none tie = true
fresher (some a) (some b) tie = if a == b then tie else text_le b a

-- `rank ASC, updated_at DESC, match_id ASC`
unfoldable pub before : Candidate → Candidate → Bool
before a b =
    if a.rank == b.rank
    then fresher (as_str (get_value "updated_at" a.columns))
        (as_str (get_value "updated_at" b.columns)) (text_le a.match_id b.match_id)
    else ltb a.rank b.rank

-- `LIMIT 1`. Of a row that stands twice the lower rank comes first, as with MIN(rank).
unfoldable pub first_of : List Candidate → Option Candidate
unfolding before
first_of [] = none
first_of (c ∷ cs) = elim (first_of cs) [
  | none ↦ some c
  | some d ↦ if before c d then some c else some d
]

-- _stored_rows_for_provider
unfoldable pub stored_row : Bool → String → Db → String → Option Candidate
unfolding candidates first_of
stored_row default_seed source db id = first_of (candidates default_seed source db id)

-- `MatchStatus(text)`, or UNKNOWN on a ValueError
unfoldable pub read_status : Option String → MatchStatus
read_status none = unknown
read_status (some s) =
    if s == "SCHEDULED"
    then scheduled
    else if s == "IN_PLAY"
    then in_play
    else if s == "PAUSED"
    then paused
    else if s == "FINISHED"
    then finished
    else unknown

abbrev pub status_text : Candidate → Option String
status_text c = as_str (get_value "status" c.columns)

-- the snapshot that a stored row is read into
abbrev pub read_match : String → Candidate → NormalizedMatch
read_match id c =
    let extras = entries (get_value "payload" c.columns) in
    record {
      match_id = id;
      status = read_status (status_text c);
      minute = as_int (get_value "minute" c.columns);
      score_home = as_int (get_value "score_home" c.columns);
      score_away = as_int (get_value "score_away" c.columns);
      display_clock = as_str (get_value "display_clock" c.columns);
      events = [];
      home_team = as_str (get_value "home_team" extras);
      away_team = as_str (get_value "away_team" extras);
      kickoff_utc = as_str (get_value "kickoff_utc" c.columns);
      payload = [];
    }

-- _stored_match_snapshot
unfoldable pub stored_match_snapshot : Bool → String → Db → String → Option NormalizedMatch
unfolding stored_row read_status
stored_match_snapshot default_seed source db id = elim (stored_row default_seed source db id) [
  | none ↦ none
  | some c ↦ some (read_match id c)
]

-- `value in LIVE_STATUS_VALUES`
abbrev pub live_value : Option String → Bool
live_value none = false
live_value (some s) = s == "IN_PLAY" || s == "PAUSED"

-- _rows_report_live
unfoldable pub rows_report_live : Option Candidate → Bool
rows_report_live none = false
rows_report_live (some c) = live_value (status_text c)

-- `text[len(prefix):]`, if the text starts with the prefix
unfoldable pub strip_prefix : String → String → Option String
strip_prefix no_text text = some text
strip_prefix (char c prefix) no_text = none
strip_prefix (char c prefix) (char d text) =
    let rest = strip_prefix prefix text in
    if (char c no_text) == (char d no_text) then rest else none

-- the rows of provider_match_map for a stored id
unfoldable pub map_rows : String → String → List ProviderRow → List ProviderRow
map_rows source stored_id [] = []
map_rows source stored_id (p ∷ rows) =
    let rest = map_rows source stored_id rows in
    if p.source == source && p.match_id == stored_id then p ∷ rest else rest

-- `ORDER BY provider, provider_match_id`
abbrev pub row_le : ProviderRow → ProviderRow → Bool
row_le a b =
    if a.provider == b.provider
    then text_le a.provider_match_id b.provider_match_id
    else text_le a.provider b.provider

unfoldable pub first_row : List ProviderRow → Option ProviderRow
first_row [] = none
first_row (p ∷ rows) = elim (first_row rows) [
  | none ↦ some p
  | some q ↦ if row_le p q then some p else some q
]

abbrev pub provider_ids : List ProviderRow → List String
provider_ids [] = []
provider_ids (p ∷ rows) = p.provider_match_id ∷ provider_ids rows

-- `rows[0][1]` and the set of the ids, or None and no ids
abbrev pub from_map : List ProviderRow → Option String × List String
from_map rows = elim (first_row rows) [
  | none ↦ (none, [])
  | some p ↦ (some p.provider_match_id, provider_ids rows)
]

-- _resolve_stored_provider_id, but for its log
unfoldable pub resolve_stored_provider_id :
    Bool → String → Db → String → Option String × List String
unfolding strip_prefix map_rows first_row
resolve_stored_provider_id default_seed source db stored_id =
    elim (strip_prefix (concat source ":") stored_id) [
      | some provider_id ↦ (some provider_id, provider_id ∷ [])
      | none ↦
          if default_seed
          then (some stored_id, stored_id ∷ [])
          else from_map (map_rows source stored_id db.provider_match_map)
    ]
