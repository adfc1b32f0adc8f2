-- ===== src/Reader.antt =====
-- gamecollect/db/reader.py: the queries of the consumers, over the tables. The rows of a table that
-- a query leaves tied come in the order of the table. Opening a file, and the tables of a pack,
-- which are named by their caller, are left out.
pub mod Latest
pub mod Since
mod Tests
use gamealerts_collector.Prelude.{
  ℕ, String, Bool, true, false, ◌&&◌, List, [], ◌∷◌, ◌++◌, Option, none, some, filter, ltb, leb,
  map, if◌then◌else◌, ◌==◌, string_eq, option_eq, nat_eq,
}
use gamealerts_collector.Dict.{Dict, get}
use gamealerts_collector.Json.{Value, null, str, value_eq, text_le}
use gamealerts_collector.Fold.{Unicode, fold}
use gamealerts_collector.Writer.Table.{MatchRow, EventRow, EntityRow, StandingRow, Db}
use gamealerts_collector.Writer.Rows.{get_value}
use gamealerts_collector.Engine.Rows.{as_int, as_str}

-- a filter that is not asked for passes every row
abbrev pub if_given : Option String → Option String → Bool
if_given none value = true
if_given (some wanted) value = value == some wanted

-- NULL comes before every text
abbrev pub text_le_opt : Option String → Option String → Bool
text_le_opt none b = true
text_le_opt (some a) none = false
text_le_opt (some a) (some b) = text_le a b

-- ORDER BY, on the result of a test: a stable sort
unfoldable pub insert_by {ℓ} : {A : Type ℓ} → (A → A → Bool) → A → List A → List A
insert_by le x [] = x ∷ []
insert_by le x (y ∷ ys) = if le x y then x ∷ y ∷ ys else y ∷ insert_by le x ys

unfoldable pub sort_by {ℓ} : {A : Type ℓ} → (A → A → Bool) → List A → List A
unfolding insert_by
sort_by le [] = []
sort_by le (x ∷ xs) = insert_by le x (sort_by le xs)

-- `LIMIT 1`
abbrev pub first {ℓ} : {A : Type ℓ} → List A → Option A
first [] = none
first (x ∷ xs) = some x

-- `ORDER BY kickoff_utc, match_id`
abbrev pub match_le : String × MatchRow → String × MatchRow → Bool
match_le (i, a) (j, b) =
    let s = as_str (get_value "kickoff_utc" a.columns) in
    let t = as_str (get_value "kickoff_utc" b.columns) in
    if s == t then text_le i j else text_le_opt s t

-- list_matches
unfoldable pub list_matches : Db → Option String → Option String → List (String × MatchRow)
unfolding sort_by
list_matches db source status = sort_by match_le (
    filter
      (λ (r : String × MatchRow).
        if_given source (some r.1.source)
        && if_given status (as_str (get_value "status" r.1.columns)))
      db.matches)

-- get_state
unfoldable pub get_state : Db → String → Option MatchRow
get_state db match_id = get match_id db.matches

-- `ORDER BY seq`
abbrev pub seq_le : EventRow → EventRow → Bool
seq_le a b = leb a.seq b.seq

-- the events of a match
abbrev pub events_of : Db → String → List EventRow
events_of db match_id = filter (λ (e : EventRow). e.match_id == match_id) db.events

-- get_events_since; the full list where no seq is given
unfoldable pub get_events_since : Db → String → Option ℕ → List EventRow
unfolding sort_by
get_events_since db match_id none = sort_by seq_le (events_of db match_id)
get_events_since db match_id (some seq) =
    sort_by seq_le (filter (λ (e : EventRow). ltb seq e.seq) (events_of db match_id))

-- `ORDER BY seq DESC`
abbrev pub seq_ge : EventRow → EventRow → Bool
seq_ge a b = leb b.seq a.seq

-- `type = ?`
abbrev pub has_type : String → EventRow → Bool
has_type type e = e.type == str type

-- one subquery: the last event of a type
unfoldable pub latest_of_type : Db → String → String → List EventRow
unfolding sort_by
latest_of_type db match_id type =
    elim (first (sort_by seq_ge (filter (has_type type) (events_of db match_id)))) [
      | none ↦ []
      | some e ↦ e ∷ []
    ]

-- the UNION ALL of the subqueries
unfoldable pub latest_candidates : Db → String → List String → List EventRow
unfolding latest_of_type
latest_candidates db match_id [] = []
latest_candidates db match_id (type ∷ types) =
    latest_of_type db match_id type ++ latest_candidates db match_id types

-- get_latest_event_of_type
unfoldable pub get_latest_event_of_type : Db → String → List String → Option EventRow
unfolding latest_candidates sort_by
get_latest_event_of_type db match_id types =
    first (sort_by seq_ge (latest_candidates db match_id types))

-- get_entity
unfoldable pub get_entity : List EntityRow → String → String → Option EntityRow
get_entity [] source entity_id = none
get_entity (e ∷ es) source entity_id =
    if e.source == source && e.entity_id == str entity_id
    then some e
    else get_entity es source entity_id

-- `ORDER BY source, entity_id`
abbrev pub entity_le : EntityRow → EntityRow → Bool
entity_le a b =
    if a.source == b.source
    then text_le_opt (as_str a.entity_id) (as_str b.entity_id)
    else text_le a.source b.source

-- find_entities_by_name
unfoldable pub find_entities_by_name :
    Unicode → Db → String → Option String → Option String → List EntityRow
unfolding fold sort_by
find_entities_by_name u db name source kind = sort_by entity_le (
    filter
      (λ (e : EntityRow).
        get_value "name_folded" e.columns == str (fold u name)
        && (if_given source (some e.source) && if_given kind (as_str (get_value "kind" e.columns))))
      db.entities)

-- NULL comes before every number
abbrev pub int_le_opt : Option ℕ → Option ℕ → Bool
int_le_opt none b = true
int_le_opt (some a) none = false
int_le_opt (some a) (some b) = leb a b

-- `ORDER BY rank, entity_id`
abbrev pub rank_le : StandingRow → StandingRow → Bool
rank_le a b =
    let r = as_int (get_value "rank" a.columns) in
    let s = as_int (get_value "rank" b.columns) in
    if r == s then text_le_opt (as_str a.entity_id) (as_str b.entity_id) else int_le_opt r s

-- `ORDER BY group_key, rank, entity_id`
abbrev pub group_le : StandingRow → StandingRow → Bool
group_le a b =
    if as_str a.group_key == as_str b.group_key
    then rank_le a b
    else text_le_opt (as_str a.group_key) (as_str b.group_key)

-- get_standings
unfoldable pub get_standings : Db → String → Option String → List StandingRow
unfolding sort_by
get_standings db source (some group_key) =
    sort_by rank_le (
      filter (λ (r : StandingRow). r.source == source && r.group_key == str group_key) db.standings)
get_standings db source none =
    sort_by group_le (filter (λ (r : StandingRow). r.source == source) db.standings)
