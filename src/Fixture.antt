-- ===== src/Fixture.antt =====
-- gamecollect/fixture_io.py: a recorded match as JSON. The text of the JSON and its file are left
-- out: what is written is the value that json.dumps gets, and what is read the one that json.loads
-- gives, with the keys in the order of the dicts, which json.dumps sorts in the text. Every
-- exception is none. A float is carried by its text, which is the one of Python's repr. A field of
-- another type than it is read into is read as None.
pub mod RoundTrip
pub mod Rejects
pub mod Replayed
mod Tests
use Prim.Native.String.String.{◌∷◌ as char, [] as no_text}
use gamealerts_collector.Prelude.{
  ◌||◌, ℕ, String, Bool, true, false, List, [], ◌∷◌, ◌++◌, map, Option, none, some, if◌then◌else◌,
  ◌==◌, nat_eq, string_eq,
}
use gamealerts_collector.Dict.{get, contains}
use gamealerts_collector.Json.{
  Value, null, bool, int, float, str, array, object, Items, nil, cons, Payload, fields_of,
}
use gamealerts_collector.Provider.{
  MatchStatus, scheduled, in_play, paused, finished, unknown, status_value, NormalizedEvent,
  NormalizedMatch,
}
use gamealerts_collector.Diffing.{sort_by_seq}
use gamealerts_collector.Writer.Rows.{get_value}
use gamealerts_collector.Engine.Rows.{opt_int, opt_str, as_int, as_str, entries}
use gamealerts_collector.Engine.Reconcile.{seen}

-- the fixture that is read; its format_version is 1
pub record Fixture : Type 0 where
  pub match : NormalizedMatch
  pub entities : List Value
  pub standings : List Value

unfoldable pub items_of : List Value → Items
items_of [] = nil
items_of (v ∷ vs) = cons v (items_of vs)

unfoldable pub list_of : Items → List Value
list_of nil = []
list_of (cons v vs) = v ∷ list_of vs

abbrev pub dict : Payload → Value
dict entries = object (fields_of entries)

-- _match_header
unfoldable pub match_header : NormalizedMatch → Payload
match_header m =
    ("match_id", str m.match_id)
    ∷ ("status", str (status_value m.status))
    ∷ ("minute", opt_int m.minute)
    ∷ ("score_home", opt_int m.score_home)
    ∷ ("score_away", opt_int m.score_away)
    ∷ ("display_clock", opt_str m.display_clock)
    ∷ ("home_team", opt_str m.home_team)
    ∷ ("away_team", opt_str m.away_team)
    ∷ ("kickoff_utc", opt_str m.kickoff_utc)
    ∷ ("payload", dict m.payload)
    ∷ []

-- _event_json
unfoldable pub event_json : NormalizedEvent → Payload
event_json e =
    ("seq", int e.seq)
    ∷ ("minute", opt_int e.minute)
    ∷ ("event_type", str e.event_type)
    ∷ ("importance", int e.importance)
    ∷ ("team", opt_str e.team)
    ∷ ("player", opt_str e.player)
    ∷ ("assist", opt_str e.assist)
    ∷ ("detail", opt_str e.detail)
    ∷ []

abbrev pub event_value : NormalizedEvent → Value
event_value e = dict (event_json e)

-- write_fixture
unfoldable pub write_fixture : NormalizedMatch → List Value → List Value → Value
unfolding match_header event_json items_of sort_by_seq
write_fixture m entities standings = dict (
    ("format_version", int 1)
    ∷ ("match", dict (match_header m))
    ∷ ("events", array (items_of (map event_value (sort_by_seq m.events))))
    ∷ ("entities", array (items_of entities))
    ∷ ("standings", array (items_of standings))
    ∷ [])

infixl 5 ◌>>=◌
abbrev pub ◌>>=◌ {ℓ κ} : {A : Type ℓ} {B : Type κ} → Option A → (A → Option B) → Option B
none >>= f = none
some a >>= f = f a

-- `raise` under a test
abbrev pub guard : Bool → Option (Unit {0})
guard true = some tt
guard false = none

-- isinstance(value, dict)
abbrev pub as_dict : Value → Option Payload
as_dict (object fs) = some (entries (object fs))
as_dict _ = none

-- `data.get(key, [])`, where a JSON array is asked for
abbrev pub as_list : Option Value → Option (List Value)
as_list none = some []
as_list (some (array xs)) = some (list_of xs)
as_list (some _) = none

-- the characters of a text, as Python iterates over it
unfoldable pub characters : String → List Value
characters no_text = []
characters (char c text) = str (char c no_text) ∷ characters text

abbrev pub keys_of : Payload → List Value
keys_of [] = []
keys_of ((k, v) ∷ d) = str k ∷ keys_of d

-- `list(data.get(key) or [])`: what is false gives the empty list; list goes over the items of
-- a list, the characters of a str and the keys of a dict, and raises for any other value
unfoldable pub or_empty_list : Value → Option (List Value)
unfolding characters list_of
or_empty_list null = some []
or_empty_list (bool b) = if b then none else some []
or_empty_list (int n) = if n == 0 then some [] else none
or_empty_list (float s) = if s == "0.0" || s == "-0.0" then some [] else none
or_empty_list (str s) = some (characters s)
or_empty_list (array xs) = some (list_of xs)
or_empty_list (object fs) = some (keys_of (entries (object fs)))

-- `version != FORMAT_VERSION` is false; Python's True and 1.0 are 1
abbrev pub is_version : Value → Bool
is_version (int n) = n == 1
is_version (bool b) = b
is_version (float s) = s == "1.0"
is_version _ = false

-- `MatchStatus(text)`, or a ValueError
unfoldable pub parse_status : Option String → Option MatchStatus
parse_status none = none
parse_status (some s) =
    if s == "SCHEDULED"
    then some scheduled
    else if s == "IN_PLAY"
    then some in_play
    else if s == "PAUSED"
    then some paused
    else if s == "FINISHED"
    then some finished
    else if s == "UNKNOWN"
    then some unknown
    else none

-- a seq that is an int and no bool, and not among those before
abbrev pub new_seq : List ℕ → Option Value → Option ℕ
new_seq seqs (some (int n)) = if seen n seqs then none else some n
new_seq seqs _ = none

abbrev or_zero : Option ℕ → ℕ
or_zero none = 0
or_zero (some n) = n

abbrev or_blank : Option String → String
or_blank none = ""
or_blank (some s) = s

-- the body of the loop over the events
unfoldable pub read_event_json : List ℕ → Value → Option NormalizedEvent
unfolding seen
read_event_json seqs value = do
  event ← as_dict value
  seq ← new_seq seqs (get "seq" event)
  event_type ← get "event_type" event
  importance ← get "importance" event
  some (record {
    seq = seq;
    minute = as_int (get_value "minute" event);
    event_type = or_blank (as_str event_type);
    importance = or_zero (as_int importance);
    team = as_str (get_value "team" event);
    player = as_str (get_value "player" event);
    assist = as_str (get_value "assist" event);
    detail = as_str (get_value "detail" event);
  })

-- the loop, with the seqs of the events before
unfoldable pub read_events : List ℕ → List Value → Option (List NormalizedEvent)
unfolding read_event_json
read_events seqs [] = some []
read_events seqs (value ∷ values) = do
  event ← read_event_json seqs value
  events ← read_events (event.seq ∷ seqs) values
  some (event ∷ events)

-- read_fixture
unfoldable pub read_fixture : Value → Option Fixture
unfolding parse_status read_events or_empty_list list_of sort_by_seq
read_fixture value = do
  root ← as_dict value
  version ← get "format_version" root
  _ ← guard (is_version version)
  header ← get "match" root >>= as_dict
  status ← parse_status (as_str (get_value "status" header))
  values ← as_list (get "events" root)
  events ← read_events [] values
  match_id ← get "match_id" header
  entities ← or_empty_list (get_value "entities" root)
  standings ← or_empty_list (get_value "standings" root)
  some (record {
    match = record {
      match_id = or_blank (as_str match_id);
      status = status;
      minute = as_int (get_value "minute" header);
      score_home = as_int (get_value "score_home" header);
      score_away = as_int (get_value "score_away" header);
      display_clock = as_str (get_value "display_clock" header);
      events = sort_by_seq events;
      home_team = as_str (get_value "home_team" header);
      away_team = as_str (get_value "away_team" header);
      kickoff_utc = as_str (get_value "kickoff_utc" header);
      payload = entries (get_value "payload" header);
    };
    entities = entities;
    standings = standings;
  })
