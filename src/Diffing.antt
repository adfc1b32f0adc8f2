-- ===== src/Diffing.antt =====
-- gamecollect/diffing.py: what changed between two polls.
pub mod Order
pub mod Exact
mod Tests
use gamealerts_collector.Prelude.{
  ℕ, String, Bool, true, false, not, ◌||◌, List, [], ◌∷◌, map, Option, none, some, leb,
  if◌then◌else◌, Eq, ◌==◌, nat_eq, option_eq, dec_beq, dec_beq_iff, ℕ_discrete, string_discrete,
  filter, non_empty,
}
use gamealerts_collector.Dict.{Dict, get}
use gamealerts_collector.Json.{Fields, Fields-discrete, dumps}
use gamealerts_collector.Provider.{
  MatchStatus, MatchStatus-discrete, NormalizedEvent, NormalizedMatch,
}

pub record MatchDiff : Type 0 where
  pub match : NormalizedMatch
  pub state_changed : Bool
  pub new_events : List NormalizedEvent

unfoldable pub has_changes : MatchDiff → Bool
has_changes d = d.state_changed || non_empty d.new_events

-- the tuple of _state_key
abbrev pub StateKey : Type 0
StateKey =
    MatchStatus
    × Option ℕ
    × Option ℕ
    × Option ℕ
    × Option String
    × Option String
    × Option String
    × Option String
    × Fields

unfoldable pub StateKey-discrete : Discrete StateKey
unfolding MatchStatus-discrete ℕ_discrete string_discrete Fields-discrete
StateKey-discrete = hlevel (MatchStatus-discrete, ℕ_discrete, string_discrete, Fields-discrete)

instance abbrev pub state_key_eq : Eq StateKey
state_key_eq = record { same = dec_beq StateKey-discrete; same_iff = dec_beq_iff StateKey-discrete }

unfoldable pub state_key : NormalizedMatch → StateKey
state_key m = (
  m.status,
  m.minute,
  m.score_home,
  m.score_away,
  m.display_clock,
  m.home_team,
  m.away_team,
  m.kickoff_utc,
  dumps m.payload,
)

-- the tuple of _event_key: every field except `seq`
abbrev pub EventKey : Type 0
EventKey = Option ℕ × String × ℕ × Option String × Option String × Option String × Option String

unfoldable pub EventKey-discrete : Discrete EventKey
unfolding ℕ_discrete string_discrete
EventKey-discrete = hlevel (ℕ_discrete, string_discrete)

instance abbrev pub event_key_eq : Eq EventKey
event_key_eq = record { same = dec_beq EventKey-discrete; same_iff = dec_beq_iff EventKey-discrete }

unfoldable pub event_key : NormalizedEvent → EventKey
event_key e = (e.minute, e.event_type, e.importance, e.team, e.player, e.assist, e.detail)

-- `{event.seq: _event_key(event) for event in events}.get(seq)`: a later event takes the place of
-- an earlier one of its seq
unfoldable pub last_event_key : List NormalizedEvent → ℕ → Option EventKey
last_event_key [] seq = none
last_event_key (e ∷ es) seq = elim (last_event_key es seq) [
  | some k ↦ some k
  | none ↦ if e.seq == seq then some (event_key e) else none
]

-- Python's stable sort by `seq`.
unfoldable pub insert_by_seq : NormalizedEvent → List NormalizedEvent → List NormalizedEvent
insert_by_seq e [] = e ∷ []
insert_by_seq e (x ∷ xs) = if leb e.seq x.seq then e ∷ x ∷ xs else x ∷ insert_by_seq e xs

unfoldable pub sort_by_seq : List NormalizedEvent → List NormalizedEvent
unfolding insert_by_seq
sort_by_seq [] = []
sort_by_seq (e ∷ es) = insert_by_seq e (sort_by_seq es)

unfoldable pub is_new : List NormalizedEvent → NormalizedEvent → Bool
is_new last e = not (last_event_key last e.seq == some (event_key e))

unfoldable pub diff_match : NormalizedMatch → Option NormalizedMatch → MatchDiff
diff_match current none = record {
  match = current;
  state_changed = true;
  new_events = sort_by_seq current.events;
}
diff_match current (some last) = record {
  match = current;
  state_changed = not (state_key current == state_key last);
  new_events = sort_by_seq (filter (is_new last.events) current.events);
}

-- `last` is keyed by the provider's match_id
unfoldable pub diff_matches : List NormalizedMatch → Dict NormalizedMatch → List MatchDiff
unfolding diff_match
diff_matches current last = map (λ m. diff_match m (get m.match_id last)) current
