-- ===== src/Record.antt =====
-- gamecollect/record.py: the matches that a session records. Writing the files is a parameter, which
-- tells whether it succeeds; the checks of the target path are left out.
pub mod Latest
pub mod Flush
mod Tests
use gamealerts_collector.Prelude.{
  ℕ, String, Bool, true, false, not, ◌||◌, List, [], ◌∷◌, Option, none, some, length, non_empty,
  if◌then◌else◌, ◌==◌, nat_eq,
}
use gamealerts_collector.Dict.{Dict, get, insert}
use gamealerts_collector.Provider.{NormalizedEvent, NormalizedMatch}
use gamealerts_collector.Diffing.{sort_by_seq}

-- the header, and the dict from a seq to its event, as the list of its values
pub record RecordedMatch : Type 0 where
  pub header : NormalizedMatch
  pub events : List NormalizedEvent

-- `self._events[event.seq] = event`
unfoldable pub put_event : NormalizedEvent → List NormalizedEvent → List NormalizedEvent
put_event e [] = e ∷ []
put_event e (x ∷ xs) = if x.seq == e.seq then e ∷ xs else x ∷ put_event e xs

unfoldable pub put_events : List NormalizedEvent → List NormalizedEvent → List NormalizedEvent
unfolding put_event
put_events [] xs = xs
put_events (e ∷ es) xs = put_events es (put_event e xs)

-- from_match
unfoldable pub from_match : NormalizedMatch → RecordedMatch
unfolding put_events
from_match match = record { header = match; events = put_events match.events [] }

-- update
unfoldable pub update : NormalizedMatch → RecordedMatch → RecordedMatch
unfolding put_events
update match recorded = record { header = match; events = put_events match.events recorded.events }

-- as_match
unfoldable pub as_match : RecordedMatch → NormalizedMatch
as_match recorded = record recorded.header { events = sort_by_seq recorded.events }

-- `_record` and `_record_flush_failed`
pub record RecordWriter : Type 0 where
  pub records : Dict RecordedMatch
  pub flush_failed : Bool

-- the constructor, past its checks
abbrev pub new_recorder : RecordWriter
new_recorder = record { records = []; flush_failed = false }

-- the body of the loop of accumulate
unfoldable pub accumulate_one : NormalizedMatch → RecordWriter → RecordWriter
unfolding from_match update insert
accumulate_one match w = elim (get match.match_id w.records) [
  | none ↦ record w { records = insert match.match_id (from_match match) w.records }
  | some recorded ↦ record w { records = insert match.match_id (update match recorded) w.records }
]

unfoldable pub accumulate : List NormalizedMatch → RecordWriter → RecordWriter
unfolding accumulate_one
accumulate [] w = w
accumulate (match ∷ matches) w = accumulate matches (accumulate_one match w)

pub data Flushed : Type 0 where
  skipped written raised : Flushed

-- what the write gets: as_match of each
unfoldable pub matches_of : Dict RecordedMatch → List NormalizedMatch
unfolding as_match
matches_of [] = []
matches_of ((id, recorded) ∷ records) = as_match recorded ∷ matches_of records

-- flush, with the write of the recorded matches
unfoldable pub flush : (List NormalizedMatch → Bool) → RecordWriter → Flushed × RecordWriter
unfolding matches_of
flush write w =
    if not (non_empty w.records) || w.flush_failed
    then (skipped, w)
    else if write (matches_of w.records)
    then (written, record w { records = [] })
    else (raised, record w { flush_failed = true })

-- pending_count
unfoldable pub pending_count : RecordWriter → ℕ
pending_count w = length w.records
