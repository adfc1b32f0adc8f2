-- ===== src/Record/Latest.antt =====
-- What a session of gamecollect/record.py has of each event.
use gamealerts_collector.Prelude.{
  ℕ, String, ◌≡◌, refl, sym, ◌∙◌, ap, Bool-cases, inl, inr, List, [], ◌∷◌, ◌++◌, Option, none, some,
  arith, if◌then◌else◌, ◌==◌, ==_iff, nat_eq, string_eq,
}
use gamealerts_collector.Dict.{get, get-insert}
use gamealerts_collector.Provider.{NormalizedEvent, NormalizedMatch}
use gamealerts_collector.Record.{
  RecordedMatch, put_event, put_events, from_match, update, RecordWriter, new_recorder,
  accumulate_one, accumulate,
}

-- the event of a seq: the first in the list
abbrev pub event_of : ℕ → List NormalizedEvent → Option NormalizedEvent
event_of seq [] = none
event_of seq (e ∷ es) = if e.seq == seq then some e else event_of seq es

-- the last event of a seq in the list, or else one from before
abbrev pub latest : ℕ → List NormalizedEvent → Option NormalizedEvent → Option NormalizedEvent
latest seq [] before = before
latest seq (e ∷ es) before = latest seq es (if e.seq == seq then some e else before)

event_of-put_event :
    (seq : ℕ) (e : NormalizedEvent) (xs : List NormalizedEvent)
    → event_of seq (put_event e xs) ≡ (if e.seq == seq then some e else event_of seq xs)
unfolding put_event
event_of-put_event seq e [] = refl
event_of-put_event seq e (x ∷ xs) = ground (arith, event_of-put_event seq e xs)

event_of-put_events :
    (seq : ℕ) (es xs : List NormalizedEvent)
    → event_of seq (put_events es xs) ≡ latest seq es (event_of seq xs)
unfolding put_events
event_of-put_events seq [] xs = refl
event_of-put_events seq (e ∷ es) xs =
    event_of-put_events seq es (put_event e xs) ∙ ap (latest seq es) (event_of-put_event seq e xs)

latest-append :
    (seq : ℕ) (es fs : List NormalizedEvent) (before : Option NormalizedEvent)
    → latest seq (es ++ fs) before ≡ latest seq fs (latest seq es before)
latest-append seq [] fs before = refl
latest-append seq (e ∷ es) fs before =
    latest-append seq es fs (if e.seq == seq then some e else before)

-- the event of a match and a seq that the session has recorded
abbrev pub recorded_event : String → ℕ → RecordWriter → Option NormalizedEvent
recorded_event id seq w = elim (get id w.records) [
  | none ↦ none
  | some recorded ↦ event_of seq recorded.events
]

-- the events of a match, in the order in which its snapshots came
abbrev pub observed : String → List NormalizedMatch → List NormalizedEvent
observed id [] = []
observed id (m ∷ ms) = if m.match_id == id then m.events ++ observed id ms else observed id ms

recorded-accumulate_one :
    (id : String) (seq : ℕ) (m : NormalizedMatch) (w : RecordWriter)
    → recorded_event id seq (accumulate_one m w) ≡ (
        if m.match_id == id
        then latest seq m.events (recorded_event id seq w)
        else recorded_event id seq w)
unfolding accumulate_one from_match update
recorded-accumulate_one id seq m w = by_entry (get m.match_id w.records) refl
  where
    by_entry :
        (o : Option RecordedMatch)
        → get m.match_id w.records ≡ o
        → recorded_event id seq (accumulate_one m w) ≡ (
            if m.match_id == id
            then latest seq m.events (recorded_event id seq w)
            else recorded_event id seq w)
    by_entry none e = ground (
      arith,
      get-insert m.match_id id (from_match m) w.records,
      ==_iff m.match_id id,
      event_of-put_events seq m.events [],
    )
    by_entry (some r) e = ground (
      arith,
      get-insert m.match_id id (update m r) w.records,
      ==_iff m.match_id id,
      event_of-put_events seq m.events r.events,
    )

recorded-accumulate :
    (id : String) (seq : ℕ) (ms : List NormalizedMatch) (w : RecordWriter)
    → recorded_event id seq (accumulate ms w)
      ≡ latest seq (observed id ms) (recorded_event id seq w)
unfolding accumulate
recorded-accumulate id seq [] w = refl
recorded-accumulate id seq (m ∷ ms) w =
    let later = recorded-accumulate id seq ms (accumulate_one m w) in
    let here = recorded-accumulate_one id seq m w in
    elim (Bool-cases (m.match_id == id)) [
      | inl e ↦
          let now : recorded_event id seq (accumulate_one m w)
              ≡ latest seq m.events (recorded_event id seq w) =
            here ∙ rw e refl in
          later
          ∙ ap (latest seq (observed id ms)) now
          ∙ rw e (sym (latest-append seq m.events (observed id ms) (recorded_event id seq w)))
      | inr e ↦
          let now : recorded_event id seq (accumulate_one m w) ≡ recorded_event id seq w =
            here ∙ rw e refl in
          later ∙ ap (latest seq (observed id ms)) now ∙ rw e refl
    ]

-- After any list of observed matches is accumulated, the event that is recorded for a match
-- and a seq is the last one that was observed for them, and there is none if none was
-- observed.
pub accumulate-latest :
    (id : String) (seq : ℕ) (ms : List NormalizedMatch)
    → recorded_event id seq (accumulate ms new_recorder) ≡ latest seq (observed id ms) none
accumulate-latest id seq ms = recorded-accumulate id seq ms new_recorder
