-- ===== src/Replay.antt =====
-- gamecollect/replay.py: a recorded match, revealed event by event. A fixture is the match that it
-- holds. The clock of the paced mode is a parameter, in whole seconds.
pub mod Steps
pub mod Pace
mod Tests
use gamealerts_collector.Prelude.{
  ℕ, zero, suc, ◌+◌, ◌-◌, ◌*◌, String, Bool, true, false, List, [], ◌∷◌, Option, none, some, ltb,
  leb, length, if◌then◌else◌, ◌==◌, string_eq,
}
use gamealerts_collector.Provider.{NormalizedEvent, NormalizedMatch}
use gamealerts_collector.Diffing.{sort_by_seq}

pub record ReplayProvider : Type 0 where
  pub match : NormalizedMatch
  pub events : List NormalizedEvent
  pub step_mode : Bool
  pub speed : ℕ
  pub revealed : ℕ
  pub start : Option ℕ

-- the constructor, in step mode: `math.isinf(speed)`
unfoldable pub step_provider : NormalizedMatch → ReplayProvider
unfolding sort_by_seq
step_provider match = record {
  match = match;
  events = sort_by_seq match.events;
  step_mode = true;
  speed = 0;
  revealed = 0;
  start = none;
}

-- the constructor, with a finite speed, or a ValueError
unfoldable pub paced_provider : NormalizedMatch → ℕ → Option ReplayProvider
unfolding sort_by_seq
paced_provider match speed =
    if ltb 0 speed
    then some (record {
      match = match;
      events = sort_by_seq match.events;
      step_mode = false;
      speed = speed;
      revealed = 0;
      start = none;
    })
    else none

-- `events[:n]`
unfoldable pub take {ℓ} : {A : Type ℓ} → ℕ → List A → List A
take zero xs = []
take (suc n) [] = []
take (suc n) (x ∷ xs) = x ∷ take n xs

-- `(event.minute or 0) * 60`
abbrev pub offset_seconds : NormalizedEvent → ℕ
offset_seconds event = elim event.minute [ none ↦ 0 | some m ↦ m * 60 ]

-- the loop of _paced_count: the events of a prefix whose time has come
unfoldable pub due_count : List NormalizedEvent → ℕ → ℕ
due_count [] budget = 0
due_count (event ∷ events) budget =
    let rest = due_count events budget in if leb (offset_seconds event) budget then suc rest else 0

-- `self._start`, which the first reading sets
abbrev pub start_at : Option ℕ → ℕ → ℕ
start_at none now = now
start_at (some first) now = first

-- _paced_count, at one reading of the clock; the state has the start
unfoldable pub paced_count : ℕ → ReplayProvider → ℕ × ReplayProvider
unfolding due_count
paced_count now provider =
    let first = start_at provider.start now in
    (
      due_count provider.events ((now - first) * provider.speed),
      record provider { start = some first },
    )

-- _snapshot
unfoldable pub snapshot : ReplayProvider → NormalizedMatch
unfolding take
snapshot provider = record provider.match { events = take provider.revealed provider.events }

-- the state after a fetch_live_matches at a reading of the clock
unfoldable pub advance : ℕ → ReplayProvider → ReplayProvider
unfolding paced_count
advance now provider =
    let (count, started) = paced_count now provider in
    if provider.step_mode
    then (if ltb provider.revealed (length provider.events)
        then record provider { revealed = suc provider.revealed }
        else provider)
    else record started { revealed = count }

-- fetch_live_matches
unfoldable pub fetch_live_matches : ℕ → ReplayProvider → List NormalizedMatch × ReplayProvider
unfolding advance snapshot
fetch_live_matches now provider = let next = advance now provider in (snapshot next ∷ [], next)

-- fetch_match_detail, or a ProviderUnavailableError
unfoldable pub fetch_match_detail : String → ReplayProvider → Option NormalizedMatch
unfolding snapshot
fetch_match_detail id provider =
    if id == provider.match.match_id then some (snapshot provider) else none

-- exhausted
unfoldable pub exhausted : ReplayProvider → Bool
exhausted provider = leb (length provider.events) provider.revealed
