-- ===== src/FallbackMerge.antt =====
-- gamecollect/fallback_merge.py: comparing and accumulating the snapshots of a match.
pub mod Order
pub mod Accrual
pub mod Clock
mod Tests
use gamealerts_collector.Prelude.{
  ℕ, String, Bool, true, false, not, ◌&&◌, ◌||◌, List, [], ◌∷◌, Option, none, some, max, ltb, leb,
  if◌then◌else◌, ◌==◌, nat_eq, string_eq, option_eq, non_empty, length, is_some, Eq,
}
use gamealerts_collector.Json.{Payload, merge_payload_preserving_richer}
use gamealerts_collector.Provider.{
  MatchStatus, MatchStatus-discrete, finished, status_eq, NormalizedEvent, NormalizedMatch,
}

-- `status in _TERMINAL_STATUSES`
abbrev pub is_terminal : MatchStatus → Bool
is_terminal finished = true
is_terminal _ = false

-- One side of the loop of live_supersedes_captured: `blocks` is its `return False`.
pub record SideCheck : Type 0 where
  pub blocks : Bool
  pub advanced : Bool
  pub known : Bool

abbrev pub check_side : Option ℕ → Option ℕ → SideCheck
check_side live none = record { blocks = false; advanced = false; known = false }
check_side none (some captured) = record { blocks = true; advanced = false; known = true }
check_side (some live) (some captured) = record {
  blocks = ltb live captured;
  advanced = ltb captured live;
  known = true;
}

-- `both known and applied.minute > fallback.minute`
abbrev pub later_minute : Option ℕ → Option ℕ → Bool
later_minute (some a) (some f) = ltb f a
later_minute _ _ = false

unfoldable pub live_supersedes_captured : NormalizedMatch → NormalizedMatch → Bool
live_supersedes_captured applied fallback =
    let home = check_side applied.score_home fallback.score_home in
    let away = check_side applied.score_away fallback.score_away in
    if home.blocks || away.blocks
    then false
    else if home.advanced || away.advanced
    then true
    else (home.known && away.known) && later_minute applied.minute fallback.minute

unfoldable pub live_supersedes_cooldown_fallback : NormalizedMatch → NormalizedMatch → Bool
unfolding live_supersedes_captured
live_supersedes_cooldown_fallback applied fallback = live_supersedes_captured applied fallback

unfoldable pub live_supersedes_fallback : NormalizedMatch → NormalizedMatch → Bool
unfolding live_supersedes_captured
live_supersedes_fallback applied fallback = live_supersedes_captured applied fallback

unfoldable pub fallback_worth_retaining : NormalizedMatch → Bool
fallback_worth_retaining fallback =
    non_empty fallback.events
    || (is_some fallback.score_home || (is_some fallback.score_away || is_terminal fallback.status))

unfoldable pub max_known : Option ℕ → Option ℕ → Option ℕ
max_known none b = b
max_known (some a) none = some a
max_known (some a) (some b) = some (max a b)

unfoldable pub non_regressing_score : Option ℕ → Option ℕ → Option ℕ
non_regressing_score candidate none = candidate
non_regressing_score none (some stored) = some stored
non_regressing_score (some candidate) (some stored) = some (max candidate stored)

-- `a if a is not None else b`
abbrev pub or_else {ℓ} : {A : Type ℓ} → Option A → Option A → Option A
or_else (some a) b = some a
or_else none b = b

-- a borrowed field that is None, or that a None or equal field of the winner does not contradict
abbrev pub compatible {ℓ} : {A : Type ℓ} ⦃e : Eq A⦄ → Option A → Option A → Bool
compatible none b = true
compatible (some a) none = true
compatible (some a) (some b) = b == a

unfoldable pub clock_eligible : NormalizedMatch → NormalizedMatch → Bool
unfolding MatchStatus-discrete
clock_eligible winner other =
    other.status == winner.status || (is_terminal winner.status && is_terminal other.status)

unfoldable pub paired_clock : NormalizedMatch → NormalizedMatch → Bool → Option ℕ × Option String
unfolding clock_eligible
paired_clock winner other other_vetoed =
    if is_some winner.minute && is_some winner.display_clock
    then (winner.minute, winner.display_clock)
    else if other_vetoed
    then (winner.minute, winner.display_clock)
    else if not (clock_eligible winner other)
    then (winner.minute, winner.display_clock)
    else (
      if compatible winner.display_clock other.display_clock
          then or_else winner.minute other.minute
          else winner.minute,
      if compatible winner.minute other.minute
          then or_else winner.display_clock other.display_clock
          else winner.display_clock,
    )

abbrev same : Bool → Bool → Bool
same true b = b
same false b = not b

-- both scores known, and the new one lower
abbrev pub regressed_side : Option ℕ → Option ℕ → Bool
regressed_side (some o) (some n) = ltb n o
regressed_side _ _ = false

unfoldable pub regressed : NormalizedMatch → NormalizedMatch → Bool
regressed old new =
    regressed_side old.score_home new.score_home || regressed_side old.score_away new.score_away

-- `is_terminal(a.status) == is_terminal(b.status)`
abbrev pub same_class : NormalizedMatch → NormalizedMatch → Bool
same_class a b = same (is_terminal a.status) (is_terminal b.status)

-- a score regression between two sides of one terminality class
unfoldable pub vetoed : NormalizedMatch → NormalizedMatch → Bool
unfolding regressed
vetoed old new = regressed old new && same_class new old

-- Which of the two sides is the winner.
unfoldable pub old_wins : NormalizedMatch → NormalizedMatch → Bool
unfolding vetoed
old_wins old new =
    if vetoed old new
    then true
    else if is_terminal new.status && not (is_terminal old.status)
    then false
    else is_terminal old.status && not (is_terminal new.status)

unfoldable pub winner : NormalizedMatch → NormalizedMatch → NormalizedMatch
unfolding old_wins
winner old new = if old_wins old new then old else new

unfoldable pub other : NormalizedMatch → NormalizedMatch → NormalizedMatch
unfolding old_wins
other old new = if old_wins old new then new else old

unfoldable pub winner_authoritative : NormalizedMatch → NormalizedMatch → Bool
unfolding vetoed winner other
winner_authoritative old new = vetoed old new || not (same_class (winner old new) (other old new))

unfoldable pub accrued_events : NormalizedMatch → NormalizedMatch → List NormalizedEvent
accrued_events old new =
    if winner_authoritative old new
    then (if non_empty (winner old new).events
        then (winner old new).events
        else (other old new).events)
    else if non_empty new.events && is_terminal new.status
    then new.events
    else if not (non_empty new.events)
    then old.events
    else if not (non_empty old.events)
    then new.events
    else if leb (length old.events) (length new.events)
    then new.events
    else old.events

unfoldable pub accrued_payload : NormalizedMatch → NormalizedMatch → Payload
accrued_payload old new =
    if winner_authoritative old new
    then merge_payload_preserving_richer (other old new).payload (winner old new).payload
    else merge_payload_preserving_richer old.payload new.payload

-- home_team, away_team and kickoff_utc, each by its field
unfoldable pub accrued_identity :
    (NormalizedMatch → Option String) → NormalizedMatch → NormalizedMatch → Option String
accrued_identity field old new =
    if winner_authoritative old new
    then or_else (field (winner old new)) (field (other old new))
    else or_else (field new) (field old)

unfoldable pub accrue_fallback : Option NormalizedMatch → NormalizedMatch → NormalizedMatch
accrue_fallback none new = new
accrue_fallback (some old) new =
    let (minute, display_clock) = paired_clock (winner old new) (other old new) (vetoed old new) in
    record new {
      status = (winner old new).status;
      minute = minute;
      score_home = max_known old.score_home new.score_home;
      score_away = max_known old.score_away new.score_away;
      display_clock = display_clock;
      events = accrued_events old new;
      home_team = accrued_identity (λ m. m.home_team) old new;
      away_team = accrued_identity (λ m. m.away_team) old new;
      kickoff_utc = accrued_identity (λ m. m.kickoff_utc) old new;
      payload = accrued_payload old new;
    }
