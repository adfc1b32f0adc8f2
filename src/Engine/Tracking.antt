-- ===== src/Engine/Tracking.antt =====
-- The trackers and cooldowns of gamecollect/engine.py: what the engine keeps, in memory, of the
-- matches that it follows to their end. A tracker or a cooldown that the code changes in place
-- is written back to its dict. Of the log only the drifts are modelled (Reconcile).
pub mod Aging
pub mod Durable
use gamealerts_collector.Prelude.{
  ℕ, zero, suc, ◌+◌, ◌-◌, ◌*◌, String, Bool, true, false, not, ◌&&◌, ◌||◌, List, [], ◌∷◌, Option,
  none, some, min, ltb, leb, if◌then◌else◌, ◌==◌, string_eq, nat_eq,
}
use gamealerts_collector.Dict.{Dict, get, contains, insert, remove}
use gamealerts_collector.Provider.{MatchStatus, is_live, NormalizedMatch}
use gamealerts_collector.FallbackMerge.{
  is_terminal, live_supersedes_cooldown_fallback, live_supersedes_fallback,
  fallback_worth_retaining, accrue_fallback,
}
use gamealerts_collector.Engine.Reconcile.{Memory}

-- _COOLDOWN_BASE_POLLS, _COOLDOWN_MAX_POLLS and the caps on attempts
abbrev pub cooldown_base_polls : ℕ
cooldown_base_polls = 8

abbrev pub cooldown_max_polls : ℕ
cooldown_max_polls = 256

abbrev pub max_transition_detail_failures : ℕ
max_transition_detail_failures = 3

abbrev pub max_transition_total_attempts : ℕ
max_transition_total_attempts = 10

abbrev pub backfill_max_attempts : ℕ
backfill_max_attempts = 3

pub record Cooldown : Type 0 where
  pub remaining : ℕ
  pub epoch : ℕ
  pub expired_unseen : ℕ
  pub fallback : Option NormalizedMatch
  pub drift_logged : Bool
  pub is_backfill_origin : Bool

pub record Tracker : Type 0 where
  pub fallback : Option NormalizedMatch
  pub consecutive_failures : ℕ
  pub total_attempts : ℕ
  pub give_up_pending : Bool
  pub give_up_emissions : ℕ
  pub last_reported_status : Option MatchStatus

-- `_TransitionTracker(fallback=…)`
abbrev pub new_tracker : Option NormalizedMatch → Tracker
new_tracker fallback = record {
  fallback = fallback;
  consecutive_failures = 0;
  total_attempts = 0;
  give_up_pending = false;
  give_up_emissions = 0;
  last_reported_status = none;
}

-- `_transitions`, `_backfill`, `_cooldowns` and the drift memory
pub record Tracking : Type 0 where
  pub transitions : Dict Tracker
  pub backfill : Dict Tracker
  pub cooldowns : Dict Cooldown
  pub memory : Memory

unfoldable pub tracker_at_cap : Tracker → Bool
tracker_at_cap t =
    t.give_up_pending
    || (leb max_transition_detail_failures t.consecutive_failures
        || leb max_transition_total_attempts t.total_attempts)

unfoldable pub backfill_tracker_at_cap : Tracker → Bool
backfill_tracker_at_cap t = t.give_up_pending || leb backfill_max_attempts t.consecutive_failures

unfoldable pub first_sight_finished : Option NormalizedMatch → MatchStatus → Bool → Bool → Bool
first_sight_finished none status was_live has_stored_row =
    is_terminal status && (not was_live && not has_stored_row)
first_sight_finished (some previous) status was_live has_stored_row = false

unfoldable pub live_to_terminal_transition : Bool → MatchStatus → Bool
live_to_terminal_transition was_live status = was_live && not (is_live status)

-- the fallback that a fresh tracker takes over from the match's cooldown
abbrev pub seed : Option Cooldown → Option NormalizedMatch
seed none = none
seed (some c) = elim c.fallback [ none ↦ none | some f ↦ some (accrue_fallback none f) ]

-- _tracker
unfoldable pub tracker : String → Tracking → Tracker × Tracking
tracker id t = elim (get id t.transitions) [
  | some found ↦ (found, t)
  | none ↦
      let fresh = new_tracker (seed (get id t.cooldowns)) in
      (fresh, record t { transitions = insert id fresh t.transitions })
]

-- _backfill_tracker
unfoldable pub backfill_tracker : String → Tracking → Tracker × Tracking
backfill_tracker id t = elim (get id t.backfill) [
  | some found ↦ (found, t)
  | none ↦
      let fresh = new_tracker (seed (get id t.cooldowns)) in
      (fresh, record t { backfill = insert id fresh t.backfill })
]

unfoldable pub register_backfill_apply_failure : NormalizedMatch → Tracking → Tracker × Tracking
unfolding backfill_tracker
register_backfill_apply_failure match t =
    let (found, t') = backfill_tracker match.match_id t in
    let counted = record found {
      fallback = some (accrue_fallback found.fallback match);
      consecutive_failures = suc found.consecutive_failures;
    } in
    (counted, record t' { backfill = insert match.match_id counted t'.backfill })

-- `match_id in ids`
unfoldable pub listed : String → List String → Bool
listed id [] = false
listed id (x ∷ ids) = if x == id then true else listed id ids

-- _evict_match_tracking
unfoldable pub evict_match_tracking : String → Bool → Tracking → Tracking
unfolding listed
evict_match_tracking id force_drift t = record t {
  cooldowns = remove id t.cooldowns;
  memory =
      if force_drift || not (listed id t.memory.drifted)
      then record t.memory { logged = remove id t.memory.logged }
      else t.memory;
}

-- One cooldown, one poll later. The match is seen if it is on the slate or tracked.
unfoldable pub aged : Bool → Cooldown → Cooldown
aged is_seen c =
    if ltb 0 c.remaining
    then record c { remaining = c.remaining - 1; expired_unseen = 0 }
    else if is_seen
    then record c { expired_unseen = 0 }
    else record c { expired_unseen = suc c.expired_unseen }

-- `purge.append(match_id)`
unfoldable pub is_purged : Bool → Cooldown → Bool
is_purged is_seen c =
    not (ltb 0 c.remaining) && (not is_seen && leb cooldown_max_polls (suc c.expired_unseen))

abbrev pub is_seen : List String → Tracking → String → Bool
is_seen slate t id = listed id slate || (contains id t.transitions || contains id t.backfill)

unfoldable pub age_entries : (String → Bool) → Dict Cooldown → Dict Cooldown
unfolding aged
age_entries sees [] = []
age_entries sees ((id, c) ∷ d) = (id, aged (sees id) c) ∷ age_entries sees d

unfoldable pub to_purge : (String → Bool) → Dict Cooldown → List String
unfolding is_purged
to_purge sees [] = []
to_purge sees ((id, c) ∷ d) =
    let rest = to_purge sees d in if is_purged (sees id) c then id ∷ rest else rest

unfoldable pub evict_all : List String → Tracking → Tracking
evict_all [] t = t
evict_all (id ∷ ids) t = evict_all ids (evict_match_tracking id true t)

-- _age_cooldowns
unfoldable pub age_cooldowns : List String → Tracking → Tracking
age_cooldowns slate t =
    evict_all (to_purge (is_seen slate t) t.cooldowns)
      (record t { cooldowns = age_entries (is_seen slate t) t.cooldowns })

unfoldable pub cooling_down : String → Tracking → Bool
cooling_down id t = elim (get id t.cooldowns) [ none ↦ false | some c ↦ ltb 0 c.remaining ]

-- `2 ** n`
unfoldable pub power_of_two : ℕ → ℕ
power_of_two zero = 1
power_of_two (suc n) = 2 * power_of_two n

abbrev pub next_epoch : Option Cooldown → ℕ
next_epoch none = 1
next_epoch (some c) = c.epoch + 1

-- the richest of what the earlier cooldown and the abandoned tracker know
abbrev pub carry : Option Cooldown → Option NormalizedMatch → Option NormalizedMatch
carry none fallback = fallback
carry (some c) fallback = elim c.fallback [
  | none ↦ fallback
  | some old ↦ elim fallback [ none ↦ some old | some new ↦ some (accrue_fallback (some old) new) ]
]

-- _enter_cooldown
unfoldable pub enter_cooldown : String → Option NormalizedMatch → Bool → Tracking → ℕ × Tracking
unfolding power_of_two
enter_cooldown id fallback is_backfill_origin t =
    let previous = get id t.cooldowns in
    let epoch = next_epoch previous in
    (
      epoch,
      record t {
        cooldowns =
            insert id
              (record {
                remaining = min (cooldown_base_polls * power_of_two (epoch - 1)) cooldown_max_polls;
                epoch = epoch;
                expired_unseen = 0;
                fallback = carry previous fallback;
                drift_logged = false;
                is_backfill_origin = is_backfill_origin;
              })
              t.cooldowns;
      },
    )

-- `tracker.fallback if tracker is not None else None`
abbrev pub fallback_of : Option Tracker → Option NormalizedMatch
fallback_of none = none
fallback_of (some found) = found.fallback

-- _abandon, but for its log
unfoldable pub abandon : String → Tracking → ℕ × Tracking
unfolding enter_cooldown
abandon id t =
    enter_cooldown id (fallback_of (get id t.transitions)) false
      (record t { transitions = remove id t.transitions })
