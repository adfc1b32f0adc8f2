-- ===== src/Engine/GiveUp.antt =====
-- The snapshot that gamecollect/engine.py gives up with: _nonregress_over_stored,
-- _build_give_up_snapshot, _emit_give_up and _emit_backfill_give_up. `baseline` is the match's
-- entry of `_last`, and `stored` what _stored_match_snapshot reads. The baseline and the fallback
-- are taken to be two objects.
pub mod Monotone
pub mod Bounded
mod Tests
use gamealerts_collector.Prelude.{
  ℕ, suc, String, Bool, true, false, not, ◌&&◌, ◌||◌, List, [], ◌∷◌, ◌++◌, Option, none, some, ltb,
  if◌then◌else◌,
}
use gamealerts_collector.Dict.{Dict, get, insert, remove}
use gamealerts_collector.Provider.{MatchStatus, finished, NormalizedMatch}
use gamealerts_collector.FallbackMerge.{is_terminal, non_regressing_score, or_else, accrue_fallback}
use gamealerts_collector.Merge.{merge_over_base}
use gamealerts_collector.Engine.Tracking.{Tracker, Tracking, abandon, enter_cooldown}

abbrev pub max_give_up_emissions : ℕ
max_give_up_emissions = 3

-- The snapshot before the stored row is looked at: a live or reset status is closed, with no
-- clock, where the close is forced.
abbrev pub coerced : Bool → NormalizedMatch → Bool
coerced force_terminal snap = force_terminal && not (is_terminal snap.status)

abbrev pub closed : Bool → NormalizedMatch → NormalizedMatch
closed force_terminal snap =
    if coerced force_terminal snap
    then record snap { status = finished; minute = none; display_clock = none }
    else snap

-- _nonregress_over_stored
unfoldable pub nonregress_over_stored :
    Bool → NormalizedMatch → Option NormalizedMatch → NormalizedMatch
nonregress_over_stored force_terminal snap none =
    let c = closed force_terminal snap in
    record c {
      score_home = non_regressing_score snap.score_home none;
      score_away = non_regressing_score snap.score_away none;
    }
nonregress_over_stored force_terminal snap (some stored) =
    let c = closed force_terminal snap in
    let defers = coerced force_terminal snap || not (is_terminal snap.status) in
    let final = is_terminal stored.status in
    record c {
      score_home = non_regressing_score snap.score_home stored.score_home;
      score_away = non_regressing_score snap.score_away stored.score_away;
      status = if final && defers then stored.status else c.status;
      minute = if final then or_else c.minute stored.minute else c.minute;
      display_clock =
          if final then or_else c.display_clock stored.display_clock else c.display_clock;
    }

-- the tracker's fallback and the fresh snapshot, accumulated into one
abbrev pub accumulated : Option NormalizedMatch → Option NormalizedMatch → Option NormalizedMatch
accumulated fallback none = fallback
accumulated none (some fresh) = some fresh
accumulated (some old) (some fresh) = some (accrue_fallback (some old) fresh)

-- `_merge_over_base(base, candidate) if base is not None else candidate`
abbrev pub over : Option NormalizedMatch → NormalizedMatch → NormalizedMatch
over none candidate = candidate
over (some base) candidate = merge_over_base base candidate

-- The candidate, merged over the first of baseline, fallback and stored row that is not the
-- candidate itself.
unfoldable pub merged_candidate :
    Option NormalizedMatch
    → Option NormalizedMatch
    → Option NormalizedMatch
    → Option NormalizedMatch
    → Option NormalizedMatch
merged_candidate (some f) none baseline stored = some (over (or_else baseline stored) f)
merged_candidate fallback (some fresh) baseline stored = elim (accumulated fallback (some fresh)) [
  | none ↦ none
  | some c ↦ some (over (or_else baseline (or_else fallback stored)) c)
]
merged_candidate none none (some b) stored = some (over stored b)
merged_candidate none none none (some s) = some s
merged_candidate none none none none = none

-- _build_give_up_snapshot
unfoldable pub build_give_up_snapshot :
    Bool
    → Option NormalizedMatch
    → Option NormalizedMatch
    → Option NormalizedMatch
    → Option NormalizedMatch
    → Option NormalizedMatch
unfolding merged_candidate nonregress_over_stored
build_give_up_snapshot force_terminal fallback fresh baseline stored =
    elim (merged_candidate fallback fresh baseline stored) [
      | none ↦ none
      | some merged ↦ some (nonregress_over_stored force_terminal merged stored)
    ]

-- the tracker after one more emission
abbrev pub emitted : Tracker → Tracker
emitted tracker = record tracker { give_up_emissions = suc tracker.give_up_emissions }

-- _emit_give_up: what it appends to the poll's snapshots, and the state
unfoldable pub emit_give_up :
    String
    → Tracker
    → Option NormalizedMatch
    → Option NormalizedMatch
    → Option NormalizedMatch
    → Tracking
    → Option NormalizedMatch × Tracking
unfolding abandon
emit_give_up id tracker fresh baseline stored t =
    elim (build_give_up_snapshot true tracker.fallback fresh baseline stored) [
      | none ↦ (none, (abandon id t).1)
      | some snapshot ↦
          let counted = emitted tracker in
          if ltb max_give_up_emissions counted.give_up_emissions
          then (none, (abandon id t).1)
          else (
            some snapshot,
            record t {
              transitions = insert id (record counted { give_up_pending = true }) t.transitions;
            },
          )
    ]

-- the end of a backfill whose snapshot cannot be persisted
abbrev pub abandon_backfill : String → Tracker → Tracking → Tracking
abandon_backfill id tracker t =
    (enter_cooldown id tracker.fallback true (record t { backfill = remove id t.backfill })).1

-- _emit_backfill_give_up: the snapshot, whether the match is now in `_backfill_apply_pending`, and
-- the state
unfoldable pub emit_backfill_give_up :
    String
    → Tracker
    → Option NormalizedMatch
    → Option NormalizedMatch
    → Option NormalizedMatch
    → Tracking
    → Option NormalizedMatch × (Bool × Tracking)
unfolding enter_cooldown
emit_backfill_give_up id tracker fresh baseline stored t =
    elim (build_give_up_snapshot false tracker.fallback fresh baseline stored) [
      | none ↦ (none, (false, abandon_backfill id tracker t))
      | some snapshot ↦
          let counted = emitted tracker in
          if ltb max_give_up_emissions counted.give_up_emissions
          then (none, (false, abandon_backfill id tracker t))
          else (
            some snapshot,
            (
              true,
              record t {
                backfill = insert id (record counted { give_up_pending = true }) t.backfill;
              },
            ),
          )
    ]
