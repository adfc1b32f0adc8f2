-- ===== src/Engine/Poll/Board.antt =====
-- The body of the loop of _fetch_poll_snapshots of gamecollect/engine.py: what a poll makes of one
-- board of the slate.
use gamealerts_collector.Prelude.{
  suc, String, Bool, true, false, not, ◌&&◌, ◌||◌, ◌∷◌, Option, none, some, ltb, leb, if◌then◌else◌,
  is_some,
}
use gamealerts_collector.Dict.{get, contains, insert}
use gamealerts_collector.Provider.{is_live, NormalizedMatch}
use gamealerts_collector.FallbackMerge.{is_terminal, accrue_fallback}
use gamealerts_collector.Merge.{merge_detail}
use gamealerts_collector.Engine.Stored.{Candidate, stored_row, rows_report_live}
use gamealerts_collector.Engine.Tracking.{
  Cooldown, Tracker, Tracking, tracker_at_cap, backfill_tracker_at_cap, first_sight_finished,
  live_to_terminal_transition, tracker, backfill_tracker, register_backfill_apply_failure,
  cooling_down,
}
use gamealerts_collector.Engine.Tracking.Durable.{reset_resumption_budget}
use gamealerts_collector.Engine.Poll.State.{
  backfill_max_fetches_per_poll, fetched, unavailable, shape_drift, View, Poll, queue, give_up,
  backfill_give_up, put_tracker, put_backfill, note_pending, charge,
}

-- what the loop finds out of a board before it acts
pub record Case : Type 0 where
  pub was_live : Bool
  pub deferred : Bool
  pub is_backfill : Bool
  pub in_transition : Bool
  pub cooling : Bool

-- `previous is not None and previous.status in LIVE_STATUSES`
abbrev pub baseline_live : Option NormalizedMatch → Bool
baseline_live none = false
baseline_live (some previous) = is_live previous.status

-- the match has no baseline that is live, and no tracker
abbrev pub followed : View → String → Tracking → Bool
followed v id t = baseline_live (get id v.last) || contains id t.transitions

-- the stored row, which the loop reads only where memory says nothing
abbrev pub probe : View → NormalizedMatch → Tracking → Option Candidate
probe v match t =
    if not (followed v match.match_id t)
      && (not (is_some (get match.match_id v.last)) && not (is_live match.status))
    then stored_row v.default_seed v.source v.db match.match_id
    else none

-- the match waits since a backfill was given up
abbrev pub backfill_cooling : Option Cooldown → Bool
backfill_cooling none = false
backfill_cooling (some c) = ltb 0 c.remaining && c.is_backfill_origin

unfoldable pub classify : View → NormalizedMatch → Tracking → Case
unfolding first_sight_finished live_to_terminal_transition
classify v match t =
    let previous = get match.match_id v.last in
    let row = probe v match t in
    let was_live = followed v match.match_id t || rows_report_live row in
    let pending_backfill_retry =
      v.backfill_finished_matches
      && (contains match.match_id t.backfill && (not (is_live match.status) && not was_live)) in
    let first_sight = first_sight_finished previous match.status was_live (is_some row) in
    record {
      was_live = was_live;
      deferred =
          v.backfill_finished_matches
          && (not (is_some previous)
              && (not was_live
                  && (not (is_some row) && backfill_cooling (get match.match_id t.cooldowns))));
      is_backfill =
          v.backfill_finished_matches
          && ((first_sight && not (cooling_down match.match_id t)) || pending_backfill_retry);
      in_transition = live_to_terminal_transition was_live match.status;
      cooling = cooling_down match.match_id t;
    }

abbrev pub give_up_if_at_cap : View → String → Tracker → Option NormalizedMatch → Poll → Poll → Poll
give_up_if_at_cap v id found fresh p otherwise =
    if tracker_at_cap found then give_up v id found fresh p else otherwise

-- a failed attempt of a backfill: _register_backfill_apply_failure, and the give-up at the cap
unfoldable pub fail_backfill : View → String → NormalizedMatch → Poll → Poll
unfolding register_backfill_apply_failure backfill_tracker_at_cap
fail_backfill v id match p =
    let (found, t) = register_backfill_apply_failure match p.tracking in
    let p' = record p { tracking = t } in
    if backfill_tracker_at_cap found then backfill_give_up v id found (some match) p' else p'

-- `cooldown.fallback = _accrue_fallback(cooldown.fallback, match)`, and the flag of
-- _log_drift_while_cooling
unfoldable pub accrue_while_cooling : String → NormalizedMatch → Bool → Poll → Poll
accrue_while_cooling id match drift p = elim (get id p.tracking.cooldowns) [
  | none ↦ p
  | some c ↦ record p {
    tracking = record p.tracking {
      cooldowns =
          insert id
            (record c {
              fallback = some (accrue_fallback c.fallback match);
              drift_logged = c.drift_logged || drift;
            })
            p.tracking.cooldowns;
    };
  }
]

-- the tracker after a failed attempt
abbrev pub failed : Tracker → NormalizedMatch → Tracker
failed found match = record found {
  fallback = some (accrue_fallback found.fallback match);
  consecutive_failures = suc found.consecutive_failures;
  total_attempts = suc found.total_attempts;
}

-- the tracker after an attempt with a status that is not terminal, and _warn_nonterminal
abbrev pub unfinished : Tracker → NormalizedMatch → Tracker
unfinished found merged = record found {
  fallback = some (accrue_fallback found.fallback merged);
  total_attempts = suc found.total_attempts;
  last_reported_status = some merged.status;
}

-- the `except` of the detail fetch
unfoldable pub on_failure : View → Case → NormalizedMatch → Bool → Poll → Poll
unfolding tracker tracker_at_cap fail_backfill accrue_while_cooling
on_failure v c match drift p =
    let id = match.match_id in
    let (found, t) = tracker id p.tracking in
    let counted = failed found match in
    let p' = put_tracker id counted (record p { tracking = t }) in
    if c.is_backfill
    then fail_backfill v id match p
    else if c.in_transition && c.cooling
    then accrue_while_cooling id match drift p
    else if not c.in_transition
    then queue match p
    else give_up_if_at_cap v id counted (some match) p' p'

-- `tracker.consecutive_failures = 0` where the match has a tracker
unfoldable pub clear_failures : String → Poll → Poll
clear_failures id p = elim (get id p.tracking.transitions) [
  | none ↦ p
  | some found ↦ put_tracker id (record found { consecutive_failures = 0 }) p
]

abbrev pub queue_if_live : NormalizedMatch → Poll → Poll
queue_if_live match p = if is_live match.status then queue match p else p

-- a transition whose merged status is not terminal
unfoldable pub on_nonterminal : View → Case → String → NormalizedMatch → Poll → Poll
unfolding tracker tracker_at_cap accrue_while_cooling
on_nonterminal v c id merged p =
    let (found, t) = tracker id p.tracking in
    let counted = unfinished found merged in
    let p' = put_tracker id counted (record p { tracking = t }) in
    if c.cooling
    then queue_if_live merged (accrue_while_cooling id merged false p)
    else give_up_if_at_cap v id counted (some merged) p' (queue_if_live merged p')

-- what follows a detail fetch that succeeds
unfoldable pub on_detail : View → Case → NormalizedMatch → NormalizedMatch → Poll → Poll
unfolding clear_failures on_nonterminal fail_backfill
on_detail v c match detail p =
    let id = match.match_id in
    let p1 = note_pending c.is_backfill id (clear_failures id p) in
    let merged = merge_detail match detail in
    if c.in_transition && not (is_terminal merged.status)
    then on_nonterminal v c id merged p1
    else if c.is_backfill && (not (is_live merged.status) && not (is_terminal merged.status))
    then fail_backfill v id merged p1
    else queue merged p1

-- the `try` of the detail fetch
unfoldable pub hydrate : View → Case → NormalizedMatch → Poll → Poll
unfolding on_failure on_detail
hydrate v c match p =
    let p1 = charge match.match_id c.is_backfill p in
    elim (v.fetch_match_detail match.match_id) [
      | fetched detail ↦ on_detail v c match detail p1
      | unavailable ↦ on_failure v c match false p1
      | shape_drift ↦ on_failure v c match true p1
    ]

-- a candidate that the budget cannot cover: a tracker with no failure
unfoldable pub defer_backfill : NormalizedMatch → Poll → Poll
unfolding backfill_tracker
defer_backfill match p =
    let (found, t) = backfill_tracker match.match_id p.tracking in
    let seeded = record found { fallback = some (accrue_fallback found.fallback match) } in
    put_backfill match.match_id seeded (record p { tracking = t })

-- the tracker, where its give-up is due
abbrev pub due : Bool → (Tracker → Bool) → Option Tracker → Option Tracker
due false at_cap o = none
due true at_cap none = none
due true at_cap (some found) = if at_cap found then some found else none

-- the backfill's turn: a due give-up, the budget, or the fetch
unfoldable pub budgeted : View → Case → NormalizedMatch → Poll → Poll
unfolding hydrate defer_backfill
budgeted v c match p =
    let held = get match.match_id p.tracking.backfill in
    elim (due c.is_backfill backfill_tracker_at_cap held) [
      | some found ↦ backfill_give_up v match.match_id found (some match) p
      | none ↦
          if c.is_backfill && leb backfill_max_fetches_per_poll p.backfill_fetches
          then (if is_some held then p else defer_backfill match p)
          else hydrate v c match p
    ]

-- a board that is not passed over
unfoldable pub process : View → Case → NormalizedMatch → Poll → Poll
unfolding budgeted
process v c match p =
    elim (due c.in_transition tracker_at_cap (get match.match_id p.tracking.transitions)) [
      | some found ↦ if c.cooling then p else give_up v match.match_id found (some match) p
      | none ↦ budgeted v c match p
    ]

-- a live board resumes its match
abbrev pub resume : NormalizedMatch → Poll → Poll
resume match p =
    if is_live match.status
    then record p {
      live_resumptions = match.match_id ∷ p.live_resumptions;
      tracking = reset_resumption_budget match.match_id p.tracking;
    }
    else p

abbrev pub act : View → Case → NormalizedMatch → Poll → Poll
act v c match p =
    if c.deferred
    then p
    else if not (is_live match.status) && (not c.was_live && not c.is_backfill)
    then queue match p
    else process v c match p

-- the body of the loop
unfoldable pub step_board : View → NormalizedMatch → Poll → Poll
unfolding classify process reset_resumption_budget
step_board v match p = let p' = resume match p in act v (classify v match p'.tracking) match p'
