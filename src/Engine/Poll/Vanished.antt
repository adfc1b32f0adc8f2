-- ===== src/Engine/Poll/Vanished.antt =====
-- _hydrate_vanished_matches and _hydrate_vanished_backfill_matches of gamecollect/engine.py: the
-- matches that left the slate.
use gamealerts_collector.Prelude.{
  ℕ, suc, String, true, false, not, ◌&&◌, ◌||◌, List, [], ◌∷◌, ◌++◌, Option, none, some, leb,
  if◌then◌else◌, ◌==◌, string_eq,
}
use gamealerts_collector.Dict.{Dict, get}
use gamealerts_collector.Json.{text_le}
use gamealerts_collector.Provider.{is_live, NormalizedMatch}
use gamealerts_collector.FallbackMerge.{is_terminal, or_else}
use gamealerts_collector.Engine.Tracking.{
  Tracker, Tracking, tracker_at_cap, backfill_tracker_at_cap, tracker, backfill_tracker, listed,
  cooling_down,
}
use gamealerts_collector.Engine.GiveUp.{over}
use gamealerts_collector.Engine.Poll.State.{
  fetched, unavailable, shape_drift, View, Poll, queue, request, stored_snapshot, give_up,
  backfill_give_up, put_tracker, put_backfill, note_pending,
}
use gamealerts_collector.Engine.Poll.Board.{give_up_if_at_cap, fail_backfill}

-- `sorted` of a set: in the order of the texts, each once
unfoldable pub insert_id : String → List String → List String
insert_id id [] = id ∷ []
insert_id id (x ∷ ids) =
    if id == x then x ∷ ids else if text_le id x then id ∷ x ∷ ids else x ∷ insert_id id ids

unfoldable pub sorted_ids : List String → List String
unfolding insert_id
sorted_ids [] = []
sorted_ids (id ∷ ids) = insert_id id (sorted_ids ids)

-- the ids with a live baseline
unfoldable pub live_baselines : Dict NormalizedMatch → List String
live_baselines [] = []
live_baselines ((id, previous) ∷ d) =
    let rest = live_baselines d in if is_live previous.status then id ∷ rest else rest

abbrev pub keys {ℓ} : {V : Type ℓ} → Dict V → List String
keys [] = []
keys ((id, v) ∷ d) = id ∷ keys d

-- neither on the slate nor cooling down
unfoldable pub off_slate : List String → Tracking → List String → List String
unfolding listed
off_slate slate t [] = []
off_slate slate t (id ∷ ids) =
    let rest = off_slate slate t ids in
    if listed id slate || cooling_down id t then rest else id ∷ rest

unfoldable pub vanished_ids : View → List String → Tracking → List String
unfolding sorted_ids off_slate live_baselines
vanished_ids v slate t =
    sorted_ids (off_slate slate t (live_baselines v.last ++ keys t.transitions))

-- _transition_base
unfoldable pub transition_base : View → String → Tracker → Option NormalizedMatch
transition_base v id found = or_else (or_else (get id v.last) found.fallback) (stored_snapshot v id)

-- the tracker after a failed attempt
abbrev pub missed : Tracker → Tracker
missed found = record found {
  consecutive_failures = suc found.consecutive_failures;
  total_attempts = suc found.total_attempts;
}

-- `tracker.consecutive_failures = 0`
abbrev pub reset_failures : Tracker → Tracker
reset_failures found = record found { consecutive_failures = 0 }

-- the tracker after an attempt with a status that is not terminal, and _warn_nonterminal
abbrev pub outlived : Tracker → NormalizedMatch → Tracker
outlived found merged = record found {
  consecutive_failures = 0;
  total_attempts = suc found.total_attempts;
  last_reported_status = some merged.status;
}

-- the `except` of the detail fetch
unfoldable pub on_vanished_failure : View → String → Tracker → Poll → Poll
on_vanished_failure v id found p =
    let counted = missed found in
    let p' = put_tracker id counted p in give_up_if_at_cap v id counted none p' p'

abbrev pub if_live : NormalizedMatch → NormalizedMatch → Option NormalizedMatch
if_live detail merged = if is_live detail.status then some merged else none

unfoldable pub on_vanished_detail : View → String → Tracker → NormalizedMatch → Poll → Poll
unfolding transition_base
on_vanished_detail v id found detail p =
    let reset = reset_failures found in
    let merged = over (transition_base v id reset) detail in
    let counted = outlived found merged in
    let p' = put_tracker id counted p in
    if is_terminal detail.status
    then queue merged (put_tracker id reset p)
    else give_up_if_at_cap v id counted (if_live detail merged) p'
        (if is_live detail.status then queue merged p' else p')

-- the body of the loop over the vanished matches
unfoldable pub step_vanished : View → String → Poll → Poll
unfolding tracker on_vanished_failure on_vanished_detail
step_vanished v id p =
    let (found, t) = tracker id p.tracking in
    let p1 = record p { tracking = t } in
    let p2 = request id false p1 in
    if tracker_at_cap found then give_up v id found none p1 else elim (v.fetch_match_detail id) [
      | fetched detail ↦ on_vanished_detail v id found detail p2
      | unavailable ↦ on_vanished_failure v id found p2
      | shape_drift ↦ on_vanished_failure v id found p2
    ]

unfoldable pub run_vanished : View → List String → Poll → Poll
unfolding step_vanished
run_vanished v [] p = p
run_vanished v (id ∷ ids) p = run_vanished v ids (step_vanished v id p)

unfoldable pub on_backfill_failure : View → String → Tracker → Poll → Poll
unfolding backfill_tracker_at_cap
on_backfill_failure v id found p =
    let counted = record found { consecutive_failures = suc found.consecutive_failures } in
    let p' = put_backfill id counted p in
    if backfill_tracker_at_cap counted then backfill_give_up v id counted none p' else p'

unfoldable pub on_backfill_detail : View → String → Tracker → NormalizedMatch → Poll → Poll
unfolding fail_backfill
on_backfill_detail v id found detail p =
    let p1 = note_pending true id p in
    let merged = over found.fallback detail in
    if not (is_live merged.status) && not (is_terminal merged.status)
    then fail_backfill v id merged p1
    else queue merged p1

-- the body of the loop over the vanished backfills, and `fetches_this_pass`
unfoldable pub step_backfill : View → ℕ → String → ℕ × Poll → ℕ × Poll
unfolding backfill_tracker backfill_tracker_at_cap on_backfill_failure on_backfill_detail
step_backfill v budget id (n, p) =
    let (found, t) = backfill_tracker id p.tracking in
    let p1 = record p { tracking = t } in
    let p2 = request id true p1 in
    if backfill_tracker_at_cap found
    then (n, backfill_give_up v id found none p1)
    else if leb budget n
    then (n, p1)
    else (
      suc n,
      elim (v.fetch_match_detail id) [
        | fetched detail ↦ on_backfill_detail v id found detail p2
        | unavailable ↦ on_backfill_failure v id found p2
        | shape_drift ↦ on_backfill_failure v id found p2
      ],
    )

unfoldable pub run_backfill_pass : View → ℕ → List String → ℕ × Poll → ℕ × Poll
unfolding step_backfill
run_backfill_pass v budget [] s = s
run_backfill_pass v budget (id ∷ ids) s =
    run_backfill_pass v budget ids (step_backfill v budget id s)

-- _hydrate_vanished_backfill_matches
unfoldable pub hydrate_vanished_backfill_matches : View → List String → ℕ → Poll → Poll
unfolding off_slate sorted_ids run_backfill_pass
hydrate_vanished_backfill_matches v slate budget p =
    let ids = sorted_ids (off_slate slate p.tracking (keys p.tracking.backfill)) in
    (run_backfill_pass v budget ids (0, p)).1

-- _hydrate_vanished_matches
unfoldable pub hydrate_vanished_matches : View → List String → ℕ → Poll → Poll
unfolding vanished_ids run_vanished hydrate_vanished_backfill_matches
hydrate_vanished_matches v slate budget p =
    let p' = run_vanished v (vanished_ids v slate p.tracking) p in
    if v.backfill_finished_matches then hydrate_vanished_backfill_matches v slate budget p' else p'
