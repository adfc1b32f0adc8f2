-- ===== src/Engine/Tests.antt =====
-- Runs of _append_new_events and _apply of gamecollect/engine.py at concrete states.
use gamealerts_collector.Prelude.{◌≡◌, refl, true, List, [], ◌∷◌, map, some, arith, All, Member}
use gamealerts_collector.Provider.{NormalizedEvent}
use gamealerts_collector.Diffing.{MatchDiff, sort_by_seq}
use gamealerts_collector.Samples.{goal, yellow, final_board, world_cup, seeded}
use gamealerts_collector.Writer.Table.{Db, find_event, owner}
use gamealerts_collector.Writer.Action.{ok, ◌>>=◌, transaction}
use gamealerts_collector.Writer.Action.Returns.{Returns}
use gamealerts_collector.Writer.Rows.{pick, all_bindable}
use gamealerts_collector.Writer.Matches.{assert_match_owned}
use gamealerts_collector.Writer.Events.{
  append_events, max_seq, check_events, increasing, append_all, append_checked, store_event,
  matches_stored, insert_or_ignore, Values-discrete,
}
use gamealerts_collector.Writer.Valid.{IsValid}
use gamealerts_collector.Engine.Rows.{event_to_row, stored_events}
use gamealerts_collector.Engine.Rows.RoundTrip.{stored_events-append_events}
use gamealerts_collector.Engine.Reconcile.{
  Signature, drift_signature, conflict, Memory, append_new_events, Loop, reconcile_event,
  reconcile_events, reconcile_sequence_conflict,
}
use gamealerts_collector.Engine.Reconcile.Growth.{Grows, append_new_events-Grows}
use gamealerts_collector.Engine.Reconcile.Progress.{
  IsCaughtUp, reconcile_sequence_conflict-IsCaughtUp,
}
use gamealerts_collector.Engine.Apply.{Pack}

abbrev two_events : List NormalizedEvent
two_events = goal 0 12 ∷ yellow 1 40 ∷ []

abbrev stored : Db
stored = (append_events world_cup "1" (map event_to_row two_events) seeded).1

stored-Returns : Returns (append_events world_cup "1" (map event_to_row two_events)) seeded 2 stored
unfolding append_events check_events increasing append_all append_checked store_event matches_stored
    find_event max_seq assert_match_owned owner pick transaction ◌>>=◌ Values-discrete all_bindable
    event_to_row insert_or_ignore
stored-Returns = refl

stored_events-append_events_example :
    All (λ e. Member e (stored_events world_cup "1" stored)) two_events
stored_events-append_events_example =
    stored_events-append_events world_cup "1" two_events 2 seeded stored stored-Returns

abbrev no_memory : Memory
no_memory = record { logged = []; drifted = []; reports = [] }

abbrev corrected : Signature
corrected = drift_signature conflict (event_to_row (goal 0 13))

-- The next poll of the match, whose first event was corrected.
abbrev next_diff : MatchDiff
next_diff = record {
  match = final_board 2 0;
  state_changed = true;
  new_events = goal 0 13 ∷ yellow 5 60 ∷ [];
}

-- The events of the next poll, reconciled against the stored ones.
abbrev next_events : List NormalizedEvent
next_events = goal 0 13 ∷ yellow 5 60 ∷ []

abbrev reconciled : Loop
reconciled = (reconcile_sequence_conflict world_cup "1" "760440" next_events stored no_memory).1

accepted :
    reconcile_sequence_conflict world_cup "1" "760440" next_events stored no_memory
    ≡ (ok (stored_events world_cup "1" reconciled.db), reconciled)
unfolding reconcile_sequence_conflict reconcile_events reconcile_event append_events check_events
    increasing append_all append_checked store_event matches_stored find_event max_seq
    assert_match_owned owner pick transaction ◌>>=◌ Values-discrete all_bindable event_to_row
    insert_or_ignore stored_events sort_by_seq
accepted = refl

reconcile_sequence_conflict-IsCaughtUp_example :
    IsCaughtUp world_cup "1" stored next_events reconciled.db
      (stored_events world_cup "1" reconciled.db)
reconcile_sequence_conflict-IsCaughtUp_example =
    reconcile_sequence_conflict-IsCaughtUp world_cup "1" "760440" next_events
      (stored_events world_cup "1" reconciled.db) stored no_memory reconciled accepted
      ((omega arith, tt), (tt, tt))

append_new_events-Grows_example :
    Grows world_cup "1" stored (append_new_events world_cup "1" next_diff stored no_memory).1.0
append_new_events-Grows_example = append_new_events-Grows world_cup "1" next_diff stored no_memory

seeded-IsValid : IsValid seeded
seeded-IsValid = record { ordered = tt; owned = tt; mapped = tt }

abbrev working_pack : Pack
working_pack = record {
  seed_match = λ m db. (ok (some "1"), db);
  persist_side_tables = λ m id db. (true, db);
}
