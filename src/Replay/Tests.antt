-- ===== src/Replay/Tests.antt =====
-- Replays of gamecollect/replay.py at concrete matches.
use gamealerts_collector.Prelude.{◌≡◌, refl, false, [], ◌∷◌, none}
use gamealerts_collector.Provider.{NormalizedMatch}
use gamealerts_collector.Diffing.{sort_by_seq}
use gamealerts_collector.Samples.{goal, yellow, final_board}
use gamealerts_collector.Replay.{ReplayProvider, take}

-- Two events that come in the wrong order.
abbrev shuffled : NormalizedMatch
shuffled = record (final_board 2 0) { events = yellow 1 40 ∷ goal 0 12 ∷ [] }

goal_first : take 1 (sort_by_seq shuffled.events) ≡ goal 0 12 ∷ []
unfolding take sort_by_seq
goal_first = refl

-- A paced replay, sixty times as fast as the match.
abbrev paced : ReplayProvider
paced = record {
  match = final_board 2 0;
  events = goal 0 12 ∷ yellow 1 40 ∷ [];
  step_mode = false;
  speed = 60;
  revealed = 0;
  start = none;
}
