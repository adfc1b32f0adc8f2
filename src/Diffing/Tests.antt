-- ===== src/Diffing/Tests.antt =====
-- Runs of the diff, and its theorems at concrete snapshots.
use gamealerts_collector.Prelude.{◌↔◌, some, [], ◌∷◌, Member, arith}
use gamealerts_collector.Provider.{NormalizedMatch}
use gamealerts_collector.Samples.{goal, yellow, live_board, final_board}
use gamealerts_collector.Diffing.{diff_match}
use gamealerts_collector.Diffing.Exact.{HasUniqueSeqs, diff_match-new_events}

unique_events : HasUniqueSeqs (final_board 2 0).events
unique_events = ((omega arith, tt), (tt, tt))

diff_match-new_events_example :
    Member (yellow 1 40) (diff_match (final_board 2 0) (some (live_board 88 2 0))).new_events
    ↔ (Member (yellow 1 40) (final_board 2 0).events × ¬ (Member (yellow 1 40) []))
diff_match-new_events_example =
    diff_match-new_events (final_board 2 0) (some (live_board 88 2 0)) (yellow 1 40) tt

-- Two events that come in the wrong order.
abbrev shuffled_board : NormalizedMatch
shuffled_board = record (final_board 2 0) { events = yellow 1 40 ∷ goal 0 12 ∷ [] }
