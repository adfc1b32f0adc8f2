-- ===== src/FallbackMerge/Tests.antt =====
-- Runs of the merge of fallbacks, and its theorems at concrete snapshots.
use gamealerts_collector.Prelude.{◌≡◌, refl, true, false, none, some, [], ◌∷◌, All}
use gamealerts_collector.Provider.{NormalizedMatch, MatchStatus-discrete}
use gamealerts_collector.Samples.{live_board, final_board}
use gamealerts_collector.FallbackMerge.{
  live_supersedes_captured, clock_eligible, paired_clock, vetoed, accrue_fallback, winner, other,
}
use gamealerts_collector.FallbackMerge.Accrual.{Covers, accrue_run, accrue_run-Covers}

later_board : live_supersedes_captured (live_board 70 1 0) (final_board 1 0) ≡ false
unfolding live_supersedes_captured
later_board = refl

scored_board : live_supersedes_captured (live_board 70 2 0) (final_board 1 0) ≡ true
unfolding live_supersedes_captured
scored_board = refl

scored_again : live_supersedes_captured (live_board 80 3 0) (live_board 70 2 0) ≡ true
unfolding live_supersedes_captured
scored_again = refl

-- A final board keeps its clock and its events over an inflated live board.
final_over_live :
    (accrue_fallback (some (live_board 88 3 0)) (final_board 2 0)).display_clock ≡ some "FT"
unfolding accrue_fallback winner other paired_clock vetoed clock_eligible MatchStatus-discrete
final_over_live = refl

-- A final board that knows its minute and not its clock.
abbrev timed_board : NormalizedMatch
timed_board = record (final_board 1 0) { minute = some 90; display_clock = none }

accrue_run-Covers_example :
    All
      (Covers (
        accrue_run
          (live_board 10 0 0)
          (live_board 50 2 0 ∷ live_board 60 1 0 ∷ final_board 2 1 ∷ [])))
      (live_board 50 2 0 ∷ live_board 60 1 0 ∷ final_board 2 1 ∷ [])
accrue_run-Covers_example =
    accrue_run-Covers (live_board 10 0 0)
      (live_board 50 2 0 ∷ live_board 60 1 0 ∷ final_board 2 1 ∷ [])
