-- ===== src/Record/Tests.antt =====
-- Recordings of gamecollect/record.py at concrete polls.
use gamealerts_collector.Prelude.{◌≡◌, ◌⊎◌, refl, Bool, true, false, List, [], ◌∷◌, none, some}
use gamealerts_collector.Provider.{NormalizedMatch}
use gamealerts_collector.Samples.{goal, final_board}
use gamealerts_collector.Record.{new_recorder, accumulate, skipped, written, flush, pending_count}
use gamealerts_collector.Record.Latest.{latest, observed, recorded_event, accumulate-latest}
use gamealerts_collector.Record.Flush.{flush-once}

-- A poll with one event, and a later one in which it is corrected.
abbrev polls : List NormalizedMatch
polls =
    record (final_board 2 0) { events = goal 0 12 ∷ [] }
    ∷ record (final_board 2 0) { events = goal 0 13 ∷ [] }
    ∷ []

accumulate-latest_example :
    recorded_event "760440" 0 (accumulate polls new_recorder)
    ≡ latest 0 (observed "760440" polls) none
accumulate-latest_example = accumulate-latest "760440" 0 polls

corrected : latest 0 (observed "760440" polls) none ≡ some (goal 0 13)
corrected = refl

abbrev fails : List NormalizedMatch → Bool
fails matches = false

flush-once_example :
    (flush (λ matches. true) (flush fails (accumulate polls new_recorder)).1
      ≡ (skipped, (flush fails (accumulate polls new_recorder)).1))
    × ((((flush fails (accumulate polls new_recorder)).0 ≡ written)
          × (pending_count (flush fails (accumulate polls new_recorder)).1 ≡ 0))
        ⊎ ((flush fails (accumulate polls new_recorder)).1.records
            ≡ (accumulate polls new_recorder).records))
flush-once_example = flush-once fails (λ matches. true) (accumulate polls new_recorder)
