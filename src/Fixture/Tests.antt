-- ===== src/Fixture/Tests.antt =====
-- Fixtures of gamecollect/fixture_io.py at concrete matches.
use gamealerts_collector.Prelude.{◌≡◌, refl, [], ◌∷◌, none, some, arith, length}
use gamealerts_collector.Json.{Value, int}
use gamealerts_collector.Provider.{NormalizedMatch}
use gamealerts_collector.Diffing.Order.{IsSorted}
use gamealerts_collector.Diffing.Exact.{HasUniqueSeqs}
use gamealerts_collector.Samples.{goal, final_board}
use gamealerts_collector.Replay.{step_provider, snapshot}
use gamealerts_collector.Replay.Steps.{after_polls}
use gamealerts_collector.Fixture.{Fixture, write_fixture, read_fixture}
use gamealerts_collector.Fixture.RoundTrip.{in_order, read_fixture-write_fixture}
use gamealerts_collector.Fixture.Rejects.{read_fixture_unique}
use gamealerts_collector.Fixture.Replayed.{write_fixture-replayed}

unique_events : HasUniqueSeqs (final_board 2 0).events
unique_events = ((omega arith, tt), (tt, tt))

abbrev fixture : Fixture
fixture = record { match = in_order (final_board 2 0); entities = []; standings = [] }

read_fixture-write_fixture_example :
    read_fixture (write_fixture (final_board 2 0) [] []) ≡ some fixture
read_fixture-write_fixture_example =
    read_fixture-write_fixture (final_board 2 0) [] [] unique_events

written : read_fixture (write_fixture (final_board 2 0) [] []) ≡ some fixture
written = read_fixture-write_fixture (final_board 2 0) [] [] unique_events

read_fixture_unique_example : IsSorted fixture.match.events × HasUniqueSeqs fixture.match.events
read_fixture_unique_example =
    read_fixture_unique (write_fixture (final_board 2 0) [] []) fixture written

write_fixture-replayed_example :
    (f : Fixture) × (read_fixture (write_fixture (final_board 2 0) [] []) ≡ some f)
    × (snapshot (after_polls (length (final_board 2 0).events) (step_provider f.match))
        ≡ in_order (final_board 2 0))
write_fixture-replayed_example = write_fixture-replayed (final_board 2 0) [] [] unique_events

-- a seq that comes twice is refused
abbrev twice : NormalizedMatch
twice = record (final_board 2 0) { events = goal 0 12 ∷ goal 0 13 ∷ [] }

refused : read_fixture (write_fixture twice [] []) ≡ none
unfolding read_fixture write_fixture gamealerts_collector.Json.fields_of
refused = refl
