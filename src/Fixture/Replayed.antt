-- ===== src/Fixture/Replayed.antt =====
-- A match that is recorded as a fixture of gamecollect/fixture_io.py and replayed by
-- gamecollect/replay.py.
use gamealerts_collector.Prelude.{◌≡◌, ◌∙◌, ap, List, some, arith, length}
use gamealerts_collector.Json.{Value}
use gamealerts_collector.Provider.{NormalizedMatch}
use gamealerts_collector.Diffing.{sort_by_seq}
use gamealerts_collector.Diffing.Order.{sort_by_seq-IsSorted}
use gamealerts_collector.Diffing.Exact.{HasUniqueSeqs}
use gamealerts_collector.Replay.{step_provider, take, snapshot}
use gamealerts_collector.Replay.Steps.{
  after_polls, take-all, length-sort_by_seq, after_polls-snapshot,
}
use gamealerts_collector.Fixture.{Fixture, write_fixture, read_fixture}
use gamealerts_collector.Fixture.RoundTrip.{
  in_order, sort_by_seq-sorted, read_fixture-write_fixture,
}

-- If no two events of a match have the same seq, then the fixture that is written for it
-- and read again, replayed in step mode for as many polls as the match has events, shows
-- the match, with its events in the order of their seqs.
pub write_fixture-replayed :
    (m : NormalizedMatch) (entities standings : List Value)
    → HasUniqueSeqs m.events
    → (f : Fixture) × (read_fixture (write_fixture m entities standings) ≡ some f)
      × (snapshot (after_polls (length m.events) (step_provider f.match)) ≡ in_order m)
write_fixture-replayed m entities standings u =
    let sorted = sort_by_seq m.events in
    let again = sort_by_seq-sorted sorted (sort_by_seq-IsSorted m.events) in
    let enough : take (length m.events) (sort_by_seq sorted) ≡ sorted =
      ap (take (length m.events)) again
      ∙ take-all (length m.events) sorted (omega (arith, length-sort_by_seq m.events)) in
    (
      record { match = in_order m; entities = entities; standings = standings },
      read_fixture-write_fixture m entities standings u,
      after_polls-snapshot (in_order m) (length m.events)
          ∙ ap (λ es. record m { events = es }) enough,
    )
