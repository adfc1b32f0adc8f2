-- ===== src/Lib.antt =====
-- gamealerts-collector: the core of the collector that polls a match provider and keeps what it
-- reports in a database that several sources share.
--
-- A provider (src/gamecollect/provider.py) turns a feed into snapshots of matches. The engine
-- (src/gamecollect/engine.py) merges the snapshots of one poll, compares them with the last poll
-- (src/gamecollect/diffing.py), and hands what is new to a PartitionWriter
-- (src/gamecollect/db/writer.py). A match that leaves the feed in play is followed on accumulated
-- snapshots (src/gamecollect/fallback_merge.py).
--
-- Which file models what, with the functions under their own names:
-- - Provider: MatchStatus, NormalizedEvent and NormalizedMatch of src/gamecollect/provider.py.
-- - Json: JSON values, is_empty_payload_value and merge_payload_preserving_richer of
--   src/gamecollect/provider.py. What they promise is in Json/Merge.
-- - FallbackMerge: src/gamecollect/fallback_merge.py. accrue_fallback is cut into the choice of
--   the winner (vetoed, old_wins, winner, other) and one definition for each field.
-- - Merge: _STATUS_RANK, _merge_detail and _merge_over_base of src/gamecollect/engine.py.
-- - Diffing: src/gamecollect/diffing.py.
-- - Fold: src/gamecollect/fold.py.
-- - Writer: src/gamecollect/db/writer.py. Table holds the tables as records and lists, Action the
--   methods as functions from a database to a result and a database (a method that raises leaves
--   what it wrote unless its transaction rolls back), Rows the checks of a row, and Matches,
--   Events and Entities one definition for each method. Methods collects the methods in one
--   type of calls; run_calls is a schedule of calls by several writers, where SQLite's lock lets
--   one transaction run at a time.
-- - Engine: the rest of src/gamecollect/engine.py that is modelled. Rows is the round trip of an
--   event through its row; Reconcile appends a diff's events and reconciles a refused batch, with
--   the memory of logged drifts; Apply is _apply over a pack's hooks, which are a parameter;
--   Tracking keeps the trackers and the cooldowns of the matches that are followed, with
--   _on_durable_snapshot in Tracking/Durable; GiveUp is the snapshot that is persisted when a
--   match cannot be followed to its end.
-- - Engine/Stored: which stored row of src/gamecollect/engine.py stands for a provider id
--   (_stored_rows_for_provider), what is read from it, and _resolve_stored_provider_id.
-- - Engine/Poll: the poll loop of src/gamecollect/engine.py. State is what _fetch_poll_snapshots
--   keeps while it walks the slate; Board is its loop body, with classify for the tests that
--   choose a branch; Vanished is _hydrate_vanished_matches and its second pass for backfills;
--   Restart is the two restart scans; Slate is the whole function; and Once is poll_once, its
--   recorder and the backoff. Turn is the relation of the steps that a poll can take for one
--   match.
-- - Backfill: src/gamecollect/backfill.py, and the engine's queries for its skip check.
-- - Replay: src/gamecollect/replay.py. Record: src/gamecollect/record.py. Fixture:
--   src/gamecollect/fixture_io.py, between json.dumps and json.loads.
-- - Seed: default_seed_match of src/gamecollect/packs/spec.py, the seed hook of a pack that brings
--   none. Client: the typed views of src/gamecollect/client.py.
-- - Football: src/gamecollect_football/reconcile.py. Names has the keys of names, Nearest the
--   choice of the seeded match that a provider's match is, Orientation the turning round of home
--   and away, Adoption the moving of a stub's rows to the canonical match, and Seeding
--   seed_or_reconcile_match, the seed hook of the pack, which composes them.
-- - Reader: the queries of src/gamecollect/db/reader.py over the core tables.
-- - Prelude and Dict hold what the parts share: Boolean tests, lists, and association lists for
--   Python's dicts, in the order of insertion.
--
-- How values are represented:
-- - Python ints that the code only compares or adds are naturals. The status ranks are shifted
--   by one, since the source starts at -1.
-- - True, 1 and 1.0 are kept apart, but for the version of a fixture, and a float is carried by
--   its text.
-- - json.dumps(..., sort_keys=True) is represented by the value with its keys in order.
-- - A column that a row does not carry is NULL. SQLite's conversions between column types and
--   its NOT NULL checks are not modelled. Match ids are texts.
-- - The clock and the tables of the Unicode database are parameters.
-- - A provider is a parameter. Its fetch_match_detail is documented as a read, so within one poll
--   it is a function from a match id to a match or one of its two errors.
-- - A pack's seed hook is a parameter, and whether it is default_seed_match is a Boolean.
-- - A date is the number of its day, and the instant of a kickoff its number of seconds, which a
--   parameter reads from the text.
--
-- Every loop of the code modelled here is a recursion on a list, but for the days of
-- chunk_date_range, which count on fuel: one more than the last day is enough, since each round
-- goes one day on. A schedule of calls, a run of observations and a run of polls are lists of any
-- length.
--
-- Not modelled: the log lines of the engine but for the drifts, its admission lock, its jitter and
-- its signals; the text of fixtures and their files; the queries of side tables and the read
-- ports; the command line, the pack registry, the rest of the football pack, and the files, locks
-- and migrations of the database.
pub mod Prelude
pub mod Dict
pub mod Json
pub mod Provider
pub mod FallbackMerge
pub mod Merge
pub mod Diffing
pub mod Fold
pub mod Writer
pub mod Engine
pub mod Seed
pub mod Backfill
pub mod Replay
pub mod Record
pub mod Fixture
pub mod Reader
pub mod Client
pub mod Football
pub mod Samples
