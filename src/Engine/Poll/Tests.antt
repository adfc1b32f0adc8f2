-- ===== src/Engine/Poll/Tests.antt =====
-- Polls of gamecollect/engine.py at concrete states.
use gamealerts_collector.Prelude.{
  ◌≤◌, min, String, ◌≡◌, ◌≢◌, refl, true, false, List, [], ◌∷◌, none, some, arith, string_eq,
  ==_iff, inl, ◌==◌, if◌then◌else◌,
}
use gamealerts_collector.Json.{str}
use gamealerts_collector.Provider.{NormalizedMatch}
use gamealerts_collector.Samples.{final_board, world_cup, seeded}
use gamealerts_collector.Writer.Table.{MatchRow, ProviderRow, Db, empty}
use gamealerts_collector.Writer.Action.{ok}
use gamealerts_collector.Writer.Valid.{IsValid}
use gamealerts_collector.Engine.Reconcile.{Memory}
use gamealerts_collector.Engine.Tracking.{
  Tracker, new_tracker, Tracking, power_of_two, cooling_down,
}
use gamealerts_collector.Engine.Apply.{Pack}
use gamealerts_collector.Engine.Stored.{Candidate, stored_row, rows_report_live}
use gamealerts_collector.Engine.Stored.Authority.{IsMapped, stored_row-IsMapped}
use gamealerts_collector.Engine.Poll.State.{Fetched, fetched, unavailable, View}
use gamealerts_collector.Engine.Poll.Board.{classify, step_board}
use gamealerts_collector.Engine.Poll.Slate.{begin, fetch_poll_snapshots}
use gamealerts_collector.Engine.Poll.Budget.{backfill_requests, fetch_poll_snapshots-budget}
use gamealerts_collector.Engine.Poll.Kept.{IsKept}
use gamealerts_collector.Engine.Poll.Kept.Run.{fetch_poll_snapshots-IsKept}
use gamealerts_collector.Engine.Poll.Settled.{step_board-IsSettled}
use gamealerts_collector.Engine.Poll.Transit.{IsSettled}
use gamealerts_collector.Engine.Poll.Elsewhere.{IsSame, step_board-IsSame}
use gamealerts_collector.Engine.Poll.Once.{
  Config, Engine, slate, slate_unavailable, slate_shape_drift, poll_once, backoff,
  poll_and_next_delay,
}
use gamealerts_collector.Seed.{default_pack}
use gamealerts_collector.Seed.Contract.{default_pack-IsSound}
use gamealerts_collector.Engine.Poll.Once.Laws.{poll_once-IsValid}
use gamealerts_collector.Engine.Poll.Once.Baselines.{IsPolled, poll_once-IsPolled}
use gamealerts_collector.Engine.Poll.Once.Backoff.{run_polls, poll_and_next_delay-outage}

abbrev no_memory : Memory
no_memory = record { logged = []; drifted = []; reports = [] }

-- A stub of the provider's match, and the canonical row that it was reconciled onto.
abbrev reconciled : Db
reconciled = record empty {
  matches =
      ("wc:760440", record { source = "wc"; columns = ("status", str "FINISHED") ∷ [] })
      ∷ ("can-qat", record { source = "wc"; columns = ("status", str "IN_PLAY") ∷ [] })
      ∷ [];
  provider_match_map =
      record {
        source = "wc";
        provider = "espn";
        provider_match_id = "760440";
        match_id = "can-qat";
      }
      ∷ [];
}

abbrev mapping : ProviderRow
mapping = record {
  source = "wc";
  provider = "espn";
  provider_match_id = "760440";
  match_id = "can-qat";
}

abbrev canonical : MatchRow
canonical = record { source = "wc"; columns = ("status", str "IN_PLAY") ∷ [] }

stored_row-IsMapped_example :
    (c : Candidate) × (stored_row false "wc" reconciled "760440" ≡ some c)
    × IsMapped "wc" "760440" c.match_id reconciled.provider_match_map
stored_row-IsMapped_example =
    stored_row-IsMapped reconciled "wc" "760440" mapping canonical (inl refl) refl refl refl refl

-- the canonical row is live, whatever the stub says
canonical_wins : rows_report_live (stored_row false "wc" reconciled "760440") ≡ true
unfolding rows_report_live stored_row
canonical_wins = refl

-- The provider answers for one match, and fails for the others.
abbrev answers : String → Fetched
answers id = if id == "760440" then fetched (final_board 2 0) else unavailable

abbrev poll_view : View
poll_view = record {
  source = "wc";
  default_seed = true;
  backfill_finished_matches = true;
  last = [];
  db = empty;
  fetch_match_detail = answers;
}

abbrev tracking : List (String × Tracker) → Tracking
tracking transitions = record {
  transitions = transitions;
  backfill = [];
  cooldowns = [];
  memory = no_memory;
}

abbrev fresh : Tracking
fresh = tracking []

-- the match of the boards, which was live
abbrev followed_match : Tracking
followed_match = tracking (("760440", new_tracker none) ∷ [])

abbrev final : NormalizedMatch
final = record (final_board 2 0) { events = [] }

fetch_poll_snapshots-budget_example :
    backfill_requests (fetch_poll_snapshots poll_view false (final ∷ []) fresh).requests ≤ 5
fetch_poll_snapshots-budget_example = fetch_poll_snapshots-budget poll_view false (final ∷ []) fresh

-- a match that is seen first when it is finished is a backfill
first_sight : (classify poll_view final fresh).is_backfill ≡ true
unfolding classify rows_report_live stored_row cooling_down
first_sight = refl

fetch_poll_snapshots-IsKept_example :
    IsKept "760440" (fetch_poll_snapshots poll_view true [] followed_match).tracking
fetch_poll_snapshots-IsKept_example =
    fetch_poll_snapshots-IsKept poll_view "760440" true [] followed_match refl

step_board-IsSettled_example : IsSettled [] (step_board poll_view final (begin followed_match))
step_board-IsSettled_example = step_board-IsSettled poll_view final (begin followed_match) refl refl

-- another match, whose detail cannot be fetched
abbrev other_match : NormalizedMatch
other_match = record final { match_id = "7" }

not_answered : (d : NormalizedMatch) → unavailable ≡ fetched d → d.match_id ≡ "7"
not_answered d e = cc

apart : ◌≢◌ {A = String} "760440" "7"
apart = ground (arith, ==_iff {T = String} "760440" "7")

step_board-IsSame_example :
    IsSame "760440" followed_match
      (step_board poll_view other_match (begin followed_match)).tracking
step_board-IsSame_example =
    step_board-IsSame poll_view other_match (begin followed_match) "760440" not_answered apart

-- A pack that writes under one id.
abbrev working_pack : Pack
working_pack = record {
  seed_match = λ m db. (ok (some "1"), db);
  persist_side_tables = λ m id db. (true, db);
}

abbrev config : Pack → Config
config pack = record {
  pack = pack;
  writer = world_cup;
  default_seed = false;
  backfill_finished_matches = true;
}

abbrev engine : Engine
engine = record {
  tracking = followed_match;
  last = [];
  db = seeded;
  restart_scan_done = true;
  backoff_multiplier = 1;
  recorder = none;
}

-- The engine of a pack that brings no hooks.
abbrev plain : Config
plain = config (default_pack world_cup "2026-06-12T21:00Z")

poll_once-IsValid_example : IsValid (poll_once plain answers (slate (final ∷ [])) engine).1.db
poll_once-IsValid_example =
    poll_once-IsValid plain answers (slate (final ∷ [])) engine
      (default_pack-IsSound world_cup "2026-06-12T21:00Z")
      (record { ordered = tt; owned = tt; mapped = tt })

poll_once-IsPolled_example :
    IsPolled
      (config working_pack)
      answers
      final.match_id
      (slate (final ∷ []))
      engine
      (poll_once (config working_pack) answers (slate (final ∷ [])) engine).1
poll_once-IsPolled_example =
    poll_once-IsPolled (config working_pack) answers final.match_id (slate (final ∷ [])) engine

poll_and_next_delay-outage_example :
    (poll_and_next_delay (config working_pack) answers slate_shape_drift (
      run_polls
        (config working_pack)
        answers
        (slate_unavailable ∷ slate_unavailable ∷ slate_unavailable ∷ slate_unavailable ∷ [])
        engine)).0
    ≡ ok (backoff (min (power_of_two 4) 8))
poll_and_next_delay-outage_example =
    poll_and_next_delay-outage (config working_pack) answers
      (slate_unavailable ∷ slate_unavailable ∷ slate_unavailable ∷ slate_unavailable ∷ [])
      slate_shape_drift engine (tt, (tt, (tt, (tt, tt)))) tt refl
