-- ===== src/Backfill/Tests.antt =====
-- Backfills of gamecollect/backfill.py at concrete states.
use gamealerts_collector.Prelude.{
  ℕ, ◌+◌, ◌≤◌, ◌≡◌, ◌↔◌, refl, true, false, [], ◌∷◌, some, arith, Member, ◌==◌, nat_eq,
  if◌then◌else◌,
}
use gamealerts_collector.Samples.{final_board, world_cup, seeded}
use gamealerts_collector.Writer.Action.{ok}
use gamealerts_collector.Engine.Reconcile.{Memory}
use gamealerts_collector.Engine.Apply.{Pack}
use gamealerts_collector.Backfill.{
  schedule, schedule_failed, chunk_date_range, HistoryProvider, Job, run_backfill,
}
use gamealerts_collector.Backfill.Chunks.{IsIncreasing, chunk_date_range-days}
use gamealerts_collector.Backfill.Report.{IsConsistent, run_backfill-IsConsistent}

chunk_date_range-days_example :
    ((day : ℕ) → Member day (chunk_date_range 10 12 1) ↔ ((10 ≤ day + 1) × (day ≤ 12 + 1)))
    × IsIncreasing (chunk_date_range 10 12 1)
chunk_date_range-days_example = chunk_date_range-days 10 12 1 (omega arith) (omega arith)

five_days : chunk_date_range 10 12 1 ≡ 9 ∷ 10 ∷ 11 ∷ 12 ∷ 13 ∷ []
unfolding chunk_date_range
five_days = refl

empty_window : chunk_date_range 12 10 1 ≡ []
unfolding chunk_date_range
empty_window = refl

-- A pack that writes under one id.
abbrev working_pack : Pack
working_pack = record {
  seed_match = λ m db. (ok (some "1"), db);
  persist_side_tables = λ m id db. (true, db);
}

-- One day has a finished match, and the next cannot be fetched.
abbrev history : HistoryProvider
history = record {
  fetch_schedule = λ day. if day == 10 then schedule (final_board 2 0 ∷ []) else schedule_failed;
  fetch_match_detail = λ id. some (final_board 2 0);
}

abbrev job : Job
job = record { pack = working_pack; writer = world_cup; default_seed = false; provider = history }

abbrev no_memory : Memory
no_memory = record { logged = []; drifted = []; reports = [] }

run_backfill-IsConsistent_example :
    IsConsistent (run_backfill job "wc" (10 ∷ 11 ∷ []) seeded no_memory).1
run_backfill-IsConsistent_example =
    run_backfill-IsConsistent job "wc" (10 ∷ 11 ∷ []) seeded no_memory
