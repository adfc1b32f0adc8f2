-- ===== src/Engine/GiveUp/Tests.antt =====
-- Trackers, cooldowns and give-ups at concrete states.
use gamealerts_collector.Prelude.{
  ℕ, zero, suc, ◌+◌, ◌*◌, ◌≤◌, min, String, ◌≡◌, refl, true, false, ltb, List, [], ◌∷◌, none, some,
  arith, All, length,
}
use gamealerts_collector.Provider.{NormalizedMatch}
use gamealerts_collector.Samples.{live_board, final_board}
use gamealerts_collector.FallbackMerge.{is_terminal, accrue_fallback}
use gamealerts_collector.Merge.{merge_over_base}
use gamealerts_collector.Engine.Reconcile.{Memory}
use gamealerts_collector.Engine.Tracking.{
  Cooldown, new_tracker, Tracking, cooling_down, enter_cooldown, listed,
}
use gamealerts_collector.Engine.Tracking.Durable.{on_durable_snapshot}
use gamealerts_collector.Engine.Tracking.Durable.Resolved.{
  IsForgotten, on_durable_snapshot-IsForgotten,
}
use gamealerts_collector.Engine.Tracking.Aging.{interval}
use gamealerts_collector.Engine.Tracking.Aging.Gate.{Step, aging, durable, run_steps}
use gamealerts_collector.Engine.Tracking.Aging.Lapse.{cooling_down-enter_cooldown}
use gamealerts_collector.Engine.GiveUp.{
  build_give_up_snapshot, nonregress_over_stored, emit_give_up,
}
use gamealerts_collector.Engine.GiveUp.Monotone.{CoversAll, build_give_up_snapshot-Covers}
use gamealerts_collector.Engine.GiveUp.Bounded.{IsBounded, emit_give_up-IsBounded}

abbrev no_memory : Memory
no_memory = record { logged = []; drifted = []; reports = [] }

-- A match that was given up once and is followed again.
abbrev first_cooldown : Cooldown
first_cooldown = record {
  remaining = 8;
  epoch = 1;
  expired_unseen = 0;
  fallback = some (final_board 2 0);
  drift_logged = false;
  is_backfill_origin = false;
}

abbrev tracking : Tracking
tracking = record {
  transitions = ("2", new_tracker none) ∷ [];
  backfill = [];
  cooldowns = ("1", first_cooldown) ∷ [];
  memory = no_memory;
}

on_durable_snapshot-IsForgotten_example :
    IsForgotten "1" (on_durable_snapshot "1" (final_board 2 0) [] true tracking)
on_durable_snapshot-IsForgotten_example =
    on_durable_snapshot-IsForgotten "1" (final_board 2 0) [] true tracking refl

-- Two polls, and a second match that ends in the first of them.
abbrev two_polls : List Step
two_polls = aging [] ∷ durable "2" (final_board 2 0) [] true ∷ aging ("2" ∷ []) ∷ []

cooling_down-enter_cooldown_example :
    let (epoch, t') = enter_cooldown "1" none false tracking in
    (epoch ≡ 2)
    × (cooling_down "1" (run_steps two_polls t') ≡ ltb 2 (interval epoch))
    × (8 ≤ interval epoch)
    × (interval epoch ≤ 256)
    × (interval (epoch + 1) ≡ min (2 * interval epoch) 256)
cooling_down-enter_cooldown_example =
    cooling_down-enter_cooldown "1" none false two_polls tracking (refl, tt) (refl, tt)

abbrev quiet : ℕ → List (List String)
quiet zero = []
quiet (suc n) = [] ∷ quiet n

quiet-All : (n : ℕ) → All (λ slate. listed "1" slate ≡ false) (quiet n)
unfolding listed
quiet-All zero = tt
quiet-All (suc n) = (refl, quiet-All n)

length-quiet : (n : ℕ) → length (quiet n) ≡ n
length-quiet zero = refl
length-quiet (suc n) = omega (arith, length-quiet n)

-- What a give-up emits over a final fallback, a live board that is fresh, and a stored row.
abbrev closing : NormalizedMatch
closing =
    nonregress_over_stored true
      (merge_over_base (final_board 2 0)
        (accrue_fallback (some (final_board 2 0)) (live_board 88 3 0)))
      (some (final_board 1 1))

given_up :
    build_give_up_snapshot true
      (some (final_board 2 0))
      (some (live_board 88 3 0))
      none
      (some (final_board 1 1))
    ≡ some closing
unfolding build_give_up_snapshot
given_up = refl

build_give_up_snapshot-Covers_example :
    CoversAll closing (some (final_board 2 0))
    × CoversAll closing (some (live_board 88 3 0))
    × CoversAll closing (some (final_board 1 1))
    × (true ≡ true → is_terminal closing.status ≡ true)
build_give_up_snapshot-Covers_example =
    build_give_up_snapshot-Covers true (some (final_board 2 0)) (some (live_board 88 3 0)) none
      (some (final_board 1 1)) closing given_up

emit_give_up-IsBounded_example :
    IsBounded "2"
      (new_tracker none)
      (emit_give_up "2" (new_tracker none) (some (live_board 88 3 0)) none none tracking)
emit_give_up-IsBounded_example =
    emit_give_up-IsBounded "2" (new_tracker none) (some (live_board 88 3 0)) none none tracking
