-- ===== src/Seed/Tests.antt =====
-- default_seed_match of gamecollect/packs/spec.py at a concrete snapshot.
use gamealerts_collector.Prelude.{String, ◌≡◌, refl, Option, some}
use gamealerts_collector.Samples.{final_board, world_cup}
use gamealerts_collector.Writer.Table.{Db, empty, owner}
use gamealerts_collector.Writer.Action.Returns.{Returns}
use gamealerts_collector.Seed.{default_seed_match}
use gamealerts_collector.Seed.Contract.{default_seed_match-IsSeeded}

abbrev given : String → Option String
given id = some id

abbrev after : Db
after = (default_seed_match world_cup "2026-06-12T21:00Z" (final_board 2 0) empty).1

after-Returns :
    Returns
      (default_seed_match world_cup "2026-06-12T21:00Z" (final_board 2 0))
      empty
      (some "760440")
      after
unfolding default_seed_match gamealerts_collector.Writer.Action.◌>>=◌
    gamealerts_collector.Json.Value-discrete gamealerts_collector.Writer.Rows.all_bindable
after-Returns = refl

default_seed_match-IsSeeded_example :
    (given "760440" ≡ some (final_board 2 0).match_id)
    × (owner after "760440" ≡ some world_cup.source)
default_seed_match-IsSeeded_example =
    default_seed_match-IsSeeded world_cup "2026-06-12T21:00Z" (final_board 2 0) empty after
      (some "760440") after-Returns
