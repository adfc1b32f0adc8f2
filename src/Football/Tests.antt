-- ===== src/Football/Tests.antt =====
-- gamecollect_football/reconcile.py at concrete matches.
use gamealerts_collector.Prelude.{◌≡◌, refl, true, false, List, [], ◌∷◌, Option, none, some, All}
use gamealerts_collector.Json.{str, int, object, field, end}
use gamealerts_collector.Provider.{NormalizedMatch}
use gamealerts_collector.Fold.{fold}
use gamealerts_collector.Samples.{final_board, plain_text, world_cup}
use gamealerts_collector.Merge.{merge_detail}
use gamealerts_collector.Writer.Table.{Db, empty, owner}
use gamealerts_collector.Writer.Action.{ok}
use gamealerts_collector.Engine.Reconcile.{Memory}
use gamealerts_collector.Engine.Apply.{Pack, write_children, apply_diff, apply_one_off_match}
use gamealerts_collector.Engine.Apply.Stored.{apply_one_off_match-none}
use gamealerts_collector.Writer.Action.Returns.{Returns}
use gamealerts_collector.Football.Adoption.{adopt_stub_rows}
use gamealerts_collector.Football.Adoption.Moved.{IsAdopted, adopt_stub_rows-IsAdopted}
use gamealerts_collector.Football.Seeding.{Hook, seed_or_reconcile_match}
use gamealerts_collector.Football.Seeding.Contract.{seed_or_reconcile_match-Seeds}
use gamealerts_collector.Football.Nearest.{
  KickoffCandidate, Target, is_same_teams, reconcile_by_kickoff,
}
use gamealerts_collector.Football.Nearest.Best.{Beats, IsAmong, reconcile_by_kickoff-IsNearest}
use gamealerts_collector.Football.Orientation.{home_away_view}
use gamealerts_collector.Football.Orientation.Nested.{Step, key}
use gamealerts_collector.Football.Orientation.Turned.{leaf_at, home_away_view-turned}

abbrev target : Target
target = record {
  unicode = plain_text;
  home_team = "Canada";
  away_team = "Qatar";
  instant = some 1000;
}

-- Two legs of one pairing, and a match without names.
abbrev window : List KickoffCandidate
window =
    record {
      match_id = "first";
      home_team = some "Canada";
      away_team = some "Qatar";
      kickoff = some 1900;
    }
    ∷ record { match_id = "blank"; home_team = none; away_team = none; kickoff = some 1000 }
    ∷ record {
      match_id = "second";
      home_team = some "Qatar";
      away_team = some "Canada";
      kickoff = some 700;
    }
    ∷ []

reconcile_by_kickoff-IsNearest_example :
    (r : Option KickoffCandidate) × (reconcile_by_kickoff target window
      ≡ (elim r [ none ↦ none | some c ↦ some c.match_id ]))
    × IsAmong target r window
    × All (λ d. is_same_teams target d ≡ true → Beats target r d) window
reconcile_by_kickoff-IsNearest_example = reconcile_by_kickoff-IsNearest target window

second_leg : reconcile_by_kickoff target window ≡ some "second"
unfolding reconcile_by_kickoff is_same_teams fold
second_leg = refl

-- A final board with its half-time score, the winner of its shootout, and the shots of its teams.
abbrev shootout : NormalizedMatch
shootout = record (final_board 2 1) {
  payload =
      ("score_ht_home", int 1)
      ∷ ("pen_winner_side", str "home")
      ∷ (
        "stats",
        object (field "shots" (object (field "home" (int 4) (field "away" (int 7) end))) end),
      )
      ∷ [];
}

-- the path to the home team's shots, where the teams are the schedule's
abbrev shots : List Step
shots = key "shots" ∷ key "home" ∷ []

home_away_view-turned_example :
    let view = home_away_view shootout true in
    (view.0 ≡ some 1) × (view.1.0 ≡ some 2) × (leaf_at "stats" shots view.1.1 ≡ some (int 7))
home_away_view-turned_example = home_away_view-turned shootout true "stats" shots

-- A stub with an event, and the seeded row of the same match.
abbrev two_rows : Db
two_rows = record empty {
  matches =
      ("wc:760440", record { source = "wc"; columns = [] })
      ∷ ("can-qat", record { source = "wc"; columns = [] })
      ∷ [];
  events =
      record { source = "wc"; match_id = "wc:760440"; seq = 0; type = str "goal"; columns = [] }
      ∷ [];
}

two_rows-owner : owner two_rows "wc:760440" ≡ some "wc"
unfolding owner
two_rows-owner = refl

adopt_stub_rows-IsAdopted_example :
    IsAdopted "wc" "wc:760440" "can-qat" refl two_rows
      (adopt_stub_rows false "wc" "wc:760440" "can-qat" two_rows)
adopt_stub_rows-IsAdopted_example =
    adopt_stub_rows-IsAdopted "wc" "wc:760440" "can-qat" refl false two_rows two_rows-owner

-- The hook of a pack of the source, with kickoffs that are all read as one instant.
abbrev hook : Hook
hook = record {
  unicode = plain_text;
  instant = λ text. some 1000;
  provider = "espn";
  writer = world_cup;
  now = "2026-06-12T21:00Z";
}

abbrev named : NormalizedMatch
named = record (final_board 2 0) { away_team = some "Qatar" }

abbrev after : Db
after = (seed_or_reconcile_match hook named empty).1

after-Returns : Returns (seed_or_reconcile_match hook named) empty (some "wc:760440") after
unfolding seed_or_reconcile_match gamealerts_collector.Writer.Action.◌>>=◌
    gamealerts_collector.Json.Value-discrete gamealerts_collector.Writer.Rows.all_bindable
after-Returns = refl

seed_or_reconcile_match-Seeds_example : owner after "wc:760440" ≡ some world_cup.source
seed_or_reconcile_match-Seeds_example =
    seed_or_reconcile_match-Seeds hook named empty after "wc:760440" after-Returns

-- The football pack in a run in which its side tables cannot be written.
abbrev failing_pack : Pack
failing_pack = record {
  seed_match = λ m db. seed_or_reconcile_match hook m db;
  persist_side_tables = λ m id db. (false, db);
}

abbrev no_memory : Memory
no_memory = record { logged = []; drifted = []; reports = [] }

stranded : (apply_one_off_match failing_pack world_cup named named two_rows no_memory).0 ≡ ok none
unfolding apply_one_off_match apply_diff write_children seed_or_reconcile_match
    gamealerts_collector.Writer.Action.◌>>=◌ gamealerts_collector.Json.Value-discrete
    gamealerts_collector.Writer.Rows.all_bindable
stranded = refl

apply_one_off_match-none_example :
    (apply_one_off_match failing_pack world_cup named named two_rows no_memory).1.0.events
    ≡ (seed_or_reconcile_match hook (merge_detail named named) two_rows).1.events
apply_one_off_match-none_example =
    apply_one_off_match-none failing_pack world_cup named named two_rows no_memory (λ m id db. refl)
      stranded
