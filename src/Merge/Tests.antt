-- ===== src/Merge/Tests.antt =====
-- Runs of the merges, and their theorems at concrete snapshots.
use gamealerts_collector.Prelude.{◌≡◌, refl, some, [], ◌∷◌}
use gamealerts_collector.Dict.{get}
use gamealerts_collector.Json.{
  str, int, Payload, is_empty_payload_value, merge_payload_preserving_richer,
}
use gamealerts_collector.Json.Merge.{get-merge_payload_preserving_richer}
use gamealerts_collector.Samples.{live_board, final_board}
use gamealerts_collector.Merge.{merge_detail}

-- A detail that lags behind a final scoreboard does not reopen the match.
lagging_detail : (merge_detail (final_board 2 0) (live_board 88 1 0)).score_home ≡ some 2
unfolding merge_detail
lagging_detail = refl

abbrev venue : Payload
venue = ("venue", str "Toronto") ∷ []

abbrev sparse : Payload
sparse = ("venue", str "") ∷ ("round", int 1) ∷ []

get-merge_payload_preserving_richer_example :
    get "venue" (merge_payload_preserving_richer venue sparse) ≡ some (str "Toronto")
unfolding merge_payload_preserving_richer is_empty_payload_value
get-merge_payload_preserving_richer_example =
    get-merge_payload_preserving_richer "venue" venue sparse (refl, (refl, tt))
