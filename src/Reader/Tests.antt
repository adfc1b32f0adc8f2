-- ===== src/Reader/Tests.antt =====
-- Queries of gamecollect/db/reader.py at a concrete database.
use gamealerts_collector.Prelude.{ℕ, String, ◌≡◌, refl, [], ◌∷◌, ◌++◌, none, some, filter, leb}
use gamealerts_collector.Json.{str, null}
use gamealerts_collector.Writer.Table.{EventRow, Db}
use gamealerts_collector.Samples.{seeded}
use gamealerts_collector.Reader.{events_of, get_events_since, get_latest_event_of_type}
use gamealerts_collector.Reader.Latest.{IsHighest, has_type_in, get_latest_event_of_type-IsHighest}
use gamealerts_collector.Reader.Since.{get_events_since-resumes}

-- The row of a yellow card or a goal of the match 1.
abbrev row : ℕ → String → EventRow
row seq type = record { source = "wc"; match_id = "1"; seq = seq; type = str type; columns = [] }

-- Three events, which stand in another order than that of their seqs.
abbrev stored : Db
stored = record seeded { events = row 2 "yellow" ∷ row 0 "goal" ∷ row 1 "goal" ∷ [] }

get_latest_event_of_type-IsHighest_example :
    IsHighest
      (filter (has_type_in ("goal" ∷ [])) (events_of stored "1"))
      (get_latest_event_of_type stored "1" ("goal" ∷ []))
get_latest_event_of_type-IsHighest_example =
    get_latest_event_of_type-IsHighest stored "1" ("goal" ∷ [])

last_goal : get_latest_event_of_type stored "1" ("goal" ∷ []) ≡ some (row 1 "goal")
unfolding get_latest_event_of_type gamealerts_collector.Json.Value-discrete
last_goal = refl

get_events_since-resumes_example :
    filter (λ (e : EventRow). leb e.seq 0) (get_events_since stored "1" none)
      ++ get_events_since stored "1" (some 0)
    ≡ get_events_since stored "1" none
get_events_since-resumes_example = get_events_since-resumes stored "1" 0

after_the_first : get_events_since stored "1" (some 0) ≡ row 1 "goal" ∷ row 2 "yellow" ∷ []
unfolding get_events_since
after_the_first = refl
