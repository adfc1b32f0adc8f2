-- ===== src/Backfill/Skip.antt =====
-- The skip check of gamecollect/backfill.py, over the queries of gamecollect/engine.py.
use gamealerts_collector.Prelude.{◌≡◌, refl, String, Bool, false, Option, none, some, string_eq}
use gamealerts_collector.Writer.Table.{Db, owner}
use gamealerts_collector.Backfill.{
  Job, resolve_stored_match_id, has_any_event, stored_source, has_events,
  stored_source_and_has_events,
}

-- The combined query gives what the two single ones give.
pub stored_source_and_has_events_lem :
    (job : Job) (db : Db) (id : String)
    → stored_source_and_has_events job db id ≡ (stored_source job db id, has_events job db id)
unfolding stored_source_and_has_events stored_source has_events
stored_source_and_has_events_lem job db id =
    elim (resolve_stored_match_id job db id)
      as (λ o.
        (elim o as (λ _. Option String × Bool) [
          | none ↦ (none, false)
          | some resolved ↦ (owner db resolved, has_any_event resolved db.events)
        ])
        ≡ (
          elim o as (λ _. Option String) [ none ↦ none | some resolved ↦ owner db resolved ],
          elim o as (λ _. Bool) [ none ↦ false | some resolved ↦ has_any_event resolved db.events ],
        )) [ none ↦ refl | some resolved ↦ refl ]
