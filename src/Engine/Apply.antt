-- ===== src/Engine/Apply.antt =====
-- _apply and apply_one_off_match of gamecollect/engine.py, over the hooks of a pack.
pub mod Stored
use gamealerts_collector.Prelude.{String, Bool, true, false, Option, none, some, if◌then◌else◌}
use gamealerts_collector.Provider.{NormalizedMatch}
use gamealerts_collector.Merge.{merge_detail}
use gamealerts_collector.Diffing.{MatchDiff, diff_match}
use gamealerts_collector.Writer.Table.{Db}
use gamealerts_collector.Writer.Action.{Error, Result, ok, err}
use gamealerts_collector.Writer.Rows.{PartitionWriter}
use gamealerts_collector.Engine.Reconcile.{Memory, append_new_events, Appended}

-- The hooks of a pack: seed_match returns the id of the seeded row, if it seeds one, and
-- persist_side_tables whether it has not raised.
pub record Pack : Type 0 where
  pub seed_match : NormalizedMatch → Db → Result (Option String) × Db
  pub persist_side_tables : NormalizedMatch → String → Db → Bool × Db

-- The baseline to diff against at the next poll, if there is one, and the state.
abbrev pub Applied : Type 0
Applied = Result (Option NormalizedMatch) × (Db × Memory)

-- `side tables`, and then the baseline that was to be returned
abbrev pub persist_after : Pack → NormalizedMatch → String → Appended → Applied
persist_after pack match seeded_id (err e, (db, memory)) = (err e, (db, memory))
persist_after pack match seeded_id (ok baseline, (db, memory)) =
    let (done, db') = pack.persist_side_tables match seeded_id db in
    (ok (if done then some baseline else none), (db', memory))

abbrev pub as_applied : Appended → Applied
as_applied (ok baseline, state) = (ok (some baseline), state)
as_applied (err e, state) = (err e, state)

-- The child writes of a match that is seeded.
unfoldable pub write_children :
    Pack → PartitionWriter → MatchDiff → Bool → String → Db → Memory → Applied
write_children pack w diff true seeded_id db memory =
    let (done, db') = pack.persist_side_tables diff.match seeded_id db in
    if done
    then as_applied (append_new_events w seeded_id diff db' memory)
    else (ok none, (db', memory))
write_children pack w diff false seeded_id db memory =
    persist_after pack diff.match seeded_id (append_new_events w seeded_id diff db memory)

abbrev pub after_seed :
    Pack → PartitionWriter → MatchDiff → Bool → Memory → Result (Option String) × Db → Applied
after_seed pack w diff first memory (err e, db) = (err e, (db, memory))
after_seed pack w diff first memory (ok none, db) = (ok none, (db, memory))
after_seed pack w diff first memory (ok (some seeded_id), db) =
    write_children pack w diff first seeded_id db memory

-- _apply
unfoldable pub apply_diff : Pack → PartitionWriter → MatchDiff → Bool → Db → Memory → Applied
apply_diff pack w diff side_tables_first db memory =
    after_seed pack w diff side_tables_first memory (pack.seed_match diff.match db)

-- apply_one_off_match, within its lock
unfoldable pub apply_one_off_match :
    Pack → PartitionWriter → NormalizedMatch → NormalizedMatch → Db → Memory → Applied
unfolding merge_detail diff_match
apply_one_off_match pack w scoreboard detail db memory =
    apply_diff pack w (diff_match (merge_detail scoreboard detail) none) true db memory
