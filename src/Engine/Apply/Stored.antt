-- ===== src/Engine/Apply/Stored.antt =====
-- What _apply of gamecollect/engine.py leaves in the events table.
use gamealerts_collector.Prelude.{
  String, ◌≡◌, refl, Bool, true, false, Option, none, some, if◌then◌else◌,
}
use gamealerts_collector.Provider.{NormalizedMatch}
use gamealerts_collector.Merge.{merge_detail}
use gamealerts_collector.Diffing.{MatchDiff, diff_match}
use gamealerts_collector.Writer.Table.{Db}
use gamealerts_collector.Writer.Action.{Result, ok, err}
use gamealerts_collector.Writer.Rows.{PartitionWriter}
use gamealerts_collector.Writer.Valid.{IsValid}
use gamealerts_collector.Engine.Reconcile.{Memory, append_new_events, Appended}
use gamealerts_collector.Engine.Reconcile.Growth.{append_new_events-IsValid}
use gamealerts_collector.Engine.Apply.{
  Pack, Applied, persist_after, as_applied, write_children, after_seed, apply_diff,
  apply_one_off_match,
}

-- The hook of the side tables writes no events: they are the entities and the standings.
abbrev pub IsSideways : Pack → Type 0
IsSideways pack =
    (m : NormalizedMatch) (id : String) (db : Db)
    → (pack.persist_side_tables m id db).1.events ≡ db.events

as_applied-none : (a : Appended) → (as_applied a).0 ≡ ok none → ⊥
as_applied-none (ok m, state) h = cc
as_applied-none (err e, state) h = cc

write_children-none :
    (pack : Pack) (w : PartitionWriter) (diff : MatchDiff) (id : String) (db : Db) (memory : Memory)
    → IsSideways pack
    → (write_children pack w diff true id db memory).0 ≡ ok none
    → (write_children pack w diff true id db memory).1.0.events ≡ db.events
unfolding write_children
write_children-none pack w diff id db memory s h =
    by_persist (pack.persist_side_tables diff.match id db) (s diff.match id db) h
  where
    by_persist :
        (r : Bool × Db)
        → r.1.events ≡ db.events
        → let out : Applied =
            if r.0
            then as_applied (append_new_events w id diff r.1 memory)
            else (ok none, (r.1, memory)) in
          out.0 ≡ ok none → out.1.0.events ≡ db.events
    by_persist (true, db') p k = absurd (as_applied-none (append_new_events w id diff db' memory) k)
    by_persist (false, db') p k = p

apply_diff-none :
    (pack : Pack) (w : PartitionWriter) (diff : MatchDiff) (db : Db) (memory : Memory)
    → IsSideways pack
    → (apply_diff pack w diff true db memory).0 ≡ ok none
    → (apply_diff pack w diff true db memory).1.0.events ≡ (pack.seed_match diff.match db).1.events
unfolding apply_diff
apply_diff-none pack w diff db memory s h = by_seed (pack.seed_match diff.match db) h
  where
    by_seed :
        (r : Result (Option String) × Db)
        → (after_seed pack w diff true memory r).0 ≡ ok none
        → (after_seed pack w diff true memory r).1.0.events ≡ r.1.events
    by_seed (err e, db') k = refl
    by_seed (ok none, db') k = refl
    by_seed (ok (some id), db') k = write_children-none pack w diff id db' memory s k

-- If the side tables hook of the pack writes no events and apply_one_off_match returns no
-- baseline, the events table is the one that the pack's seed hook left when it was given
-- the merged snapshot: nothing was appended to it.
pub apply_one_off_match-none :
    (pack : Pack) (w : PartitionWriter) (scoreboard detail : NormalizedMatch) (db : Db)
    (memory : Memory)
    → IsSideways pack
    → (apply_one_off_match pack w scoreboard detail db memory).0 ≡ ok none
    → (apply_one_off_match pack w scoreboard detail db memory).1.0.events
      ≡ (pack.seed_match (merge_detail scoreboard detail) db).1.events
apply_one_off_match-none pack w scoreboard detail db memory s h =
    unfold apply_one_off_match in
    apply_diff-none pack w (diff_match (merge_detail scoreboard detail) none) db memory s
      (unfold apply_one_off_match in h)

-- The hooks keep the database valid, as the methods of the writer do.
pub record IsSound (pack : Pack) : Type 0 where
  pub seeds : (m : NormalizedMatch) (db : Db) → IsValid db → IsValid (pack.seed_match m db).1
  pub persists :
      (m : NormalizedMatch) (id : String) (db : Db)
      → IsValid db
      → IsValid (pack.persist_side_tables m id db).1

persist_after-IsValid :
    (pack : Pack) (m : NormalizedMatch) (id : String) (a : Appended)
    → IsSound pack
    → IsValid a.1.0
    → IsValid (persist_after pack m id a).1.0
persist_after-IsValid pack m id (err e, (db, memory)) s v = v
persist_after-IsValid pack m id (ok b, (db, memory)) s v = s.persists m id db v

as_applied-IsValid : (a : Appended) → IsValid a.1.0 → IsValid (as_applied a).1.0
as_applied-IsValid (ok b, state) v = v
as_applied-IsValid (err e, state) v = v

write_children-IsValid :
    (pack : Pack) (w : PartitionWriter) (diff : MatchDiff) (first : Bool) (id : String) (db : Db)
    (memory : Memory)
    → IsSound pack
    → IsValid db
    → IsValid (write_children pack w diff first id db memory).1.0
unfolding write_children
write_children-IsValid pack w diff true id db memory s v =
    by_persist (pack.persist_side_tables diff.match id db) (s.persists diff.match id db v)
  where
    by_persist :
        (r : Bool × Db)
        → IsValid r.1
        → let out : Applied =
            if r.0
            then as_applied (append_new_events w id diff r.1 memory)
            else (ok none, (r.1, memory)) in
          IsValid out.1.0
    by_persist (true, db') k =
        as_applied-IsValid (append_new_events w id diff db' memory)
          (append_new_events-IsValid w id diff db' memory k)
    by_persist (false, db') k = k
write_children-IsValid pack w diff false id db memory s v =
    persist_after-IsValid pack diff.match id (append_new_events w id diff db memory) s
      (append_new_events-IsValid w id diff db memory v)

-- If the hooks of the pack keep the database valid, _apply keeps it valid, in both orders
-- of its child writes and on every error.
pub apply_diff-IsValid :
    (pack : Pack) (w : PartitionWriter) (diff : MatchDiff) (first : Bool) (db : Db)
    (memory : Memory)
    → IsSound pack
    → IsValid db
    → IsValid (apply_diff pack w diff first db memory).1.0
unfolding apply_diff
apply_diff-IsValid pack w diff first db memory s v =
    by_seed (pack.seed_match diff.match db) (s.seeds diff.match db v)
  where
    by_seed :
        (r : Result (Option String) × Db)
        → IsValid r.1
        → IsValid (after_seed pack w diff first memory r).1.0
    by_seed (err e, db') k = k
    by_seed (ok none, db') k = k
    by_seed (ok (some id), db') k = write_children-IsValid pack w diff first id db' memory s k
