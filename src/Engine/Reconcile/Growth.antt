-- ===== src/Engine/Reconcile/Growth.antt =====
-- What _reconcile_sequence_conflict and _append_new_events of gamecollect/engine.py do to the
-- database.
use gamealerts_collector.Prelude.{
  ℕ, String, ◌≡◌, refl, sym, ◌∙◌, ap, subst, Bool, true, false, List, [], ◌∷◌, ◌++◌, map, arith,
  All, All-map, All-append, if◌then◌else◌,
}
use gamealerts_collector.Provider.{NormalizedEvent, NormalizedMatch}
use gamealerts_collector.Diffing.{MatchDiff}
use gamealerts_collector.Writer.Table.{EventRow, Db}
use gamealerts_collector.Writer.Action.{
  value_error, type_error, interface_error, cross_partition_error, unseeded_match_error,
  taxonomy_error, sequence_error, Result, ok, err,
}
use gamealerts_collector.Writer.Rows.{PartitionWriter, Row}
use gamealerts_collector.Writer.Events.{append_events, max_seq, at_or_below}
use gamealerts_collector.Writer.Append.Rows.{IsOwn}
use mathlib.Core.List.{append_assoc, append-nil}
use gamealerts_collector.Writer.Append.Run.{with_events}
use gamealerts_collector.Writer.Batches.{append_events-Extends}
use gamealerts_collector.Writer.Atomicity.{append_events-IsAtomic}
use gamealerts_collector.Writer.Valid.{IsValid}
use gamealerts_collector.Writer.Valid.Appends.{append_events-IsValid}
use gamealerts_collector.Engine.Rows.{event_to_row}
use gamealerts_collector.Engine.Reconcile.{
  Loop, Memory, reconcile_event, reconcile_events, start_loop, reconcile_sequence_conflict,
  append_new_events, after_stored, after_new, after_batch, rebased, seen,
}

-- Only the events table has changed: rows of one match of the writer's stand behind it.
abbrev pub Grows : PartitionWriter → String → Db → Db → Type 0
Grows w m db db' =
    (db' ≡ with_events db db'.events)
    × (new : List EventRow) × (db'.events ≡ db.events ++ new)
    × All (λ e. (e.source ≡ w.source) × (e.match_id ≡ m)) new

with_events-own : (db : Db) → db ≡ with_events db db.events
with_events-own db = refl

pub Grows-refl : (w : PartitionWriter) (m : String) (db : Db) → Grows w m db db
Grows-refl w m db = (with_events-own db, [], sym (append-nil db.events), tt)

pub Grows-trans :
    (w : PartitionWriter) (m : String) (a b c : Db) → Grows w m a b → Grows w m b c → Grows w m a c
Grows-trans w m a b c (p, new, q, own) (p', new', q', own') = (
  p' ∙ ap (λ x. with_events x c.events) p,
  new ++ new',
  q' ∙ ap (λ es. es ++ new') q ∙ append_assoc a.events new new',
  All-append (λ e. (e.source ≡ w.source) × (e.match_id ≡ m)) new new' own own',
)

pub append_events-Grows :
    (w : PartitionWriter) (m : String) (rows : List Row) (db : Db)
    → Grows w m db (append_events w m rows db).1
append_events-Grows w m rows db = by_result (append_events w m rows db) refl
  where
    by_result : (r : Result ℕ × Db) → append_events w m rows db ≡ r → Grows w m db r.1
    by_result (ok n, db') h =
        let ((new, grown, count, own), frame) = append_events-Extends w m rows n db db' h in
        (
          frame,
          new,
          grown,
          All-map (IsOwn w m (max_seq db.events w.source m))
              (λ e. (e.source ≡ w.source) × (e.match_id ≡ m)) new (λ e x. (x.0, x.1)) own,
        )
    by_result (err e, db') h =
        let still = (append_events-IsAtomic w m rows).at db e (ap (λ x. x.0) h) in
        subst (Grows w m db) (sym still ∙ ap (λ x. x.1) h) (Grows-refl w m db)

-- What every append keeps, the loop keeps.
module _ (w : PartitionWriter) (m id : String) (P : Db → Type 0)
    (keeps : (rows : List Row) (db : Db) → P db → P (append_events w m rows db).1) where
  after_stored-keeps :
      (e : NormalizedEvent) (l : Loop) (r : Result ℕ × Db) → P r.1 → P (after_stored id e l r).1.db
  after_stored-keeps e l (ok n, db) h = h
  after_stored-keeps e l (err x, db) h = ground arith

  after_new-keeps :
      (e : NormalizedEvent) (l : Loop) (r : Result ℕ × Db) → P r.1 → P (after_new id e l r).1.db
  after_new-keeps e l (ok n, db) h = h
  after_new-keeps e l (err x, db) h = ground arith

  either :
      (c : Bool) (x y : Result (Unit {0}) × Loop)
      → P x.1.db
      → P y.1.db
      → P (if c then x else y).1.db
  either true x y h k = h
  either false x y h k = k

  pub reconcile_event-keeps :
      (e : NormalizedEvent) (l : Loop) → P l.db → P (reconcile_event w m id e l).1.db
  unfolding reconcile_event
  reconcile_event-keeps e l h =
      let row = keeps (event_to_row e ∷ []) l.db h in
      either (at_or_below e.seq l.head) _ _
        (either (seen e.seq l.appended) _ _ h
          (either (seen e.seq l.stored_seqs) _ _ (after_stored-keeps e l _ row) h))
        (after_new-keeps e l _ row)

  pub reconcile_events-keeps :
      (es : List NormalizedEvent) (l : Loop) → P l.db → P (reconcile_events w m id es l).1.db
  unfolding reconcile_events
  reconcile_events-keeps [] l h = h
  reconcile_events-keeps (e ∷ es) l h =
      by_result (λ next. reconcile_events-keeps es next) (reconcile_event w m id e l)
        (reconcile_event-keeps e l h)
    where
      by_result :
          ((next : Loop) → P next.db → P (reconcile_events w m id es next).1.db)
          → (r : Result (Unit {0}) × Loop) → P r.1.db
          → let out : Result (Unit {0}) × Loop = elim r.0 [
            | err x ↦ (err x, r.1)
            | ok _ ↦ reconcile_events w m id es r.1
          ] in
            P out.1.db
      by_result ih (ok u, next) k = ih next k
      by_result ih (err x, next) k = k

  rebased-keeps :
      (match : NormalizedMatch) (r : Result (List NormalizedEvent) × Loop)
      → P r.1.db
      → P (rebased match r).1.0
  rebased-keeps match (ok es, l) h = h
  rebased-keeps match (err x, l) h = h

  reconcile-keeps :
      (es : List NormalizedEvent) (db : Db) (memory : Memory)
      → P db
      → P (reconcile_sequence_conflict w m id es db memory).1.db
  unfolding reconcile_sequence_conflict
  reconcile-keeps es db memory h = reconcile_events-keeps es (start_loop w m db memory) h

module _ (w : PartitionWriter) (m : String) (P : Db → Type 0)
    (keeps : (rows : List Row) (db : Db) → P db → P (append_events w m rows db).1) where
  after_batch-keeps :
      (diff : MatchDiff) (memory : Memory) (r : Result ℕ × Db)
      → P r.1
      → P (after_batch w m diff memory r).1.0
  after_batch-keeps diff memory (ok n, db) h = h
  after_batch-keeps diff memory (err sequence_error, db) h =
      rebased-keeps w m diff.match.match_id P keeps diff.match
        (reconcile_sequence_conflict w m diff.match.match_id diff.new_events db memory)
        (reconcile-keeps w m diff.match.match_id P keeps diff.new_events db memory h)
  after_batch-keeps diff memory (err value_error, db) h = h
  after_batch-keeps diff memory (err type_error, db) h = h
  after_batch-keeps diff memory (err interface_error, db) h = h
  after_batch-keeps diff memory (err cross_partition_error, db) h = h
  after_batch-keeps diff memory (err unseeded_match_error, db) h = h
  after_batch-keeps diff memory (err taxonomy_error, db) h = h

  append_new_events-keeps :
      (diff : MatchDiff) (db : Db) (memory : Memory)
      → P db
      → P (append_new_events w m diff db memory).1.0
  unfolding append_new_events
  append_new_events-keeps diff db memory h =
      after_batch-keeps diff memory (append_events w m (map event_to_row diff.new_events) db)
        (keeps (map event_to_row diff.new_events) db h)

-- _append_new_events changes no table but events, whose earlier rows all stay as they are,
-- and every row that it puts behind them is of the writer's source and of the seeded match;
-- so a drift is never written over a stored row.
pub append_new_events-Grows :
    (w : PartitionWriter) (m : String) (diff : MatchDiff) (db : Db) (memory : Memory)
    → Grows w m db (append_new_events w m diff db memory).1.0
append_new_events-Grows w m diff db memory =
    append_new_events-keeps w m (Grows w m db)
      (λ rows mid h.
        Grows-trans w m db mid (append_events w m rows mid).1 h (append_events-Grows w m rows mid))
      diff db memory (Grows-refl w m db)

-- If the database is valid, it is valid after _append_new_events, whether the batch is
-- appended, reconciled row by row against the stored events, or refused.
pub append_new_events-IsValid :
    (w : PartitionWriter) (m : String) (diff : MatchDiff) (db : Db) (memory : Memory)
    → IsValid db
    → IsValid (append_new_events w m diff db memory).1.0
append_new_events-IsValid w m diff db memory v =
    append_new_events-keeps w m IsValid (λ rows mid h. (append_events-IsValid w m rows).at mid h)
      diff db memory v
