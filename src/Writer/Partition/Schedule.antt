-- ===== src/Writer/Partition/Schedule.antt =====
-- A partition under a schedule of calls by the writers of other sources.
use gamealerts_collector.Prelude.{
  String, ◌≡◌, ◌≢◌, refl, sym, ◌∙◌, ap, not, List, [], ◌∷◌, arith, filter, ◌==◌, ==_iff, string_eq,
  All,
}
use gamealerts_collector.Fold.{Unicode}
use gamealerts_collector.Writer.Table.{MatchRow, EventRow, EntityRow, StandingRow, ProviderRow, Db}
use gamealerts_collector.Writer.Rows.{PartitionWriter}
use gamealerts_collector.Writer.Methods.{Call, call, run_calls}
use gamealerts_collector.Writer.Partition.{call-Keeps}
use gamealerts_collector.Writer.Partition.Others.{others}

-- The rows of one source.
unfoldable pub partition : String → Db → Db
partition source db = record {
  matches = filter (λ kv. kv.1.source == source) db.matches;
  events = filter (λ e. e.source == source) db.events;
  entities = filter (λ e. e.source == source) db.entities;
  standings = filter (λ e. e.source == source) db.standings;
  provider_match_map = filter (λ e. e.source == source) db.provider_match_map;
}

-- What passes one test is found among what fails the other.
filter-filter-not :
    {A : Type 0} (source : A → String) (s t : String) (xs : List A)
    → s ≢ t
    → filter (λ x. source x == s) (filter (λ x. not (source x == t)) xs)
      ≡ filter (λ x. source x == s) xs
filter-filter-not source s t [] ne = refl
filter-filter-not source s t (x ∷ xs) ne =
    ground (arith, ==_iff (source x) s, ==_iff (source x) t, filter-filter-not source s t xs ne)

partition-others : (s t : String) (db : Db) → s ≢ t → partition s (others t db) ≡ partition s db
unfolding partition others
partition-others s t db ne = ground (
  arith,
  filter-filter-not (λ (kv : String × MatchRow). kv.1.source) s t db.matches ne,
  filter-filter-not (λ (e : EventRow). e.source) s t db.events ne,
  filter-filter-not (λ (e : EntityRow). e.source) s t db.entities ne,
  filter-filter-not (λ (e : StandingRow). e.source) s t db.standings ne,
  filter-filter-not (λ (e : ProviderRow). e.source) s t db.provider_match_map ne,
)

partition-call :
    (u : Unicode) (s : String) (w : PartitionWriter) (c : Call) (db : Db)
    → s ≢ w.source
    → partition s (call u w c db).1 ≡ partition s db
partition-call u s w c db ne =
    sym (partition-others s w.source (call u w c db).1 ne)
    ∙ ap (partition s) ((call-Keeps u w c).at db)
    ∙ partition-others s w.source db ne

-- A call of a writer of another source.
abbrev pub IsForeign : String → PartitionWriter × Call → Type 0
IsForeign s (w, c) = s ≢ w.source

-- If every call of a schedule is made by a writer of another source, the rows of the source
-- s, in all five tables, are the same after the schedule as before it, errors and refused
-- calls included.
pub partition-run_calls :
    (u : Unicode) (s : String) (calls : List (PartitionWriter × Call)) (db : Db)
    → All (IsForeign s) calls
    → partition s (run_calls u calls db) ≡ partition s db
unfolding run_calls
partition-run_calls u s [] db h = refl
partition-run_calls u s ((w, c) ∷ calls) db h =
    partition-run_calls u s calls (call u w c db).1 h.1 ∙ partition-call u s w c db h.0
