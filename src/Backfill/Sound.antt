-- ===== src/Backfill/Sound.antt =====
-- The database after run_backfill of gamecollect/backfill.py.
use gamealerts_collector.Prelude.{
  ℕ, ◌≡◌, refl, sym, subst, String, true, List, Option, none, some, suc, if-cases, ◌==◌, string_eq,
}
use gamealerts_collector.Provider.{NormalizedMatch}
use gamealerts_collector.Merge.{merge_detail}
use gamealerts_collector.Diffing.{diff_match}
use gamealerts_collector.Writer.Table.{Db}
use gamealerts_collector.Writer.Action.{
  Error, value_error, type_error, interface_error, cross_partition_error, unseeded_match_error,
  taxonomy_error, sequence_error, Result, ok, err,
}
use gamealerts_collector.Writer.Valid.{IsValid}
use gamealerts_collector.Engine.Reconcile.{Memory}
use gamealerts_collector.Engine.Apply.{apply_one_off_match}
use gamealerts_collector.Engine.Apply.Stored.{IsSound, apply_diff-IsValid}
use gamealerts_collector.Backfill.Runs.{run_chunks-keeps}
use gamealerts_collector.Backfill.{
  Job, fetch_failed, Run, Abort, source_mismatch, is_stored, fail, after_error, after_apply,
  apply_detail, step_match, run_chunks, start_run, run_backfill,
}

db-after_error : (id : String) (e : Error) (run : Run) → (after_error id e run).1.db ≡ run.db
db-after_error id value_error run = refl
db-after_error id type_error run = refl
db-after_error id interface_error run = refl
db-after_error id cross_partition_error run = refl
db-after_error id unseeded_match_error run = refl
db-after_error id taxonomy_error run = refl
db-after_error id sequence_error run = refl

db-after_apply :
    (id : String) (r : Result (Option NormalizedMatch)) (run : Run)
    → (after_apply id r run).1.db ≡ run.db
db-after_apply id (err e) run = db-after_error id e run
db-after_apply id (ok none) run = refl
db-after_apply id (ok (some b)) run = refl

module _ (job : Job) (sound : IsSound job.pack) where
  apply_detail-IsValid :
      (m detail : NormalizedMatch) (run : Run)
      → IsValid run.db
      → IsValid (apply_detail job m detail run).1.db
  unfolding apply_detail apply_one_off_match
  apply_detail-IsValid m detail run v =
      let diff = diff_match (merge_detail m detail) none in
      subst IsValid (sym (db-after_apply m.match_id _ _))
        (apply_diff-IsValid job.pack job.writer diff true run.db run.memory sound v)

  step_match-IsValid :
      (m : NormalizedMatch) (run : Run) → IsValid run.db → IsValid (step_match job m run).1.db
  unfolding step_match
  step_match-IsValid m run v =
      let counted = record run { enumerated = suc run.enumerated } in
      let skipped = record counted {
        already_stored_skipped = suc counted.already_stored_skipped;
      } in
      if-cases (λ (s : Option Abort × Run). IsValid s.1.db) (is_stored job run m.match_id)
        (none, skipped) _ (λ _. v)
        (λ _.
          elim (job.provider.fetch_match_detail m.match_id)
            as (λ o.
              IsValid
                (elim o as (λ _. Option Abort × Run) [
                  | none ↦ (none, fail m.match_id fetch_failed counted)
                  | some detail ↦ apply_detail job m detail counted
                ]).1.db) [ none ↦ v | some detail ↦ apply_detail-IsValid m detail counted v ])

-- If the hooks of the pack keep the database valid, run_backfill keeps it valid, whatever
-- the provider's schedules and details are and however the run ends.
pub run_backfill-IsValid :
    (job : Job) (source : String) (chunks : List ℕ) (db : Db) (memory : Memory)
    → IsSound job.pack
    → IsValid db
    → IsValid (run_backfill job source chunks db memory).1.db
unfolding run_backfill
run_backfill-IsValid job source chunks db memory sound v =
    if-cases (λ (s : Option Abort × Run). IsValid s.1.db) (source == job.writer.source)
      (run_chunks job chunks (start_run db memory)) (some source_mismatch, start_run db memory)
      (λ _.
        run_chunks-keeps job (λ (run : Run). IsValid run.db) (step_match-IsValid job sound)
          (λ chunk run h. h) chunks (start_run db memory) v)
      (λ _. v)
