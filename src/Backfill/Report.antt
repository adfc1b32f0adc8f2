-- ===== src/Backfill/Report.antt =====
-- The report of run_backfill of gamecollect/backfill.py.
use gamealerts_collector.Prelude.{
  ℕ, suc, ◌+◌, ◌≤◌, ◌≡◌, refl, String, false, List, [], ◌∷◌, Option, none, some, arith, All,
  All-map, length, if-cases, ◌==◌, ==_iff, string_eq,
}
use gamealerts_collector.Dict.{Dict, get, insert, remove, get-insert, get-remove, get-remove_self}
use gamealerts_collector.Provider.{NormalizedMatch}
use gamealerts_collector.Writer.Table.{Db}
use gamealerts_collector.Writer.Action.{
  Error, value_error, type_error, interface_error, cross_partition_error, unseeded_match_error,
  taxonomy_error, sequence_error, Result, ok, err,
}
use gamealerts_collector.Engine.Reconcile.{Memory}
use gamealerts_collector.Engine.Tracking.{listed}
use gamealerts_collector.Backfill.Runs.{run_chunks-keeps}
use gamealerts_collector.Backfill.{
  Job, Failure, apply_failed, fetch_failed, not_written, Run, Abort, source_mismatch, is_stored,
  fail, succeed, after_error, after_apply, apply_detail, step_match, run_chunks, start_run,
  run_backfill,
}

length-insert :
    {V : Type 0} (k : String) (v : V) (d : Dict V) → length (insert k v d) ≤ suc (length d)
unfolding insert
length-insert k v [] = omega arith
length-insert k v ((j, w) ∷ d) = ground (arith, length-insert k v d)

length-remove : {V : Type 0} (k : String) (d : Dict V) → length (remove k d) ≤ length d
unfolding remove
length-remove k [] = omega arith
length-remove k ((j, w) ∷ d) = ground (arith, length-remove k d)

-- No match is both applied and failed; the applied ones are counted; and what was skipped, applied
-- or failed was enumerated.
abbrev pub IsConsistent : Run → Type 0
IsConsistent run =
    All (λ id. get id run.failed ≡ none) run.applied_ids
    × (run.applied ≡ length run.applied_ids)
    × (run.already_stored_skipped + run.applied + length run.failed ≤ run.enumerated)

-- the same, where a match is enumerated and not yet accounted for
abbrev IsOpen : Run → Type 0
IsOpen run =
    All (λ id. get id run.failed ≡ none) run.applied_ids
    × (run.applied ≡ length run.applied_ids)
    × (suc (run.already_stored_skipped + run.applied + length run.failed) ≤ run.enumerated)

still_none :
    (id : String) (why : Failure) (d : Dict Failure) (ids : List String)
    → listed id ids ≡ false
    → All (λ x. get x d ≡ none) ids
    → All (λ x. get x (insert id why d) ≡ none) ids
unfolding listed
still_none id why d [] h k = tt
still_none id why d (x ∷ ids) h k =
    let apart : x == id ≡ false = ground arith in
    let rest : listed id ids ≡ false = ground arith in
    let other = get-insert id x why d in
    (ground (arith, other, k.0, ==_iff id x, ==_iff x id), still_none id why d ids rest k.1)

fail-IsConsistent :
    (id : String) (why : Failure) (run : Run)
    → listed id run.applied_ids ≡ false
    → IsOpen run
    → IsConsistent (fail id why run)
fail-IsConsistent id why run h (none_failed, count, room) = (
  still_none id why run.failed run.applied_ids h none_failed,
  count,
  omega (arith, room, length-insert id why run.failed),
)

removed_none :
    (id : String) (d : Dict Failure) (ids : List String)
    → All (λ x. get x d ≡ none) ids
    → All (λ x. get x (remove id d) ≡ none) ids
removed_none id d ids h =
    All-map (λ x. get x d ≡ none) (λ x. get x (remove id d) ≡ none) ids
      (λ x k. ground (arith, get-remove id x d, k)) h

succeed-IsConsistent : (id : String) (run : Run) → IsOpen run → IsConsistent (succeed id run)
succeed-IsConsistent id run (none_failed, count, room) = (
  (get-remove_self id run.failed, removed_none id run.failed run.applied_ids none_failed),
  omega (arith, count),
  omega (arith, room, length-remove id run.failed),
)

open-IsConsistent : (run : Run) → IsOpen run → IsConsistent run
open-IsConsistent run (a, b, c) = (a, b, omega (arith, c))

after_error-IsConsistent :
    (id : String) (e : Error) (run : Run)
    → listed id run.applied_ids ≡ false
    → IsOpen run
    → IsConsistent (after_error id e run).1
after_error-IsConsistent id value_error run h k =
    fail-IsConsistent id (apply_failed value_error) run h k
after_error-IsConsistent id type_error run h k =
    fail-IsConsistent id (apply_failed type_error) run h k
after_error-IsConsistent id interface_error run h k =
    fail-IsConsistent id (apply_failed interface_error) run h k
after_error-IsConsistent id cross_partition_error run h k = open-IsConsistent run k
after_error-IsConsistent id unseeded_match_error run h k =
    fail-IsConsistent id (apply_failed unseeded_match_error) run h k
after_error-IsConsistent id taxonomy_error run h k =
    fail-IsConsistent id (apply_failed taxonomy_error) run h k
after_error-IsConsistent id sequence_error run h k =
    fail-IsConsistent id (apply_failed sequence_error) run h k

after_apply-IsConsistent :
    (id : String) (r : Result (Option NormalizedMatch)) (run : Run)
    → listed id run.applied_ids ≡ false
    → IsOpen run
    → IsConsistent (after_apply id r run).1
after_apply-IsConsistent id (err e) run h k = after_error-IsConsistent id e run h k
after_apply-IsConsistent id (ok none) run h k = fail-IsConsistent id not_written run h k
after_apply-IsConsistent id (ok (some b)) run h k = succeed-IsConsistent id run k

not_applied :
    (job : Job) (run : Run) (id : String)
    → is_stored job run id ≡ false
    → listed id run.applied_ids ≡ false
unfolding is_stored
not_applied job run id h = ground arith

step_match-IsConsistent :
    (job : Job) (m : NormalizedMatch) (run : Run)
    → IsConsistent run
    → IsConsistent (step_match job m run).1
unfolding step_match apply_detail
step_match-IsConsistent job m run (none_failed, count, room) =
    let counted = record run { enumerated = suc run.enumerated } in
    let opened : IsOpen counted = (none_failed, count, omega (arith, room)) in
    let skipped = record counted { already_stored_skipped = suc counted.already_stored_skipped } in
    if-cases (λ (s : Option Abort × Run). IsConsistent s.1) (is_stored job run m.match_id)
      (none, skipped) _ (λ _. (none_failed, count, omega (arith, room)))
      (λ new.
        let fresh = not_applied job run m.match_id new in
        elim (job.provider.fetch_match_detail m.match_id)
          as (λ o.
            IsConsistent
              (elim o as (λ _. Option Abort × Run) [
                | none ↦ (none, fail m.match_id fetch_failed counted)
                | some detail ↦ apply_detail job m detail counted
              ]).1) [
                | none ↦ fail-IsConsistent m.match_id fetch_failed counted fresh opened
                | some detail ↦ after_apply-IsConsistent m.match_id _ _ fresh opened
              ])

-- When run_backfill ends, by an abort too, no match is both applied and failed, applied is
-- the number of the applied ids, and the skipped, the applied and the failed matches
-- together are no more than the enumerated ones.
pub run_backfill-IsConsistent :
    (job : Job) (source : String) (chunks : List ℕ) (db : Db) (memory : Memory)
    → IsConsistent (run_backfill job source chunks db memory).1
unfolding run_backfill
run_backfill-IsConsistent job source chunks db memory =
    if-cases (λ (s : Option Abort × Run). IsConsistent s.1) (source == job.writer.source)
      (run_chunks job chunks (start_run db memory)) (some source_mismatch, start_run db memory)
      (λ _.
        run_chunks-keeps job IsConsistent (step_match-IsConsistent job) (λ chunk run h. h) chunks
          (start_run db memory) (tt, refl, omega arith))
      (λ _. (tt, refl, omega arith))
