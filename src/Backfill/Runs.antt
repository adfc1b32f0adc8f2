-- ===== src/Backfill/Runs.antt =====
-- What each match keeps, a run of run_backfill of gamecollect/backfill.py keeps.
use gamealerts_collector.Prelude.{ℕ, List, [], ◌∷◌, ◌++◌, Option, none, some}
use gamealerts_collector.Provider.{NormalizedMatch}
use gamealerts_collector.Backfill.{
  schedule, schedule_unsupported, schedule_failed, Job, Run, Abort, missing_schedule_support,
  step_match, run_matches, terminal_matches, step_chunk, run_chunks,
}

module _ {ℓ} (job : Job) (P : Run → Type ℓ)
    (each : (m : NormalizedMatch) (run : Run) → P run → P (step_match job m run).1)
    (notes : (chunk : ℕ) (run : Run)
      → P run
      → P (record run { failed_chunks = run.failed_chunks ++ chunk ∷ [] })) where
  run_matches-keeps : (ms : List NormalizedMatch) (run : Run) → P run → P (run_matches job ms run).1
  unfolding run_matches
  run_matches-keeps [] run h = h
  run_matches-keeps (m ∷ ms) run h =
      let next = (step_match job m run).1 in
      let here = each m run h in
      let later = run_matches-keeps ms next here in
      elim (step_match job m run).0
        as (λ o.
          P
            (elim o as (λ _. Option Abort × Run) [
              | some a ↦ (some a, next)
              | none ↦ run_matches job ms next
            ]).1) [ some a ↦ here | none ↦ later ]

  step_chunk-keeps : (chunk : ℕ) (run : Run) → P run → P (step_chunk job chunk run).1
  unfolding step_chunk
  step_chunk-keeps chunk run h =
      elim (job.provider.fetch_schedule chunk)
        as (λ s.
          P
            (elim s as (λ _. Option Abort × Run) [
              | schedule ms ↦ run_matches job (terminal_matches ms) run
              | schedule_unsupported ↦ (some missing_schedule_support, run)
              | schedule_failed ↦
                  (none, record run { failed_chunks = run.failed_chunks ++ chunk ∷ [] })
            ]).1) [
              | schedule ms ↦ run_matches-keeps (terminal_matches ms) run h
              | schedule_unsupported ↦ h
              | schedule_failed ↦ notes chunk run h
            ]

  pub run_chunks-keeps : (chunks : List ℕ) (run : Run) → P run → P (run_chunks job chunks run).1
  unfolding run_chunks
  run_chunks-keeps [] run h = h
  run_chunks-keeps (chunk ∷ chunks) run h =
      let next = (step_chunk job chunk run).1 in
      let here = step_chunk-keeps chunk run h in
      let later = run_chunks-keeps chunks next here in
      elim (step_chunk job chunk run).0
        as (λ o.
          P
            (elim o as (λ _. Option Abort × Run) [
              | some a ↦ (some a, next)
              | none ↦ run_chunks job chunks next
            ]).1) [ some a ↦ here | none ↦ later ]
