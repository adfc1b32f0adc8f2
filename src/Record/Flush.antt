-- ===== src/Record/Flush.antt =====
-- The flush of a session of gamecollect/record.py.
use gamealerts_collector.Prelude.{
  ◌≡◌, ◌⊎◌, refl, Bool, inl, inr, true, not, ◌||◌, List, [], arith, non_empty, if-cases,
}
use gamealerts_collector.Provider.{NormalizedMatch}
use gamealerts_collector.Record.{
  RecordWriter, Flushed, skipped, written, raised, flush, matches_of, pending_count,
}

flush-guarded :
    (write : List NormalizedMatch → Bool) (w : RecordWriter)
    → (not (non_empty w.records) || w.flush_failed) ≡ true
    → flush write w ≡ (skipped, w)
unfolding flush
flush-guarded write w h = rw h refl

-- A second flush right after a first does nothing, whatever the two writes do; and the
-- first either reports that it wrote and leaves nothing pending, or keeps every recorded
-- match.
pub flush-once :
    (first second : List NormalizedMatch → Bool) (w : RecordWriter)
    → (flush second (flush first w).1 ≡ (skipped, (flush first w).1))
      × ((((flush first w).0 ≡ written) × (pending_count (flush first w).1 ≡ 0))
          ⊎ ((flush first w).1.records ≡ w.records))
unfolding flush pending_count
flush-once first second w =
    let cleared = record w { records = [] } in
    let latched = record w { flush_failed = true } in
    if-cases Once (not (non_empty w.records) || w.flush_failed) (skipped, w) _
      (λ h. (flush-guarded second w h, inr refl))
      (λ _.
        if-cases Once (first (matches_of w.records)) (written, cleared) (raised, latched)
          (λ _. (flush-guarded second cleared refl, inl (refl, refl)))
          (λ _. (flush-guarded second latched (ground arith), inr refl)))
  where
    Once : Flushed × RecordWriter → Type 0
    Once s =
        (flush second s.1 ≡ (skipped, s.1))
        × (((s.0 ≡ written) × (pending_count s.1 ≡ 0)) ⊎ (s.1.records ≡ w.records))
