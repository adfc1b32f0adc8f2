-- ===== src/Engine/Poll/Kept/Run.antt =====
-- The turns and the loops of a poll of gamecollect/engine.py, and the matches in transition.
use gamealerts_collector.Prelude.{
  ℕ, String, ◌≡◌, refl, ◌∙◌, ap, subst, sym, inl, Bool, true, not, ◌&&◌, List, [], ◌∷◌, Option,
  none, some, if◌then◌else◌, if-cases, ◌==◌, string_eq,
}
use gamealerts_collector.Dict.{Dict, get, contains}
use gamealerts_collector.Provider.{NormalizedMatch}
use gamealerts_collector.Writer.Table.{MatchRow}
use gamealerts_collector.Engine.Tracking.{Tracking, age_cooldowns, evict_all, evict_match_tracking}
use gamealerts_collector.FallbackMerge.{is_terminal}
use gamealerts_collector.Engine.Stored.{live_value, read_status, resolve_stored_provider_id}
use gamealerts_collector.Engine.Poll.State.{View, Poll, stored_snapshot, give_up, backfill_give_up}
use gamealerts_collector.Engine.Poll.Board.{step_board}
use gamealerts_collector.Engine.Poll.Vanished.{
  step_vanished, run_vanished, vanished_ids, step_backfill, run_backfill_pass,
  hydrate_vanished_backfill_matches, hydrate_vanished_matches, sorted_ids, off_slate, keys,
}
use gamealerts_collector.Engine.Poll.Restart.{
  status_of, seedable, seed_live_row, seed_eventless_row, has_event, seed_tracker, seed_live_rows,
  seed_restart_trackers, seed_backfill, seed_eventless_rows, seed_restart_backfill_trackers,
}
use gamealerts_collector.Engine.Poll.Slate.{
  slate_ids, live_slate_ids, run_slate, begin, restart_scan, fetch_poll_snapshots,
}
use gamealerts_collector.Engine.Poll.Turn.{
  Turn, stays, chains, queues, tracks, backfills, gives_up, gives_up_backfill, accrues, pends,
  resumes, fetches, tracker-Turn, backfill_tracker-Turn,
}
use gamealerts_collector.Engine.Poll.Turn.Boards.{step_board-Turn}
use gamealerts_collector.Engine.Poll.Turn.Gone.{IsPlain, step_vanished-Turn, step_backfill-rule}
use gamealerts_collector.Engine.Poll.Kept.{
  IsKept, insert-IsKept, backfill-IsKept, emit_give_up-IsKept, emit_backfill_give_up-IsKept,
  accrue_while_cooling-IsKept, tracking-queue_if_some,
}

module _ (v : View) (id : String) where
  Turn-IsKept :
      {Owns : String → Type 0} {May : Bool → Poll → Type 0} {p q : Poll}
      → Turn v Owns May p q
      → IsKept id p.tracking
      → IsKept id q.tracking
  unfolding give_up backfill_give_up
  Turn-IsKept (stays p) h = h
  Turn-IsKept (chains a b) h = Turn-IsKept b (Turn-IsKept a h)
  Turn-IsKept (queues m p) h = h
  Turn-IsKept (tracks other found p own) h = insert-IsKept id other found p.tracking h
  Turn-IsKept (backfills other found p own) h = backfill-IsKept id _ p.tracking h
  Turn-IsKept (gives_up other found fresh p own) h =
      subst (IsKept id) (sym (tracking-queue_if_some _ _)) (
        emit_give_up-IsKept id other found fresh (get other v.last) (stored_snapshot v other)
          p.tracking h)
  Turn-IsKept (gives_up_backfill other found fresh p own) h =
      subst (IsKept id) (sym (tracking-queue_if_some _ _)) (
        emit_backfill_give_up-IsKept id other found fresh (get other v.last)
          (stored_snapshot v other) p.tracking h)
  Turn-IsKept (accrues other m drift p own) h = accrue_while_cooling-IsKept id other m drift p h
  Turn-IsKept (pends other p) h = h
  Turn-IsKept (resumes other p) h = h
  Turn-IsKept (fetches other b p may) h = h

  run_slate-IsKept :
      (ms : List NormalizedMatch) (p : Poll)
      → IsKept id p.tracking
      → IsKept id (run_slate v ms p).tracking
  unfolding run_slate
  run_slate-IsKept [] p h = h
  run_slate-IsKept (m ∷ ms) p h =
      run_slate-IsKept ms (step_board v m p)
        (Turn-IsKept (step_board-Turn v (λ _. Unit) m p tt (λ d e. tt)) h)

  run_vanished-IsKept :
      (ids : List String) (p : Poll)
      → IsKept id p.tracking
      → IsKept id (run_vanished v ids p).tracking
  unfolding run_vanished
  run_vanished-IsKept [] p h = h
  run_vanished-IsKept (other ∷ ids) p h =
      run_vanished-IsKept ids (step_vanished v other p)
        (Turn-IsKept (step_vanished-Turn v (λ _. Unit) other p tt) h)

  run_backfill_pass-IsKept :
      (budget : ℕ) (ids : List String) (s : ℕ × Poll)
      → IsKept id s.1.tracking
      → IsKept id (run_backfill_pass v budget ids s).1.tracking
  unfolding run_backfill_pass
  run_backfill_pass-IsKept budget [] s h = h
  run_backfill_pass-IsKept budget (other ∷ ids) (n, p) h =
      run_backfill_pass-IsKept budget ids (step_backfill v budget other (n, p)) (
        step_backfill-rule v (λ _. Unit) (λ (q : Poll). IsKept id q.tracking) (λ q r. Turn-IsKept)
          (λ x q k. k) budget other n p tt (λ d e. tt) h)

  hydrate_vanished_matches-IsKept :
      (slate : List String) (budget : ℕ) (p : Poll)
      → IsKept id p.tracking
      → IsKept id (hydrate_vanished_matches v slate budget p).tracking
  unfolding hydrate_vanished_matches hydrate_vanished_backfill_matches
  hydrate_vanished_matches-IsKept slate budget p h =
      let p' = run_vanished v (vanished_ids v slate p.tracking) p in
      let kept = run_vanished-IsKept (vanished_ids v slate p.tracking) p h in
      let ids = sorted_ids (off_slate slate p'.tracking (keys p'.tracking.backfill)) in
      if-cases (λ (q : Poll). IsKept id q.tracking) v.backfill_finished_matches
        (run_backfill_pass v budget ids (0, p')).1 p'
        (λ _. run_backfill_pass-IsKept budget ids (0, p') kept) (λ _. kept)

  seed_tracker-IsKept :
      (o : Option String) (t : Tracking) → IsKept id t → IsKept id (seed_tracker o t)
  seed_tracker-IsKept none t h = h
  seed_tracker-IsKept (some other) t h =
      Turn-IsKept (tracker-Turn v (λ _. Unit) IsPlain other (begin t) tt) h

  seed_backfill-IsKept :
      (o : Option String) (t : Tracking) → IsKept id t → IsKept id (seed_backfill o t)
  seed_backfill-IsKept none t h = h
  seed_backfill-IsKept (some other) t h =
      Turn-IsKept (backfill_tracker-Turn v (λ _. Unit) IsPlain other (begin t) tt) h

  seed_live_row-IsKept :
      (present : List String) (stored_id : String) (row : MatchRow) (t : Tracking)
      → IsKept id t
      → IsKept id (seed_live_row v.default_seed v.source v.db present stored_id row t)
  seed_live_row-IsKept present stored_id row t h =
      let resolved = resolve_stored_provider_id v.default_seed v.source v.db stored_id in
      let seeded = seedable resolved present t in
      if-cases (IsKept id) (row.source == v.source && live_value (status_of row))
        (seed_tracker seeded t) t (λ _. seed_tracker-IsKept seeded t h) (λ _. h)

  seed_live_rows-IsKept :
      (present : List String) (rows : Dict MatchRow) (t : Tracking)
      → IsKept id t
      → IsKept id (seed_live_rows v.default_seed v.source v.db present rows t)
  unfolding seed_live_rows
  seed_live_rows-IsKept present [] t h = h
  seed_live_rows-IsKept present ((stored_id, row) ∷ rows) t h =
      seed_live_rows-IsKept present rows
        (seed_live_row v.default_seed v.source v.db present stored_id row t)
        (seed_live_row-IsKept present stored_id row t h)

  seed_eventless_row-IsKept :
      (present : List String) (stored_id : String) (row : MatchRow) (t : Tracking)
      → IsKept id t
      → IsKept id (seed_eventless_row v.default_seed v.source v.db present stored_id row t)
  seed_eventless_row-IsKept present stored_id row t h =
      let resolved = resolve_stored_provider_id v.default_seed v.source v.db stored_id in
      let seeded = seedable resolved present t in
      if-cases (IsKept id)
        (row.source == v.source
          && (not (has_event v.default_seed v.source v.db present stored_id v.db.events)
              && is_terminal (read_status (status_of row))))
        (seed_backfill seeded t) t (λ _. seed_backfill-IsKept seeded t h) (λ _. h)

  seed_eventless_rows-IsKept :
      (present : List String) (rows : Dict MatchRow) (t : Tracking)
      → IsKept id t
      → IsKept id (seed_eventless_rows v.default_seed v.source v.db present rows t)
  unfolding seed_eventless_rows
  seed_eventless_rows-IsKept present [] t h = h
  seed_eventless_rows-IsKept present ((stored_id, row) ∷ rows) t h =
      seed_eventless_rows-IsKept present rows
        (seed_eventless_row v.default_seed v.source v.db present stored_id row t)
        (seed_eventless_row-IsKept present stored_id row t h)

  restart_scan-IsKept :
      (done : Bool) (slate : List NormalizedMatch) (t : Tracking)
      → IsKept id t
      → IsKept id (restart_scan v done slate t)
  unfolding restart_scan seed_restart_trackers seed_restart_backfill_trackers
  restart_scan-IsKept done slate t h =
      let live = seed_live_rows-IsKept (slate_ids slate) v.db.matches t h in
      let t' = seed_restart_trackers v.default_seed v.source v.db (slate_ids slate) t in
      let ids = live_slate_ids slate in
      let both = seed_restart_backfill_trackers v.default_seed v.source v.db ids t' in
      if-cases (IsKept id) done t (if v.backfill_finished_matches then both else t') (λ _. h)
        (λ _.
          if-cases (IsKept id) v.backfill_finished_matches both t'
            (λ _. seed_eventless_rows-IsKept ids v.db.matches t' live) (λ _. live))

transitions-evict_all :
    (ids : List String) (t : Tracking) → (evict_all ids t).transitions ≡ t.transitions
unfolding evict_all evict_match_tracking
transitions-evict_all [] t = refl
transitions-evict_all (id ∷ ids) t = transitions-evict_all ids (evict_match_tracking id true t)

transitions-age_cooldowns :
    (ids : List String) (t : Tracking) → (age_cooldowns ids t).transitions ≡ t.transitions
unfolding age_cooldowns
transitions-age_cooldowns ids t = transitions-evict_all _ _

-- If a match has a transition tracker before a poll, then after _fetch_poll_snapshots,
-- whatever is on the slate, the provider answers or the restart scans seed, it still has
-- one, or it cools down: the poll never drops a match that is in transition without a
-- cooldown.
pub fetch_poll_snapshots-IsKept :
    (v : View) (id : String) (done : Bool) (slate : List NormalizedMatch) (t : Tracking)
    → contains id t.transitions ≡ true
    → IsKept id (fetch_poll_snapshots v done slate t).tracking
unfolding fetch_poll_snapshots
fetch_poll_snapshots-IsKept v id done slate t h =
    let ids = slate_ids slate in
    let aged = inl (ap (contains id) (transitions-age_cooldowns ids t) ∙ h) in
    let scanned = restart_scan-IsKept v id done slate (age_cooldowns ids t) aged in
    hydrate_vanished_matches-IsKept v id ids _ _ (run_slate-IsKept v id slate _ scanned)
