-- ===== src/Engine/Poll/Turn/Gone.antt =====
-- The turn of a match that left the slate, in _hydrate_vanished_matches and
-- _hydrate_vanished_backfill_matches of gamecollect/engine.py, is a chain of the small changes.
use gamealerts_collector.Prelude.{
  ℕ, suc, ◌≡◌, refl, sym, subst, String, Bool, true, false, not, ◌&&◌, Option, none, some, leb,
  if◌then◌else◌, if-cases,
}
use gamealerts_collector.Provider.{is_live, NormalizedMatch}
use gamealerts_collector.FallbackMerge.{is_terminal}
use gamealerts_collector.Merge.{merge_over_base}
use gamealerts_collector.Engine.Tracking.{
  Tracker, tracker, tracker_at_cap, backfill_tracker, backfill_tracker_at_cap,
}
use gamealerts_collector.Engine.GiveUp.{over}
use gamealerts_collector.Engine.Poll.State.{
  Fetched, fetched, unavailable, shape_drift, View, Poll, queue, request, give_up, backfill_give_up,
  put_tracker, put_backfill, note_pending,
}
use gamealerts_collector.Engine.Poll.Board.{fail_backfill}
use gamealerts_collector.Engine.Poll.Vanished.{
  on_vanished_failure, on_vanished_detail, missed, reset_failures, outlived, transition_base,
  if_live, step_vanished, on_backfill_failure, on_backfill_detail, step_backfill,
}
use gamealerts_collector.Engine.Poll.Turn.{
  Turn, chains, queues, tracks, backfills, gives_up, gives_up_backfill, pends, fetches, either,
  tracker-Turn, backfill_tracker-Turn, give_up_if_at_cap-Turn, fail_backfill-Turn, Answers,
}

-- Only the fetches that are no backfill are the loop's own.
abbrev pub IsPlain : Bool → Poll → Type 0
IsPlain is_backfill p = is_backfill ≡ false

match_id-over :
    (o : Option NormalizedMatch) (m : NormalizedMatch) → (over o m).match_id ≡ m.match_id
unfolding merge_over_base
match_id-over none m = refl
match_id-over (some b) m = refl

module _ (v : View) (Owns : String → Type 0) where
  on_vanished_failure-Turn :
      (id : String) (found : Tracker) (p : Poll)
      → Owns id
      → Turn v Owns IsPlain p (on_vanished_failure v id found p)
  unfolding on_vanished_failure
  on_vanished_failure-Turn id found p own =
      let made = tracks id (missed found) p own in
      let p' = put_tracker id (missed found) p in
      give_up_if_at_cap-Turn v Owns IsPlain id (missed found) none p p' p' own made made

  on_vanished_detail-Turn :
      (id : String) (found : Tracker) (detail : NormalizedMatch) (p : Poll)
      → Owns id
      → Turn v Owns IsPlain p (on_vanished_detail v id found detail p)
  unfolding on_vanished_detail
  on_vanished_detail-Turn id found detail p own =
      let merged = over (transition_base v id (reset_failures found)) detail in
      let counted = outlived found merged in
      let p' = put_tracker id counted p in
      let kept = if is_live detail.status then queue merged p' else p' in
      let made = tracks id counted p own in
      let ended = put_tracker id (reset_failures found) p in
      either v Owns IsPlain (is_terminal detail.status) p (queue merged ended) _
        (λ _. chains (tracks id (reset_failures found) p own) (queues merged ended))
        (λ _.
          give_up_if_at_cap-Turn v Owns IsPlain id counted (if_live detail merged) p p' kept own
            made
            (either v Owns IsPlain (is_live detail.status) p (queue merged p') p'
              (λ _. chains made (queues merged p')) (λ _. made)))

  -- The body of the loop over the vanished matches is such a chain.
  pub step_vanished-Turn :
      (id : String) (p : Poll) → Owns id → Turn v Owns IsPlain p (step_vanished v id p)
  unfolding step_vanished
  step_vanished-Turn id p own =
      let found = (tracker id p.tracking).0 in
      let p1 = record p { tracking = (tracker id p.tracking).1 } in
      let made = tracker-Turn v Owns IsPlain id p own in
      either v Owns IsPlain (tracker_at_cap found) p (give_up v id found none p1) _
        (λ _. chains made (gives_up id found none p1 own))
        (λ _. chains made (chains (fetches id false p1 refl) (answered (v.fetch_match_detail id))))
    where
      answered :
          (f : Fetched)
          → let found = (tracker id p.tracking).0 in
            let p2 = request id false (record p { tracking = (tracker id p.tracking).1 }) in
            Turn v Owns IsPlain p2 (elim f as (λ _. Poll) [
              | fetched detail ↦ on_vanished_detail v id found detail p2
              | unavailable ↦ on_vanished_failure v id found p2
              | shape_drift ↦ on_vanished_failure v id found p2
            ])
      answered (fetched detail) = on_vanished_detail-Turn id (tracker id p.tracking).0 detail _ own
      answered unavailable = on_vanished_failure-Turn id (tracker id p.tracking).0 _ own
      answered shape_drift = on_vanished_failure-Turn id (tracker id p.tracking).0 _ own

  pub on_backfill_failure-Turn :
      (id : String) (found : Tracker) (p : Poll)
      → Owns id
      → Turn v Owns IsPlain p (on_backfill_failure v id found p)
  unfolding on_backfill_failure
  on_backfill_failure-Turn id found p own =
      let counted = record found { consecutive_failures = suc found.consecutive_failures } in
      let p' = put_backfill id counted p in
      let made = backfills id counted p own in
      either v Owns IsPlain (backfill_tracker_at_cap counted) p
        (backfill_give_up v id counted none p') p'
        (λ _. chains made (gives_up_backfill id counted none p' own)) (λ _. made)

  pub on_backfill_detail-Turn :
      (id : String) (found : Tracker) (detail : NormalizedMatch) (p : Poll)
      → Owns id
      → Owns detail.match_id
      → Turn v Owns IsPlain p (on_backfill_detail v id found detail p)
  unfolding on_backfill_detail
  on_backfill_detail-Turn id found detail p own owned =
      let merged = over found.fallback detail in
      let p1 = note_pending true id p in
      let merged_own = subst Owns (sym (match_id-over found.fallback detail)) owned in
      either v Owns IsPlain (not (is_live merged.status) && not (is_terminal merged.status)) p
        (fail_backfill v id merged p1) (queue merged p1)
        (λ _. chains (pends id p) (fail_backfill-Turn v Owns IsPlain id merged p1 own merged_own))
        (λ _. chains (pends id p) (queues merged p1))

  -- What the changes and the fetch of a backfill keep, the body of the second loop keeps.
  pub step_backfill-rule {ℓ} :
      (P : Poll → Type ℓ)
      → ((p q : Poll) → Turn v Owns IsPlain p q → P p → P q)
      → ((id : String) (p : Poll) → P p → P (request id true p))
      → (budget : ℕ) (id : String) (n : ℕ) (p : Poll) → Owns id
      → Answers v Owns id
      → P p
      → P (step_backfill v budget id (n, p)).1
  unfolding step_backfill
  step_backfill-rule P keeps asks budget id n p own answers h =
      let Q = λ (s : ℕ × Poll). P s.1 in
      let p1 = record p { tracking = (backfill_tracker id p.tracking).1 } in
      let h1 = keeps p p1 (backfill_tracker-Turn v Owns IsPlain id p own) h in
      if-cases Q (backfill_tracker_at_cap (backfill_tracker id p.tracking).0) _ _
        (λ _. keeps p1 _ (gives_up_backfill id (backfill_tracker id p.tracking).0 none p1 own) h1)
        (λ _. if-cases Q (leb budget n) (n, p1) _ (λ _. h1) (λ _. answered _ refl (asks id p1 h1)))
    where
      answered :
          (f : Fetched)
          → v.fetch_match_detail id ≡ f
          → let found = (backfill_tracker id p.tracking).0 in
            let p2 = request id true (record p { tracking = (backfill_tracker id p.tracking).1 }) in
            P p2
            → P (elim f as (λ _. Poll) [
              | fetched detail ↦ on_backfill_detail v id found detail p2
              | unavailable ↦ on_backfill_failure v id found p2
              | shape_drift ↦ on_backfill_failure v id found p2
            ])
      answered (fetched detail) e k =
          let found = (backfill_tracker id p.tracking).0 in
          keeps _ _ (on_backfill_detail-Turn id found detail _ own (answers detail e)) k
      answered unavailable e k =
          keeps _ _ (on_backfill_failure-Turn id (backfill_tracker id p.tracking).0 _ own) k
      answered shape_drift e k =
          keeps _ _ (on_backfill_failure-Turn id (backfill_tracker id p.tracking).0 _ own) k
